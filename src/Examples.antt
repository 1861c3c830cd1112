-- ===== src/Examples.antt =====
-- Tests of the development: each theorem at one concrete input.
mod Paths
mod Lists
mod Canonical
mod Semaphores
mod Messages
mod Waits
mod Ids
mod Memory
mod Scripts
mod Registers
