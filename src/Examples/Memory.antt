-- ===== src/Examples/Memory.antt =====
-- Tests of the memory of a tracee, at a kernel without process_vm_writev(2) and process_vm_readv(2).
use proot.Prelude.{
  if◌then◌else◌, ◌==◌, ok, ℕ, ◌≡◌, refl, List, [], ◌∷◌, ◌++◌, true, false, none, some,
}
use proot.Mem.{
  Kernel, write_data, read_data, writev_data, write_buffers, poke_words, poke_trailing, peek_words,
  gathered, read_string,
}
use proot.Mem.Read.{bytes, written, IsFaithful}
use proot.Mem.Write.{read_data-write_data}
use proot.Mem.Text.{up_to_terminator, read_string-returns}
use proot.Mem.Gather.{writev_data-written}

abbrev by_ptrace : Kernel (ℕ → ℕ)
by_ptrace = record {
  process_vm_writev = λ m a l. (m, false);
  process_vm_readv = λ m a n. none;
  pokedata = λ m a w. (written m a w, true);
  peekdata = λ m a. some (bytes m a 8);
}

by_ptrace-IsFaithful : IsFaithful by_ptrace (λ m. m)
by_ptrace-IsFaithful = record {
  reads = λ m a n l h. cc (h);
  peeks = λ m a w h. cc (h);
  writes = λ m a l x h. cc (h);
  fails = λ m a l x h. refl;
  pokes = λ m a l x h. refl;
}

-- A memory whose bytes are all 1, and ten bytes: a word and two bytes of the next.
abbrev ones : ℕ → ℕ
ones a = 1

abbrev ten : List ℕ
ten = 2 ∷ 3 ∷ 4 ∷ 5 ∷ 6 ∷ 7 ∷ 8 ∷ 9 ∷ 10 ∷ 11 ∷ []

abbrev after : ℕ → ℕ
unfolding write_data
after = (write_data by_ptrace ones 16 ten).0

after-reads : (after 15 ≡ 1) × (after 16 ≡ 2) × (after 25 ≡ 11) × (after 26 ≡ 1)
unfolding write_data written bytes poke_words poke_trailing
after-reads = (refl, refl, refl, refl)

read_data-write_data_example : ten ≡ ten
unfolding write_data poke_words poke_trailing read_data peek_words bytes written
read_data-write_data_example =
    read_data-write_data by_ptrace (λ m. m) by_ptrace-IsFaithful ones after 16 ten ten refl refl

writev_data-written_example :
    (writev_data by_ptrace ones 16 (ten ∷ ten ∷ [])).0 35 ≡ written ones 16 (ten ++ ten) 35
unfolding writev_data write_buffers write_data poke_words poke_trailing gathered
writev_data-written_example =
    writev_data-written by_ptrace (λ m. m) by_ptrace-IsFaithful ones
      (writev_data by_ptrace ones 16 (ten ∷ ten ∷ [])).0 16 (ten ∷ ten ∷ []) 35 refl

-- A string of seventeen bytes from 16 on, its terminator in the third word.
abbrev text : ℕ → ℕ
text a = if a == 33 then 0 else 1

read_string-returns_example : read_string by_ptrace 1024 text 16 20 ≡ ok 18
unfolding up_to_terminator bytes
read_string-returns_example =
    read_string-returns by_ptrace (λ m. m) by_ptrace-IsFaithful 1024 text 16 20
      (λ a low high. (bytes text a 8, refl))
