-- ===== src/Lib.antt =====
-- Models of the core of PRoot, a user-space chroot, bind mount and binfmt_misc that traces its
-- programs (tracees) with ptrace(2), and the theorems on them.
--
-- The parts. A tracee sees guest paths. At each system call PRoot turns them into host paths:
-- `translate_path` joins the path to its base and calls `canonicalize`, which walks over the
-- components, resolves the symbolic links itself and asks the bindings, sorted lists of pairs of
-- a host and a guest path, where a component lies on the host; `detranslate_path` goes back.
-- Registers of the tracee are cached, read and written by `peek_reg` and `poke_reg`, and system
-- calls are named by neutral numbers; a chain of system calls can be run behind the one at hand,
-- and brk(2) is emulated with a mapping. One extension emulates System V semaphores and message
-- queues: its handlers change the name-space and ask for a wait, and its callback keeps the tracee
-- in ppoll(2) until the handler of another one wakes it. Another extension fakes user ids.
-- Memory of a tracee is copied by one system call, or word by word through ptrace(2).
--
-- The files.
--   Prelude: natural numbers, tests, lists, error numbers and results for all others.
--   Path: src/path/path.c and path.h, the functions on strings; Path/Join, Path/Compare and
--     Path/Substitute prove them.
--   Binding: src/path/binding.c; Binding/Order proves the order of the lists, Binding/Lookup the
--     look-up and the substitution. Pointers to bindings are addresses, lists are lists.
--   Canon: src/path/canon.c and what src/path/path.c has above it (`getcwd2`,
--     `readlink_proc_pid_fd`, `translate_path`, `detranslate_path`). The kernel, the extensions and
--     src/path/proc.c are the record `Host`, a parameter. Canon/Component is about the cutting of
--     paths, Canon/Absolute about the whole loop.
--   Shebang: `extract_shebang` of src/execve/shebang.c, over the bytes of the file.
--   Tracee: src/tracee/reg.c, reg.h, abi.h, for x86_64; Sysnum: src/syscall/sysnum.c; Chain:
--     src/syscall/chain.c; Heap: src/syscall/heap.c.
--   Sysvipc: what the System V extension shares, from src/extension/sysvipc/sysvipc_internal.h and
--     sysvipc.c: the table of objects (Sysvipc/Lookup) and the waking of tracees (Sysvipc/Wake).
--   Sem: src/extension/sysvipc/sysvipc_sem.c: Sem/Asserts is about its assertions, Sem/Ids about ids,
--     Sem/Values about the values, Sem/Waiters about the tracees that wait, Sem/Sound about all
--     sequences of calls.
--   Msg: src/extension/sysvipc/sysvipc_msg.c, with Msg/Receive and Msg/Calls: Msg/Ids is about ids,
--     Msg/First about what is received, Msg/Wakeup about the tracees that wait, Msg/Counts and
--     Msg/Reach about the counters.
--   Wait: src/extension/sysvipc/sysvipc.c, the dispatch and the events of the wait machine:
--     Wait/Wakes, Wait/Handlers, Wait/Messages, Wait/Dispatch, Wait/Events and Wait/Reach carry its
--     invariant, Wait/Progress is about its assertions.
--   Creds: src/extension/fake_id0/fake_id0.c and config.h without USERLAND, the ids of a tracee:
--     Creds/Change is about one call, Creds/Drop about sequences of them.
--   Mem: src/tracee/mem.c for 64-bit words, with the calls of the kernel as the record `Kernel`:
--     Mem/Read and Mem/Text about reading, Mem/Write and Mem/Gather about writing.
--   Examples: each theorem at one concrete input.
--
-- The model. A C string is the list of the bytes in front of its NUL. A function that writes to a
-- buffer returns its new content; one that returns a negated error number returns a `Result`. A
-- failed assertion is the error `assertion`, or `none`. Words wrap at 2 ^ 64 and ids at 2 ^ 32,
-- written out. The memory of a tracee is a parameter where messages and values are read from it or
-- written to it. A tracee of a name-space is its configuration, told by its process id; the list of
-- tracees is in the order of PRoot. PATH_MAX is 4096 and NAME_MAX 255.
--
-- Fuel. The loop of `canonicalize` has one more than the bytes of the user's path, and each
-- round takes at least one byte off the cursor or is the last; the recursion counts down from
-- MAXSYMLINKS, as the code counts up to it. The loop of `read_string` over chunks has one more
-- than `max_size`, and each chunk has a byte. All other loops are structural recursions.
--
-- Not modelled: the glue directories (`glue_type` other than 0), the assertion on named
-- descriptors at the end of a round of `canonicalize`, the assertion of `get_binding` that a
-- path begins with "/", those of `substitute_path_prefix` and `read_string` on lengths, the
-- set-up of bindings from the command line, System V shared memory and the chained events that only
-- it causes, what fake_id0 does to modes and owners of files, the other extensions, the ELF
-- loader, `alloc_mem`, `clear_mem` and the reading of single words in src/tracee/mem.c, the
-- event loop, the emulation of ptrace(2) and what only prints.
pub mod Prelude
pub mod Path
pub mod Binding
pub mod Canon
pub mod Sem
pub mod Shebang
pub mod Tracee
pub mod Sysnum
pub mod Sysvipc
pub mod Msg
pub mod Wait
pub mod Creds
pub mod Mem
pub mod Chain
pub mod Heap
pub mod Examples
