-- ===== src/Chain.antt =====
-- The system calls that PRoot inserts behind one of the tracee: src/syscall/chain.c.
pub mod Fifo
use proot.Prelude.{
  ℕ, ◌+◌, ◌-◌, ◌%◌, ◌^◌, Bool, true, false, Option, none, some, List, [], ◌∷◌, ◌++◌, if◌then◌else◌,
  Errno, enomem, Result, ok, err, ◌>>=◌,
}
use proot.Tracee.{
  Abi, Tracee, ChainedSyscall, SyscallChain, RegVersion, current, original, ptrace_syscall, get_abi,
  peek_reg, poke_reg, sysarg_1, sysarg_2, sysarg_3, sysarg_4, sysarg_5, sysarg_6, sysarg_result,
  instr_pointer, word_modulus, workaround_inactive, workaround_process_faulty_call,
  workaround_process_replaced_call,
}
use proot.Sysnum.{detranslate_sysnum, get_sysnum}

abbrev pub systrap_size : ℕ
systrap_size = 2

-- Whether the two allocations of `register_chained_syscall_internal` succeed.
pub record Memory : Type 0 where
  pub list_allocated : Bool
  pub syscall_allocated : Bool

abbrev pub with_syscalls : Tracee → Option (List ChainedSyscall) → Tracee
with_syscalls tracee l = record tracee { chain = record tracee.chain { syscalls = l } }

abbrev insert : Memory → Tracee → List ChainedSyscall → ChainedSyscall → Bool → Tracee × Result ℕ
insert memory tracee l syscall at_front =
    if memory.syscall_allocated
    then (with_syscalls tracee (some (if at_front then syscall ∷ l else l ++ syscall ∷ [])), ok 0)
    else (with_syscalls tracee (some l), err enomem)

unfoldable pub register_chained_syscall_internal :
    Memory → Tracee → ChainedSyscall → Bool → Tracee × Result ℕ
register_chained_syscall_internal memory tracee syscall at_front = elim tracee.chain.syscalls [
  | none ↦
      if memory.list_allocated
      then insert memory tracee [] syscall at_front
      else (tracee, err enomem)
  | some l ↦ insert memory tracee l syscall at_front
]

unfoldable pub register_chained_syscall : Memory → Tracee → ChainedSyscall → Tracee × Result ℕ
unfolding register_chained_syscall_internal
register_chained_syscall memory tracee syscall =
    register_chained_syscall_internal memory tracee syscall false

-- No more chained system calls: the list is freed and the result forced.
abbrev pub finish_chain : Tracee → Tracee
finish_chain tracee =
    let freed = with_syscalls tracee none in
    let forced =
      if tracee.chain.force_final_result
      then poke_reg freed sysarg_result tracee.chain.final_result
      else freed in
    record forced { chain = record forced.chain { force_final_result = false; final_result = 0 } }

-- The next system call is put into the registers, and the trap is run again.
abbrev pub forge : (Abi → List ℕ) → Tracee → ChainedSyscall → List ChainedSyscall → Tracee
forge table tracee syscall rest =
    let t0 = record (with_syscalls tracee (some rest)) { restore_original_regs = false } in
    let t1 = poke_reg t0 sysarg_1 syscall.arg_1 in
    let t2 = poke_reg t1 sysarg_2 syscall.arg_2 in
    let t3 = poke_reg t2 sysarg_3 syscall.arg_3 in
    let t4 = poke_reg t3 sysarg_4 syscall.arg_4 in
    let t5 = poke_reg t4 sysarg_5 syscall.arg_5 in
    let t6 = poke_reg t5 sysarg_6 syscall.arg_6 in
    let t7 = poke_reg t6 sysarg_result (detranslate_sysnum table (get_abi t6) syscall.sysnum) in
    let ip = peek_reg t7 current instr_pointer in
    record (poke_reg t7 instr_pointer ((ip + word_modulus - systrap_size) % word_modulus)) {
      restart_how = ptrace_syscall;
    }

-- `none` is the failure of the assertion.
unfoldable pub chain_next_syscall : (Abi → List ℕ) → Tracee → Option Tracee
chain_next_syscall table tracee = elim tracee.chain.syscalls [
  | none ↦ none
  | some l ↦ elim l [
    | [] ↦ some (finish_chain tracee)
    | syscall ∷ rest ↦ some (forge table tracee syscall rest)
  ]
]

unfoldable pub force_chain_final_result : Tracee → ℕ → Tracee
force_chain_final_result tracee forced_result = record tracee {
  chain = record tracee.chain { force_final_result = true; final_result = forced_result };
}

-- A system call that the registers of a version hold; `none` where its number cannot be read.
abbrev pub saved_syscall : (Abi → List ℕ) → Tracee → RegVersion → Option ChainedSyscall
saved_syscall table tracee version = elim (get_sysnum table tracee version) [
  | none ↦ none
  | some n ↦ some (record {
    sysnum = n;
    arg_1 = peek_reg tracee version sysarg_1;
    arg_2 = peek_reg tracee version sysarg_2;
    arg_3 = peek_reg tracee version sysarg_3;
    arg_4 = peek_reg tracee version sysarg_4;
    arg_5 = peek_reg tracee version sysarg_5;
    arg_6 = peek_reg tracee version sysarg_6;
  })
]

unfoldable pub restart_original_syscall :
    (Abi → List ℕ) → Memory → Tracee → Option (Tracee × Result ℕ)
restart_original_syscall table memory tracee = elim (saved_syscall table tracee original) [
  | none ↦ none
  | some s ↦ some (register_chained_syscall memory tracee s)
]

unfoldable pub restart_current_syscall_as_chained :
    (Abi → List ℕ) → Memory → Tracee → Option (Tracee × Result ℕ)
restart_current_syscall_as_chained table memory tracee = elim tracee.chain.sysnum_workaround_state [
  | workaround_process_faulty_call ↦ none
  | workaround_process_replaced_call ↦ none
  | workaround_inactive ↦ elim (saved_syscall table tracee current) [
    | none ↦ none
    | some s ↦ some (
        register_chained_syscall_internal memory
          (record tracee {
            chain = record tracee.chain {
              sysnum_workaround_state = workaround_process_faulty_call;
            };
          })
          s true)
  ]
]
