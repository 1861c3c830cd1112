-- ===== src/Examples/Registers.antt =====
-- Concrete inputs for the theorems on src/tracee/reg.c, src/syscall/sysnum.c, src/syscall/chain.c
-- and src/syscall/heap.c.
use proot.Prelude.{
  ℕ, ◌+◌, ◌≡◌, ◌≢◌, ◌↔◌, refl, inl, inr, true, false, none, some, List, [], ◌∷◌, length, arith,
  if◌then◌else◌, ◌==◌,
}
use proot.Tracee.{
  Abi, abi_default, Tracee, ChainedSyscall, workaround_inactive, ptrace_cont, current, peek_reg,
  place, get_abi, is_32on64_mode, sysarg_1, sysarg_2, sysarg_result, rdi,
}
use proot.Sysnum.{translate_sysnum, detranslate_sysnum, pr_mremap, pr_brk}
use proot.Sysnum.Translate.{translate_sysnum-detranslate_sysnum, translate_sysnum-out_of_bounds}
use proot.Chain.Fifo.{drain, register_all, wanted_all, register_chained_syscall-fifo}
use proot.Heap.Brk.{brk_syscall, brk_syscall-resized}

-- Two system calls per ABI, at 0 and at 1.
abbrev table : Abi → List ℕ
table _ = pr_brk ∷ pr_mremap ∷ []

-- A 64-bit tracee that calls brk(0x5400), with a heap from 0x4000 to 0x5000.
abbrev tracee : Tracee
tracee = record {
  current_regs = λ i. if i == rdi then 0x5400 else 0;
  original_regs = λ _. 0;
  modified_regs = λ _. 0;
  seccomp_regs = λ _. 0;
  regs_were_changed = false;
  restore_original_regs = true;
  restart_how = ptrace_cont;
  chain = record {
    syscalls = none;
    force_final_result = false;
    final_result = 0;
    sysnum_workaround_state = workaround_inactive;
  };
  heap = record { base = 0x4000; size = 0x1000; disabled = false };
  mappings = [];
}

wide : is_32on64_mode tracee ≡ false
unfolding is_32on64_mode
wide = refl

elsewhere : place tracee.current_regs sysarg_1 ≢ place tracee.current_regs sysarg_2
unfolding place
elsewhere = omega arith

detranslate_example :
    translate_sysnum table abi_default (detranslate_sysnum table abi_default pr_mremap)
    ≡ some pr_mremap
detranslate_example =
    translate_sysnum-detranslate_sysnum table abi_default pr_mremap (omega arith) (inr (inl refl))

out_of_bounds_example : translate_sysnum table abi_default 2 ≡ none ↔ 2 ≡ length (table abi_default)
out_of_bounds_example = translate_sysnum-out_of_bounds table abi_default 2

abbrev first_call : ChainedSyscall
first_call = record {
  sysnum = pr_brk;
  arg_1 = 1;
  arg_2 = 2;
  arg_3 = 3;
  arg_4 = 4;
  arg_5 = 5;
  arg_6 = 6;
}

abbrev second_call : ChainedSyscall
second_call = record first_call { sysnum = pr_mremap }

fifo_example :
    drain table 2 (register_all (first_call ∷ second_call ∷ []) tracee)
    ≡ wanted_all table (get_abi tracee) (first_call ∷ second_call ∷ [])
fifo_example = register_chained_syscall-fifo table tracee first_call (second_call ∷ []) wide refl

abbrev last_tracee : Tracee
last_tracee = record tracee { chain = record tracee.chain { syscalls = some [] } }

wide_last : is_32on64_mode last_tracee ≡ false
unfolding is_32on64_mode
wide_last = refl

wanted_brk : peek_reg tracee current sysarg_1 ≡ 0x5400
unfolding peek_reg place is_32on64_mode
wanted_brk = refl

brk_example :
    (after : Tracee) × (brk_syscall table 0x1000 0x1000 0x3000 tracee ≡ some after)
    × (after.heap.base ≡ 0x4000)
    × (after.heap.base + after.heap.size ≡ peek_reg tracee current sysarg_1)
    × (peek_reg after current sysarg_result ≡ peek_reg tracee current sysarg_1)
brk_example =
    brk_syscall-resized table 0x1000 0x1000 0x3000 tracee wide (inr (inl refl)) refl (omega arith)
      (omega arith) (omega (arith, wanted_brk)) (omega (arith, wanted_brk)) refl refl
