-- ===== src/Chain/Fifo.antt =====
-- The order in which chained system calls run: `register_chained_syscall` and
-- `chain_next_syscall` of src/syscall/chain.c.
use proot.Prelude.{
  ℕ, zero, suc, ◌+◌, ◌-◌, ◌%◌, ◌≡◌, refl, ap, sym, ◌∙◌, true, false, Option, none, some, List, [],
  ◌∷◌, ◌++◌, length, arith, ok,
}
use mathlib.Core.List.{append-nil, append_assoc}
use proot.Tracee.{
  Abi, Tracee, Reg, ChainedSyscall, SyscallChain, current, get_abi, peek_reg, poke_reg,
  is_32on64_mode, sysarg_1, sysarg_2, sysarg_3, sysarg_4, sysarg_5, sysarg_6, sysarg_result,
  instr_pointer, ptrace_syscall, word_modulus,
}
use proot.Tracee.Registers.{
  poke_all, last_poke, peek_reg-poke_all, peek_reg-poke_reg, poke_all-mode,
}
use proot.Sysnum.{detranslate_sysnum}
use proot.Chain.{
  systrap_size, Memory, with_syscalls, forge, finish_chain, register_chained_syscall,
  chain_next_syscall, force_chain_final_result,
}

-- The system call that stands in the registers, its number as the kernel reads it.
pub seen : Tracee → ChainedSyscall
seen tracee = record {
  sysnum = peek_reg tracee current sysarg_result;
  arg_1 = peek_reg tracee current sysarg_1;
  arg_2 = peek_reg tracee current sysarg_2;
  arg_3 = peek_reg tracee current sysarg_3;
  arg_4 = peek_reg tracee current sysarg_4;
  arg_5 = peek_reg tracee current sysarg_5;
  arg_6 = peek_reg tracee current sysarg_6;
}

get_abi-poke_reg :
    (tracee : Tracee) (r : Reg) (v : ℕ) → get_abi (poke_reg tracee r v) ≡ get_abi tracee
unfolding get_abi poke_reg
get_abi-poke_reg tracee r v = refl

get_abi-poke_all :
    (pokes : List (Reg × ℕ)) (tracee : Tracee) → get_abi (poke_all tracee pokes) ≡ get_abi tracee
get_abi-poke_all [] tracee = refl
get_abi-poke_all ((r, v) ∷ pokes) tracee =
    get_abi-poke_all pokes (poke_reg tracee r v) ∙ get_abi-poke_reg tracee r v

peek_reg-restarted :
    (tracee : Tracee) (r : Reg)
    → peek_reg (record tracee { restart_how = ptrace_syscall }) current r
      ≡ peek_reg tracee current r
unfolding peek_reg is_32on64_mode
peek_reg-restarted tracee r = refl

is_32on64_mode-restarted :
    (tracee : Tracee)
    → is_32on64_mode (record tracee { restart_how = ptrace_syscall }) ≡ is_32on64_mode tracee
unfolding is_32on64_mode
is_32on64_mode-restarted tracee = refl

is_32on64_mode-chained :
    (tracee : Tracee) (l : List ChainedSyscall)
    → is_32on64_mode (record (with_syscalls tracee (some l)) { restore_original_regs = false })
      ≡ is_32on64_mode tracee
unfolding is_32on64_mode
is_32on64_mode-chained tracee l = refl

peek_reg-chained :
    (tracee : Tracee) (l : List ChainedSyscall) (r : Reg)
    → peek_reg (record (with_syscalls tracee (some l)) { restore_original_regs = false }) current r
      ≡ peek_reg tracee current r
unfolding peek_reg is_32on64_mode
peek_reg-chained tracee l r = refl

get_abi-chained :
    (tracee : Tracee) (l : List ChainedSyscall)
    → get_abi (record (with_syscalls tracee (some l)) { restore_original_regs = false })
      ≡ get_abi tracee
unfolding get_abi
get_abi-chained tracee l = refl

arguments : ChainedSyscall → List (Reg × ℕ)
arguments c =
    (sysarg_1, c.arg_1)
    ∷ (sysarg_2, c.arg_2)
    ∷ (sysarg_3, c.arg_3)
    ∷ (sysarg_4, c.arg_4)
    ∷ (sysarg_5, c.arg_5)
    ∷ (sysarg_6, c.arg_6)
    ∷ []

same_syscall :
    (a b : ChainedSyscall)
    → a.sysnum ≡ b.sysnum
    → a.arg_1 ≡ b.arg_1
    → a.arg_2 ≡ b.arg_2
    → a.arg_3 ≡ b.arg_3
    → a.arg_4 ≡ b.arg_4
    → a.arg_5 ≡ b.arg_5
    → a.arg_6 ≡ b.arg_6
    → a ≡ b
same_syscall a b n p q r s t u = ground arith

module _ (table : Abi → List ℕ) where
  -- A system call with the number that the kernel knows it by.
  abbrev pub wanted : Abi → ChainedSyscall → ChainedSyscall
  wanted abi c = record c { sysnum = detranslate_sysnum table abi c.sysnum }

  abbrev pub wanted_all : Abi → List ChainedSyscall → List ChainedSyscall
  wanted_all abi [] = []
  wanted_all abi (c ∷ l) = wanted abi c ∷ wanted_all abi l

  -- The system calls that `n` rounds of `chain_next_syscall` put into the registers.
  unfoldable pub drain : ℕ → Tracee → List ChainedSyscall
  drain zero tracee = []
  drain (suc n) tracee = elim (chain_next_syscall table tracee) [
    | none ↦ []
    | some next ↦ seen next ∷ drain n next
  ]

  -- The registers that a chained system call is put into, and where the trap is.
  issue : ChainedSyscall → ℕ → ℕ → List (Reg × ℕ)
  issue c n ip = (sysarg_result, n) ∷ (instr_pointer, ip) ∷ []

  peek_reg-forge :
      (tracee : Tracee) (c : ChainedSyscall) (rest : List ChainedSyscall) (r : Reg)
      → is_32on64_mode tracee ≡ false
      → (ip : ℕ) × (peek_reg (forge table tracee c rest) current r
          ≡ last_poke
              (arguments c ++ issue c (detranslate_sysnum table (get_abi tracee) c.sysnum) ip)
              r
              (peek_reg tracee current r))
  unfolding arguments issue
  peek_reg-forge tracee c rest r wide =
      let t0 = record (with_syscalls tracee (some rest)) { restore_original_regs = false } in
      let t6 = poke_all t0 (arguments c) in
      let n = detranslate_sysnum table (get_abi t6) c.sysnum in
      let t7 = poke_reg t6 sysarg_result n in
      let ip = (peek_reg t7 current instr_pointer + word_modulus - systrap_size) % word_modulus in
      let pokes = arguments c ++ issue c n ip in
      let abi = get_abi-poke_all (arguments c) t0 ∙ get_abi-chained tracee rest in
      (
        ip,
        peek_reg-restarted (poke_all t0 pokes) r
            ∙ peek_reg-poke_all pokes t0 r (is_32on64_mode-chained tracee rest ∙ wide)
            ∙ ap (last_poke pokes r) (peek_reg-chained tracee rest r)
            ∙ ap
                (λ a.
                  last_poke (arguments c ++ issue c (detranslate_sysnum table a c.sysnum) ip) r
                    (peek_reg tracee current r))
                abi,
      )

  seen-forge :
      (tracee : Tracee) (c : ChainedSyscall) (rest : List ChainedSyscall)
      → is_32on64_mode tracee ≡ false
      → seen (forge table tracee c rest) ≡ wanted (get_abi tracee) c
  unfolding seen arguments issue
  seen-forge tracee c rest wide =
      let f = λ (r : Reg). (peek_reg-forge tracee c rest r wide).1 in
      same_syscall (seen (forge table tracee c rest)) (wanted (get_abi tracee) c) (f sysarg_result)
        (f sysarg_1) (f sysarg_2) (f sysarg_3) (f sysarg_4) (f sysarg_5) (f sysarg_6)

  chain_next_syscall-forge :
      (tracee : Tracee) (c : ChainedSyscall) (rest : List ChainedSyscall)
      → tracee.chain.syscalls ≡ some (c ∷ rest)
      → chain_next_syscall table tracee ≡ some (forge table tracee c rest)
  unfolding chain_next_syscall
  chain_next_syscall-forge tracee c rest h =
      ap
        (λ (o : Option (List ChainedSyscall)). elim o [
          | none ↦ none
          | some l ↦ elim l [
            | [] ↦ some (finish_chain tracee)
            | syscall ∷ more ↦ some (forge table tracee syscall more)
          ]
        ])
        h

  forge-mode :
      (tracee : Tracee) (c : ChainedSyscall) (rest : List ChainedSyscall)
      → is_32on64_mode tracee ≡ false
      → is_32on64_mode (forge table tracee c rest) ≡ false
  unfolding arguments issue
  forge-mode tracee c rest wide =
      let t0 = record (with_syscalls tracee (some rest)) { restore_original_regs = false } in
      let t6 = poke_all t0 (arguments c) in
      let n = detranslate_sysnum table (get_abi t6) c.sysnum in
      let t7 = poke_reg t6 sysarg_result n in
      let ip = (peek_reg t7 current instr_pointer + word_modulus - systrap_size) % word_modulus in
      let pokes = arguments c ++ issue c n ip in
      is_32on64_mode-restarted (poke_all t0 pokes)
      ∙ poke_all-mode pokes t0
      ∙ is_32on64_mode-chained tracee rest
      ∙ wide

  forge-rest :
      (tracee : Tracee) (c : ChainedSyscall) (rest : List ChainedSyscall)
      → ((forge table tracee c rest).chain.syscalls ≡ some rest)
        × (get_abi (forge table tracee c rest) ≡ get_abi tracee)
  unfolding get_abi poke_reg
  forge-rest tracee c rest = (refl, refl)

  drain-chained :
      (l : List ChainedSyscall) (tracee : Tracee)
      → is_32on64_mode tracee ≡ false
      → tracee.chain.syscalls ≡ some l
      → drain (length l) tracee ≡ wanted_all (get_abi tracee) l
  unfolding drain
  drain-chained [] tracee wide h = refl
  drain-chained (c ∷ l) tracee wide h =
      let next = forge table tracee c l in
      let r = forge-rest tracee c l in
      let again = drain-chained l next (forge-mode tracee c l wide) r.0 in
      let head = seen-forge tracee c l wide in
      rw (chain_next_syscall-forge tracee c l h, drain)
        (ap (λ s. s ∷ drain (length l) next) head
          ∙ ap (λ s. wanted (get_abi tracee) c ∷ s) (again ∙ ap (λ a. wanted_all a l) r.1))

-- No allocation fails.
abbrev pub plenty : Memory
plenty = record { list_allocated = true; syscall_allocated = true }

-- Registers system calls one after the other.
unfoldable pub register_all : List ChainedSyscall → Tracee → Tracee
register_all [] tracee = tracee
register_all (c ∷ l) tracee = register_all l (register_chained_syscall plenty tracee c).0

register_chained_syscall-append :
    (tracee : Tracee) (c : ChainedSyscall) (l : List ChainedSyscall)
    → tracee.chain.syscalls ≡ some l
    → register_chained_syscall plenty tracee c ≡ (with_syscalls tracee (some (l ++ c ∷ [])), ok 0)
unfolding register_chained_syscall
register_chained_syscall-append tracee c l h =
    ap
      (λ (o : Option (List ChainedSyscall)). elim o [
        | none ↦ (with_syscalls tracee (some (c ∷ [])), ok 0)
        | some q ↦ (with_syscalls tracee (some (q ++ c ∷ [])), ok 0)
      ])
      h

register_chained_syscall-first :
    (tracee : Tracee) (c : ChainedSyscall)
    → tracee.chain.syscalls ≡ none
    → register_chained_syscall plenty tracee c ≡ (with_syscalls tracee (some (c ∷ [])), ok 0)
unfolding register_chained_syscall
register_chained_syscall-first tracee c h =
    ap
      (λ (o : Option (List ChainedSyscall)). elim o [
        | none ↦ (with_syscalls tracee (some (c ∷ [])), ok 0)
        | some q ↦ (with_syscalls tracee (some (q ++ c ∷ [])), ok 0)
      ])
      h

with_syscalls-same :
    (tracee : Tracee) (o : Option (List ChainedSyscall))
    → (is_32on64_mode (with_syscalls tracee o) ≡ is_32on64_mode tracee)
      × (get_abi (with_syscalls tracee o) ≡ get_abi tracee)
unfolding is_32on64_mode get_abi
with_syscalls-same tracee o = (refl, refl)

register_all_lem :
    (l q : List ChainedSyscall) (tracee : Tracee)
    → tracee.chain.syscalls ≡ some q
    → ((register_all l tracee).chain.syscalls ≡ some (q ++ l))
      × (is_32on64_mode (register_all l tracee) ≡ is_32on64_mode tracee)
      × (get_abi (register_all l tracee) ≡ get_abi tracee)
unfolding register_all
register_all_lem [] q tracee h = (h ∙ ap some (sym (append-nil q)), refl, refl)
register_all_lem (c ∷ l) q tracee h =
    let r = ap (λ p. p.0) (register_chained_syscall-append tracee c q h) in
    let next = with_syscalls tracee (some (q ++ c ∷ [])) in
    let w = with_syscalls-same tracee (some (q ++ c ∷ [])) in
    let again = register_all_lem l (q ++ c ∷ []) next refl in
    rw (r, register_all)
      (again.0 ∙ ap some (append_assoc q (c ∷ []) l), again.1 ∙ w.0, again.2 ∙ w.1)

-- System calls that are registered one after the other, for a 64-bit tracee without a chain and
-- with enough memory, are put into its registers in that order, with the numbers and the arguments
-- they were registered with.
pub register_chained_syscall-fifo :
    (table : Abi → List ℕ) (tracee : Tracee) (c : ChainedSyscall) (l : List ChainedSyscall)
    → is_32on64_mode tracee ≡ false
    → tracee.chain.syscalls ≡ none
    → drain table (length (c ∷ l)) (register_all (c ∷ l) tracee)
      ≡ wanted_all table (get_abi tracee) (c ∷ l)
unfolding register_all
register_chained_syscall-fifo table tracee c l wide h =
    let r = ap (λ p. p.0) (register_chained_syscall-first tracee c h) in
    let next = with_syscalls tracee (some (c ∷ [])) in
    let w = with_syscalls-same tracee (some (c ∷ [])) in
    let all = register_all_lem l (c ∷ []) next refl in
    let end = drain-chained table (c ∷ l) (register_all l next) (all.1 ∙ w.0 ∙ wide) all.0 in
    rw (r, register_all) (end ∙ ap (λ a. wanted_all table a (c ∷ l)) (all.2 ∙ w.1))

chain_next_syscall-finish_chain :
    (table : Abi → List ℕ) (tracee : Tracee)
    → tracee.chain.syscalls ≡ some []
    → chain_next_syscall table tracee ≡ some (finish_chain tracee)
unfolding chain_next_syscall
chain_next_syscall-finish_chain table tracee h =
    ap
      (λ (o : Option (List ChainedSyscall)). elim o [
        | none ↦ none
        | some l ↦ elim l [
          | [] ↦ some (finish_chain tracee)
          | syscall ∷ more ↦ some (forge table tracee syscall more)
        ]
      ])
      h

peek_reg-unchained :
    (tracee : Tracee) (c : SyscallChain) (r : Reg)
    → peek_reg (record tracee { chain = c }) current r ≡ peek_reg tracee current r
unfolding peek_reg is_32on64_mode
peek_reg-unchained tracee c r = refl

is_32on64_mode-unchained :
    (tracee : Tracee) (c : SyscallChain)
    → is_32on64_mode (record tracee { chain = c }) ≡ is_32on64_mode tracee
unfolding is_32on64_mode
is_32on64_mode-unchained tracee c = refl

-- Behind the last chained system call the chain is freed, the forcing is reset, and the result the
-- 64-bit tracee sees is the one that was forced.
pub chain_next_syscall-force_chain_final_result :
    (table : Abi → List ℕ) (tracee : Tracee) (result : ℕ)
    → is_32on64_mode tracee ≡ false
    → tracee.chain.syscalls ≡ some []
    → (next : Tracee) × (chain_next_syscall table (force_chain_final_result tracee result)
        ≡ some next)
      × (next.chain.syscalls ≡ none)
      × (next.chain.force_final_result ≡ false)
      × (peek_reg next current sysarg_result ≡ result)
unfolding force_chain_final_result poke_reg
chain_next_syscall-force_chain_final_result table tracee result wide h =
    let forced = force_chain_final_result tracee result in
    let freed = with_syscalls forced none in
    let m : is_32on64_mode freed ≡ false = is_32on64_mode-unchained tracee freed.chain ∙ wide in
    (
      finish_chain forced,
      chain_next_syscall-finish_chain table forced h,
      refl,
      refl,
      peek_reg-unchained (poke_reg freed sysarg_result result) (finish_chain forced).chain
            sysarg_result
          ∙ peek_reg-poke_reg freed sysarg_result result
          ∙ (rw (m) refl),
    )
