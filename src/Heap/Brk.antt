-- ===== src/Heap/Brk.antt =====
-- What brk(2) does under PRoot, from `translate_brk_enter` to `translate_brk_exit` of
-- src/syscall/heap.c.
use proot.Prelude.{
  ℕ, ◌+◌, ◌-◌, ◌%◌, ◌<◌, ◌≤◌, ◌≡◌, ◌≢◌, refl, ap, sym, ◌∙◌, true, false, not, Option, none, some,
  List, [], ◌∷◌, ltb, ◌==◌, arith,
}
use proot.Tracee.{
  Abi, Tracee, Reg, Heap, current, modified, get_abi, peek_reg, poke_reg, is_32on64_mode, write,
  rax, place, sysarg_num, sysarg_1, sysarg_2, sysarg_3, sysarg_4, sysarg_5, sysarg_result,
  word_modulus, save_current_regs,
}
use proot.Tracee.Registers.{poke_all-mode, peek_reg-poke_all, peek_reg-poke_reg}
use proot.Sysnum.{detranslate_sysnum, get_sysnum, set_sysnum, pr_mremap}
use proot.Sysnum.Translate.{Occurs, translate_sysnum-detranslate_sysnum}
use proot.Heap.{
  is_error, resize, exit_brk, translate_brk_enter, translate_brk_exit, with_heap, brk_address,
}

-- The kernel runs the system call in the registers, which PRoot saves, and returns `result`.
unfoldable pub run_syscall : ℕ → Tracee → Tracee
run_syscall result tracee = record (save_current_regs tracee modified) {
  current_regs = write tracee.current_regs rax result;
}

-- One brk(2) of the tracee: the entry, the system call that replaces it, and the exit.
unfoldable pub brk_syscall : (Abi → List ℕ) → ℕ → ℕ → ℕ → Tracee → Option Tracee
brk_syscall table page_size heap_offset result tracee =
    let entered = translate_brk_enter table page_size heap_offset tracee in
    elim entered.1 [
      | none ↦ none
      | some t ↦ translate_brk_exit table entered.0 (run_syscall result t)
    ]

run_syscall-mode :
    (result : ℕ) (t : Tracee) → is_32on64_mode (run_syscall result t) ≡ is_32on64_mode t
unfolding run_syscall is_32on64_mode write save_current_regs
run_syscall-mode result t = refl

run_syscall-result :
    (result : ℕ) (t : Tracee)
    → is_32on64_mode t ≡ false
    → peek_reg (run_syscall result t) current sysarg_result ≡ result
unfolding run_syscall peek_reg write save_current_regs place is_32on64_mode
run_syscall-result result t wide = ground arith

run_syscall-modified :
    (result : ℕ) (t : Tracee) (r : Reg)
    → peek_reg (run_syscall result t) modified r ≡ peek_reg t current r
unfolding run_syscall peek_reg write save_current_regs is_32on64_mode
run_syscall-modified result t r = refl

run_syscall-abi : (result : ℕ) (t : Tracee) → get_abi (run_syscall result t) ≡ get_abi t
unfolding run_syscall get_abi save_current_regs
run_syscall-abi result t = refl

module _ (table : Abi → List ℕ) (heap_offset : ℕ) (tracee : Tracee) (new_brk : ℕ)
    (wide : is_32on64_mode tracee ≡ false) where
  resize_pokes : List (Reg × ℕ)
  resize_pokes =
      (sysarg_num, detranslate_sysnum table (get_abi tracee) pr_mremap)
      ∷ (sysarg_1, (tracee.heap.base + word_modulus - heap_offset) % word_modulus)
      ∷ (sysarg_2, (tracee.heap.size + heap_offset) % word_modulus)
      ∷ (sysarg_3, (new_brk - tracee.heap.base + heap_offset) % word_modulus)
      ∷ (sysarg_4, 0)
      ∷ (sysarg_5, 0)
      ∷ []

  resize_lem :
      (peek_reg (resize table heap_offset tracee new_brk) current sysarg_num
        ≡ detranslate_sysnum table (get_abi tracee) pr_mremap)
      × (peek_reg (resize table heap_offset tracee new_brk) current sysarg_3
          ≡ (new_brk - tracee.heap.base + heap_offset) % word_modulus)
      × (is_32on64_mode (resize table heap_offset tracee new_brk) ≡ false)
  unfolding resize_pokes set_sysnum
  resize_lem = (
    peek_reg-poke_all resize_pokes tracee sysarg_num wide,
    peek_reg-poke_all resize_pokes tracee sysarg_3 wide,
    poke_all-mode resize_pokes tracee ∙ wide,
  )

  resize-same :
      ((resize table heap_offset tracee new_brk).heap ≡ tracee.heap)
      × (get_abi (resize table heap_offset tracee new_brk) ≡ get_abi tracee)
  unfolding set_sysnum poke_reg get_abi
  resize-same = (refl, refl)

exit_brk-resized :
    (table : Abi → List ℕ) (heap_offset : ℕ) (u : Tracee)
    → is_error (peek_reg u current sysarg_result) ≡ false
    → u.heap.base ≡ (peek_reg u current sysarg_result + heap_offset) % word_modulus
    → exit_brk table heap_offset u pr_mremap
      ≡ some (
          with_heap table u (record u.heap {
            size = (peek_reg u modified sysarg_3 + word_modulus - heap_offset) % word_modulus;
          }))
unfolding exit_brk
exit_brk-resized table heap_offset u ok_result same =
    let b : not (u.heap.base == (peek_reg u current sysarg_result + heap_offset) % word_modulus)
        ≡ false =
      ground (arith, same) in
    rw (ok_result, b) refl

translate_brk_exit-resized :
    (table : Abi → List ℕ) (heap_offset : ℕ) (u : Tracee)
    → u.heap.disabled ≡ false
    → heap_offset ≢ 0
    → get_sysnum table u modified ≡ some pr_mremap
    → translate_brk_exit table heap_offset u ≡ exit_brk table heap_offset u pr_mremap
unfolding translate_brk_exit
translate_brk_exit-resized table heap_offset u d ne n =
    let z : heap_offset == 0 ≡ false = ground arith in simp (d, z, n)

translate_brk_enter-resized :
    (table : Abi → List ℕ) (page_size heap_offset : ℕ) (tracee : Tracee)
    → tracee.heap.disabled ≡ false
    → heap_offset ≢ 0
    → tracee.heap.base ≢ 0
    → tracee.heap.base ≤ peek_reg tracee current sysarg_1
    → translate_brk_enter table page_size heap_offset tracee
      ≡ (heap_offset, some (resize table heap_offset tracee (peek_reg tracee current sysarg_1)))
unfolding translate_brk_enter
translate_brk_enter-resized table page_size heap_offset tracee d ne some_base above =
    let z : heap_offset == 0 ≡ false = ground arith in
    let b : tracee.heap.base == 0 ≡ false = ground arith in
    let l : ltb (peek_reg tracee current sysarg_1) tracee.heap.base ≡ false = ground arith in
    simp (d, z, b, l)

is_32on64_mode-with_heap :
    (u : Tracee) (h : Heap) → is_32on64_mode (record u { heap = h }) ≡ is_32on64_mode u
unfolding is_32on64_mode
is_32on64_mode-with_heap u h = refl

run_syscall-heap : (result : ℕ) (t : Tracee) → (run_syscall result t).heap ≡ t.heap
unfolding run_syscall save_current_regs
run_syscall-heap result t = refl

with_heap-heap : (table : Abi → List ℕ) (u : Tracee) (h : Heap) → (with_heap table u h).heap ≡ h
unfolding poke_reg
with_heap-heap table u h = refl

peek_reg-with_heap :
    (table : Abi → List ℕ) (u : Tracee) (h : Heap)
    → is_32on64_mode u ≡ false
    → peek_reg (with_heap table u h) current sysarg_result ≡ brk_address table h
peek_reg-with_heap table u h wide =
    let m : is_32on64_mode (record u { heap = h }) ≡ false = is_32on64_mode-with_heap u h ∙ wide in
    peek_reg-poke_reg (record u { heap = h }) sysarg_result (brk_address table h) ∙ (rw (m) refl)

get_sysnum-of :
    (table : Abi → List ℕ) (u : Tracee) {abi : Abi}
    → get_abi u ≡ abi
    → peek_reg u modified sysarg_num ≡ detranslate_sysnum table abi pr_mremap
    → Occurs pr_mremap (table abi)
    → get_sysnum table u modified ≡ some pr_mremap
unfolding get_sysnum
get_sysnum-of table u {abi} a e occurs =
    rw (a, e) (translate_sysnum-detranslate_sysnum table abi pr_mremap (omega arith) occurs)

brk_syscall-entered :
    (table : Abi → List ℕ) (page_size heap_offset result : ℕ) (tracee : Tracee) {t : Tracee}
    → translate_brk_enter table page_size heap_offset tracee ≡ (heap_offset, some t)
    → brk_syscall table page_size heap_offset result tracee
      ≡ translate_brk_exit table heap_offset (run_syscall result t)
unfolding brk_syscall
brk_syscall-entered table page_size heap_offset result tracee e =
    ap
      (λ (p : ℕ × Option Tracee). elim p.1 [
        | none ↦ none
        | some t ↦ translate_brk_exit table p.0 (run_syscall result t)
      ])
      e

whole : {x new : ℕ} (more : ℕ) → x ≡ new → new + more < word_modulus → x % word_modulus ≡ new
whole more e fits = omega arith

grown :
    {size : ℕ} (new heap_offset base : ℕ)
    → size ≡ (new - base + heap_offset) % word_modulus
    → base ≤ new
    → new + heap_offset < word_modulus
    → (size + word_modulus - heap_offset) % word_modulus ≡ new - base
grown new heap_offset base e above fits = omega arith

-- For a 64-bit tracee with an emulated heap, brk(2) with an address from the base of the heap on
-- returns that address and makes the heap end there, if mremap(2) resizes the mapping in place.
pub brk_syscall-resized :
    (table : Abi → List ℕ) (page_size heap_offset result : ℕ) (tracee : Tracee)
    → is_32on64_mode tracee ≡ false
    → Occurs pr_mremap (table (get_abi tracee))
    → tracee.heap.disabled ≡ false
    → heap_offset ≢ 0
    → tracee.heap.base ≢ 0
    → tracee.heap.base ≤ peek_reg tracee current sysarg_1
    → peek_reg tracee current sysarg_1 + heap_offset < word_modulus
    → is_error result ≡ false
    → tracee.heap.base ≡ (result + heap_offset) % word_modulus
    → (after : Tracee) × (brk_syscall table page_size heap_offset result tracee ≡ some after)
      × (after.heap.base ≡ tracee.heap.base)
      × (after.heap.base + after.heap.size ≡ peek_reg tracee current sysarg_1)
      × (peek_reg after current sysarg_result ≡ peek_reg tracee current sysarg_1)
brk_syscall-resized table page_size heap_offset result tracee wide occurs d ne some_base above fits
      fine in_place =
    let new = peek_reg tracee current sysarg_1 in
    let t = resize table heap_offset tracee new in
    let u = run_syscall result t in
    let e = translate_brk_enter-resized table page_size heap_offset tracee d ne some_base above in
    let r = resize_lem table heap_offset tracee new wide in
    let same = resize-same table heap_offset tracee new wide in
    let h = run_syscall-heap result t ∙ same.0 in
    let res = run_syscall-result result t r.2 in
    let number : get_sysnum table u modified ≡ some pr_mremap =
      get_sysnum-of table u (run_syscall-abi result t ∙ same.1)
        (run_syscall-modified result t sysarg_num ∙ r.0) occurs in
    let m3 = run_syscall-modified result t sysarg_3 ∙ r.1 in
    let x =
      translate_brk_exit-resized table heap_offset u (ap (λ (k : Heap). k.disabled) h ∙ d) ne
        number in
    let y = exit_brk-resized table heap_offset u (ap is_error res ∙ fine) (
      ap (λ (k : Heap). k.base) h
      ∙ in_place
      ∙ ap (λ v. (v + heap_offset) % word_modulus) (sym res)) in
    let bigger : Heap = record u.heap {
      size = (peek_reg u modified sysarg_3 + word_modulus - heap_offset) % word_modulus;
    } in
    let base_same : u.heap.base ≡ tracee.heap.base = ap (λ (k : Heap). k.base) h in
    let kept = with_heap-heap table u bigger in
    let size_is : bigger.size ≡ new - tracee.heap.base =
      grown new heap_offset tracee.heap.base m3 above fits in
    let sum : bigger.base + bigger.size ≡ new = omega (arith, base_same, size_is, above) in
    (
      with_heap table u bigger,
      brk_syscall-entered table page_size heap_offset result tracee e ∙ x ∙ y,
      ap (λ (k : Heap). k.base) kept ∙ base_same,
      ap (λ (k : Heap). k.base + k.size) kept ∙ sum,
      peek_reg-with_heap table u bigger (run_syscall-mode result t ∙ r.2)
          ∙ whole heap_offset sum fits,
    )

exit_brk-refused :
    (table : Abi → List ℕ) (heap_offset : ℕ) (u : Tracee)
    → is_error (peek_reg u current sysarg_result) ≡ true
    → exit_brk table heap_offset u pr_mremap ≡ some (with_heap table u u.heap)
unfolding exit_brk
exit_brk-refused table heap_offset u e = rw (e) refl

-- If mremap(2) fails, brk(2) of a 64-bit tracee leaves the heap and returns its old end.
pub brk_syscall-refused :
    (table : Abi → List ℕ) (page_size heap_offset result : ℕ) (tracee : Tracee)
    → is_32on64_mode tracee ≡ false
    → Occurs pr_mremap (table (get_abi tracee))
    → tracee.heap.disabled ≡ false
    → heap_offset ≢ 0
    → tracee.heap.base ≢ 0
    → tracee.heap.base ≤ peek_reg tracee current sysarg_1
    → is_error result ≡ true
    → (after : Tracee) × (brk_syscall table page_size heap_offset result tracee ≡ some after)
      × (after.heap ≡ tracee.heap)
      × (peek_reg after current sysarg_result
          ≡ (tracee.heap.base + tracee.heap.size) % word_modulus)
brk_syscall-refused table page_size heap_offset result tracee wide occurs d ne some_base above
      fails =
    let new = peek_reg tracee current sysarg_1 in
    let t = resize table heap_offset tracee new in
    let u = run_syscall result t in
    let e = translate_brk_enter-resized table page_size heap_offset tracee d ne some_base above in
    let r = resize_lem table heap_offset tracee new wide in
    let same = resize-same table heap_offset tracee new wide in
    let h = run_syscall-heap result t ∙ same.0 in
    let res = run_syscall-result result t r.2 in
    let number : get_sysnum table u modified ≡ some pr_mremap =
      get_sysnum-of table u (run_syscall-abi result t ∙ same.1)
        (run_syscall-modified result t sysarg_num ∙ r.0) occurs in
    let x =
      translate_brk_exit-resized table heap_offset u (ap (λ (k : Heap). k.disabled) h ∙ d) ne
        number in
    let y = exit_brk-refused table heap_offset u (ap is_error res ∙ fails) in
    (
      with_heap table u u.heap,
      brk_syscall-entered table page_size heap_offset result tracee e ∙ x ∙ y,
      with_heap-heap table u u.heap ∙ h,
      peek_reg-with_heap table u u.heap (run_syscall-mode result t ∙ r.2)
          ∙ ap (brk_address table) h,
    )
