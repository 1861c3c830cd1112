-- ===== src/Tracee/Registers.antt =====
-- What a poke does to the later peeks: `peek_reg` and `poke_reg` of src/tracee/reg.c.
use proot.Prelude.{
  List, [], ◌∷◌, ℕ, ◌%◌, ◌^◌, ◌≡◌, ◌≢◌, refl, ap, sym, ◌∙◌, Bool, true, false, ◌==◌, if◌then◌else◌,
  arith, Bool-cases, inl, inr,
}
use proot.Tracee.{
  Tracee, Reg, RegisterBank, current, place, is_32on64_mode, peek_reg, poke_reg, write, cs, ds,
  reg_offset, reg_offset_x86, sysarg_num, sysarg_1, sysarg_2, sysarg_3, sysarg_4, sysarg_5,
  sysarg_6, sysarg_result, stack_pointer, instr_pointer, rtld_fini, state_flags, userarg_1,
}

-- No register that PRoot reads is a segment register.
offset-below :
    (r : Reg)
    → (reg_offset r ≢ cs) × (reg_offset r ≢ ds) × (reg_offset_x86 r ≢ cs) × (reg_offset_x86 r ≢ ds)
offset-below sysarg_num = omega arith
offset-below sysarg_1 = omega arith
offset-below sysarg_2 = omega arith
offset-below sysarg_3 = omega arith
offset-below sysarg_4 = omega arith
offset-below sysarg_5 = omega arith
offset-below sysarg_6 = omega arith
offset-below sysarg_result = omega arith
offset-below stack_pointer = omega arith
offset-below instr_pointer = omega arith
offset-below rtld_fini = omega arith
offset-below state_flags = omega arith
offset-below userarg_1 = omega arith

place-not_segment : (b : RegisterBank) (r : Reg) → (place b r ≢ cs) × (place b r ≢ ds)
unfolding place
place-not_segment b r =
    let h = offset-below r in split (reg_offset r) (reg_offset_x86 r) (b cs == 0x23) h
  where
    split :
        (x y : ℕ) (c : Bool)
        → (x ≢ cs) × (x ≢ ds) × (y ≢ cs) × (y ≢ ds)
        → ((if c then y else x) ≢ cs) × ((if c then y else x) ≢ ds)
    split x y true h = (h.2, h.3)
    split x y false h = (h.0, h.1)

write-same : (b : RegisterBank) (at v : ℕ) → write b at v at ≡ v
unfolding write
write-same b at v = ground arith

write-other : (b : RegisterBank) (at v i : ℕ) → i ≢ at → write b at v i ≡ b i
unfolding write
write-other b at v i ne = ground arith

-- A poke leaves every word but that of its register.
pub poke_reg-other :
    (tracee : Tracee) (r : Reg) (v i : ℕ)
    → i ≢ place tracee.current_regs r
    → (poke_reg tracee r v).current_regs i ≡ tracee.current_regs i
unfolding poke_reg
poke_reg-other tracee r v i ne = elim (Bool-cases (peek_reg tracee current r == v)) [
  | inl e ↦ rw (e) refl
  | inr e ↦ rw (e) (write-other tracee.current_regs (place tracee.current_regs r) v i ne)
]

pub poke_reg-mode :
    (tracee : Tracee) (r : Reg) (v : ℕ)
    → is_32on64_mode (poke_reg tracee r v) ≡ is_32on64_mode tracee
unfolding is_32on64_mode
poke_reg-mode tracee r v =
    let p = place-not_segment tracee.current_regs r in
    let c = poke_reg-other tracee r v cs (λ e. p.0 (sym e)) in
    let d = poke_reg-other tracee r v ds (λ e. p.1 (sym e)) in rw (c, d) refl

pub poke_reg-place :
    (tracee : Tracee) (r s : Reg) (v : ℕ)
    → place (poke_reg tracee r v).current_regs s ≡ place tracee.current_regs s
unfolding place
poke_reg-place tracee r s v =
    let p = place-not_segment tracee.current_regs r in
    let c = poke_reg-other tracee r v cs (λ e. p.0 (sym e)) in rw (c) refl

settle-word :
    (m same : Bool) (x v : ℕ)
    → (if m then x % 2 ^ 32 else x) == v ≡ same
    → (if m then (if same then x else v) % 2 ^ 32 else (if same then x else v))
      ≡ (if m then v % 2 ^ 32 else v)
settle-word true true x v h = ground arith
settle-word true false x v h = refl
settle-word false true x v h = ground arith
settle-word false false x v h = refl

poke_reg_self :
    (tracee : Tracee) (r : Reg) (v : ℕ)
    → (poke_reg tracee r v).current_regs (place tracee.current_regs r) ≡ (
        if peek_reg tracee current r == v
        then tracee.current_regs (place tracee.current_regs r)
        else v)
unfolding poke_reg
poke_reg_self tracee r v = elim (Bool-cases (peek_reg tracee current r == v)) [
  | inl e ↦ rw (e) refl
  | inr e ↦ rw (e) (write-same tracee.current_regs (place tracee.current_regs r) v)
]

-- After a poke the peek of that register gives the value, cut to 32 bits in a 32-bit process.
pub peek_reg-poke_reg :
    (tracee : Tracee) (r : Reg) (v : ℕ)
    → peek_reg (poke_reg tracee r v) current r ≡ (if is_32on64_mode tracee then v % 2 ^ 32 else v)
unfolding peek_reg
peek_reg-poke_reg tracee r v =
    let m = poke_reg-mode tracee r v in
    let q = poke_reg-place tracee r r v in
    let o = poke_reg_self tracee r v in
    rw (m, q, o)
      (settle-word (is_32on64_mode tracee) (peek_reg tracee current r == v)
        (tracee.current_regs (place tracee.current_regs r)) v refl)

-- After a poke the peek of a register that lies elsewhere gives what it gave before.
pub peek_reg-poke_reg_other :
    (tracee : Tracee) (r s : Reg) (v : ℕ)
    → place tracee.current_regs s ≢ place tracee.current_regs r
    → peek_reg (poke_reg tracee r v) current s ≡ peek_reg tracee current s
unfolding peek_reg
peek_reg-poke_reg_other tracee r s v ne =
    let m = poke_reg-mode tracee r v in
    let q = poke_reg-place tracee r s v in
    let o = poke_reg-other tracee r v (place tracee.current_regs s) ne in rw (m, q, o) refl

-- Several pokes, the first in front.
abbrev pub poke_all : Tracee → List (Reg × ℕ) → Tracee
poke_all tracee [] = tracee
poke_all tracee ((r, v) ∷ pokes) = poke_all (poke_reg tracee r v) pokes

-- What the last of several pokes on the place of `s` wrote, or `d` without one.
abbrev pub last_poke : List (Reg × ℕ) → Reg → ℕ → ℕ
last_poke [] s d = d
last_poke ((r, v) ∷ pokes) s d = last_poke pokes s (if reg_offset s == reg_offset r then v else d)

place-wide :
    (tracee : Tracee) (r : Reg)
    → is_32on64_mode tracee ≡ false
    → place tracee.current_regs r ≡ reg_offset r
unfolding place is_32on64_mode
place-wide tracee r wide = ground arith

peek_reg-place :
    (tracee : Tracee) (s r : Reg)
    → place tracee.current_regs s ≡ place tracee.current_regs r
    → peek_reg tracee current s ≡ peek_reg tracee current r
unfolding peek_reg
peek_reg-place tracee s r e = rw (e) refl

peek_reg-poke_reg_wide :
    (tracee : Tracee) (r s : Reg) (v : ℕ)
    → is_32on64_mode tracee ≡ false
    → peek_reg (poke_reg tracee r v) current s
      ≡ (if reg_offset s == reg_offset r then v else peek_reg tracee current s)
peek_reg-poke_reg_wide tracee r s v wide =
    let p = place-wide tracee r wide in
    let q = place-wide tracee s wide in
    elim (Bool-cases (reg_offset s == reg_offset r)) [
      | inl e ↦ rw (e) (same-place (q ∙ (ground arith) ∙ sym p))
      | inr e ↦ rw (e) (peek_reg-poke_reg_other tracee r s v (ground arith))
    ]
  where
    same-place :
        place tracee.current_regs s ≡ place tracee.current_regs r
        → peek_reg (poke_reg tracee r v) current s ≡ v
    same-place e =
        peek_reg-place (poke_reg tracee r v) s r
          (poke_reg-place tracee r s v ∙ e ∙ sym (poke_reg-place tracee r r v))
        ∙ peek_reg-poke_reg tracee r v
        ∙ (rw (wide) refl)

pub peek_reg-poke_all :
    (pokes : List (Reg × ℕ)) (tracee : Tracee) (s : Reg)
    → is_32on64_mode tracee ≡ false
    → peek_reg (poke_all tracee pokes) current s ≡ last_poke pokes s (peek_reg tracee current s)
peek_reg-poke_all [] tracee s wide = refl
peek_reg-poke_all ((r, v) ∷ pokes) tracee s wide =
    peek_reg-poke_all pokes (poke_reg tracee r v) s (poke_reg-mode tracee r v ∙ wide)
    ∙ ap (last_poke pokes s) (peek_reg-poke_reg_wide tracee r s v wide)

pub poke_all-mode :
    (pokes : List (Reg × ℕ)) (tracee : Tracee)
    → is_32on64_mode (poke_all tracee pokes) ≡ is_32on64_mode tracee
poke_all-mode [] tracee = refl
poke_all-mode ((r, v) ∷ pokes) tracee =
    poke_all-mode pokes (poke_reg tracee r v) ∙ poke_reg-mode tracee r v
