-- ===== src/Sysnum/Translate.antt =====
-- Round trip and bounds of the translation of system call numbers, src/syscall/sysnum.c.
use proot.Prelude.{
  ℕ, zero, suc, ◌+◌, ◌-◌, ◌<◌, ◌≤◌, ◌≡◌, ◌≢◌, refl, ap, sym, ◌∙◌, ◌⊎◌, ◌↔◌, inl, inr, true, false,
  none, some, List, [], ◌∷◌, length, get_elem?, ltb, ◌==◌, arith, Bool-cases,
}
use proot.Tracee.{Abi}
use proot.Sysnum.{pr_void, offset_of, find_sysnum, translate_sysnum, detranslate_sysnum}

abbrev pub Occurs : ℕ → List ℕ → Type 0
Occurs n [] = ⊥
Occurs n (t ∷ table) = (t ≡ n) ⊎ Occurs n table

find_sysnum_lem :
    (table : List ℕ) (n i offset : ℕ)
    → Occurs n table
    → (k : ℕ) × (find_sysnum table n i offset ≡ i + k + offset) × (get_elem? table k ≡ some n)
unfolding find_sysnum
find_sysnum_lem [] n i offset h = elim h [ ]
find_sysnum_lem (t ∷ table) n i offset h = elim (Bool-cases (t == n)) [
  | inl e ↦ (0, ground arith, ground arith)
  | inr e ↦ elim h [
    | inl eq ↦ absurd (clash t n eq e)
    | inr o ↦
        let r = find_sysnum_lem table n (i + 1) offset o in
        (suc (r.0), rw (e) (r.1 ∙ omega arith), r.2)
  ]
]
  where
    clash : (t n : ℕ) → t ≡ n → t == n ≡ false → ⊥
    clash t n e h = ground arith

get_elem?-inside : (xs : List ℕ) (i : ℕ) → i < length xs → (v : ℕ) × (get_elem? xs i ≡ some v)
get_elem?-inside [] i h = elim h [ ]
get_elem?-inside (x ∷ xs) zero h = (x, refl)
get_elem?-inside (x ∷ xs) (suc i) h = get_elem?-inside xs i (omega arith)

get_elem?-below : (xs : List ℕ) (i v : ℕ) → get_elem? xs i ≡ some v → i < length xs
get_elem?-below [] i v h = cc
get_elem?-below (x ∷ xs) zero v h = omega arith
get_elem?-below (x ∷ xs) (suc i) v h = omega (arith, get_elem?-below xs i v h)

get_elem?-outside : (xs : List ℕ) → get_elem? xs (length xs) ≡ none
get_elem?-outside [] = refl
get_elem?-outside (x ∷ xs) = get_elem?-outside xs

detranslate_sysnum-found :
    (table : Abi → List ℕ) (abi : Abi) (sysnum k : ℕ)
    → sysnum ≢ pr_void
    → find_sysnum (table abi) sysnum 0 (offset_of abi) ≡ k + offset_of abi
    → detranslate_sysnum table abi sysnum ≡ k + offset_of abi
unfolding detranslate_sysnum
detranslate_sysnum-found table abi sysnum k ne e = ground arith

translate_sysnum-inside :
    (table : Abi → List ℕ) (abi : Abi) (k : ℕ)
    → k ≤ length (table abi)
    → translate_sysnum table abi (k + offset_of abi) ≡ get_elem? (table abi) k
unfolding translate_sysnum
translate_sysnum-inside table abi k b =
    let e : k + offset_of abi - offset_of abi ≡ k = omega arith in
    let f : ltb (k + offset_of abi) (offset_of abi) ≡ false = ground arith in
    let g : ltb (length (table abi)) k ≡ false = ground arith in rw (f, e, g) refl

-- The number that `detranslate_sysnum` finds for a call of the table translates back to that call.
pub translate_sysnum-detranslate_sysnum :
    (table : Abi → List ℕ) (abi : Abi) (sysnum : ℕ)
    → sysnum ≢ pr_void
    → Occurs sysnum (table abi)
    → translate_sysnum table abi (detranslate_sysnum table abi sysnum) ≡ some sysnum
translate_sysnum-detranslate_sysnum table abi sysnum ne h =
    let f = find_sysnum_lem (table abi) sysnum 0 (offset_of abi) h in
    let d = detranslate_sysnum-found table abi sysnum f.0 ne (omega (arith, f.1)) in
    let b = get_elem?-below (table abi) f.0 sysnum f.2 in
    rw (d) (translate_sysnum-inside table abi f.0 (omega arith) ∙ f.2)

some-ne-none : {v : ℕ} → some v ≡ none → ⊥
some-ne-none e = cc

translate_sysnum-outside :
    (table : Abi → List ℕ) (abi : Abi) (sysnum : ℕ)
    → (sysnum < offset_of abi) ⊎ (offset_of abi + length (table abi) < sysnum)
    → translate_sysnum table abi sysnum ≡ some pr_void
unfolding translate_sysnum
translate_sysnum-outside table abi sysnum (inl h) = ground arith
translate_sysnum-outside table abi sysnum (inr h) =
    let f : ltb sysnum (offset_of abi) ≡ false = ground arith in
    let g : ltb (length (table abi)) (sysnum - offset_of abi) ≡ true = ground arith in
    rw (f, g) refl

-- The read behind the check on the index is out of bounds for exactly one number: the length of the
-- table plus the offset of the ABI.
pub translate_sysnum-out_of_bounds :
    (table : Abi → List ℕ) (abi : Abi) (sysnum : ℕ)
    → translate_sysnum table abi sysnum ≡ none ↔ sysnum ≡ length (table abi) + offset_of abi
translate_sysnum-out_of_bounds table abi sysnum = (
  only (length (table abi)) (offset_of abi) (at sysnum) (translate_sysnum-outside table abi sysnum),
  λ e. rw (e) (
      translate_sysnum-inside table abi (length (table abi)) (omega arith)
      ∙ get_elem?-outside (table abi)),
)
  where
    at :
        (s : ℕ)
        → offset_of abi ≤ s
        → s < offset_of abi + length (table abi)
        → (v : ℕ) × (translate_sysnum table abi s ≡ some v)
    at s lo hi =
        let k = s - offset_of abi in
        let e : s ≡ k + offset_of abi = omega arith in
        let v = get_elem?-inside (table abi) k (omega arith) in
        (
          v.0,
          ap (translate_sysnum table abi) e
              ∙ translate_sysnum-inside table abi k (omega arith)
              ∙ v.1,
        )

    only :
        (l o : ℕ)
        → (o ≤ sysnum → sysnum < o + l → (v : ℕ) × (translate_sysnum table abi sysnum ≡ some v))
        → ((sysnum < o) ⊎ (o + l < sysnum) → translate_sysnum table abi sysnum ≡ some pr_void)
        → translate_sysnum table abi sysnum ≡ none
        → sysnum ≡ l + o
    only l o inside outside e = elim (Bool-cases (ltb sysnum o)) [
      | inl a ↦ absurd (some-ne-none (sym (outside (inl (ground arith))) ∙ e))
      | inr a ↦ elim (Bool-cases (ltb sysnum (o + l))) [
        | inl b ↦
            let v = inside (ground arith) (ground arith) in absurd (some-ne-none (sym v.1 ∙ e))
        | inr b ↦ elim (Bool-cases (ltb (o + l) sysnum)) [
          | inl c ↦ absurd (some-ne-none (sym (outside (inr (ground arith))) ∙ e))
          | inr c ↦ ground arith
        ]
      ]
    ]
