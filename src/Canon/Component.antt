-- ===== src/Canon/Component.antt =====
-- `pop_component` and `next_component` of src/path/canon.c.
pub mod Search
pub use proot.Canon.Component.Search.{IsName}
use proot.Canon.Component.Search.{
  char_at-behind, name-char, separators-char, find_separator_lem, skip_separators_lem,
  skip_separators-all,
}
use proot.Prelude.{
  ℕ, zero, suc, ◌+◌, ◌-◌, ◌<◌, ◌≤◌, ◌≡◌, ◌≢◌, refl, ap, sym, ◌∙◌, ◌⊎◌, inl, inr, Bool, true, false,
  [], ◌∷◌, ◌++◌, length, ◌==◌, arith, All, Bool-cases, ok, length-append, take,
}
use native.Mathlib.Decide.{dec_lt}
use proot.Path.{CString, slash, char_at, Finality, is_final}
use proot.Path.Substitute.{shown, take-append}
use proot.Canon.{
  skip_separators, find_separator, pop_component, skip_slashes, split_component, next_component,
  name_max, finality_of,
}

pop_component-cut :
    (path : CString) (t e : ℕ)
    → char_at path 0 ≡ slash
    → 2 ≤ length path
    → skip_separators path (length path - 1) ≡ e
    → find_separator path e ≡ t
    → pop_component path ≡ ok (take t path)
unfolding pop_component
pop_component-cut path t e a n skipped cut =
    rw (a, skipped, cut) (unfold find_separator skip_separators in ground arith)

module _ (p name z : CString) (h : IsName name) (s : All (λ c. c ≡ slash) z) where
  char_at-name :
      (k : ℕ)
      → length p < k
      → k ≤ length p + length name
      → char_at (p ++ slash ∷ (name ++ z)) k ≢ slash
  char_at-name k b c e =
      name-char name z (k - length p - 1) h (omega arith)
        (sym (char_at-behind p (slash ∷ (name ++ z)) k (suc (k - length p - 1)) (omega arith)) ∙ e)

  char_at-tail :
      (k : ℕ)
      → length p + length name < k
      → k < length p + length name + length z + 1
      → char_at (p ++ slash ∷ (name ++ z)) k ≡ slash
  char_at-tail k b c =
      char_at-behind p (slash ∷ (name ++ z)) k (suc (k - length p - 1)) (omega arith)
      ∙ char_at-behind name z (k - length p - 1) (k - length p - length name - 1) (omega arith)
      ∙ separators-char z (k - length p - length name - 1) s (omega arith)

  -- The last name is cut, and the separators behind it.
  pop_component-name :
      (t : ℕ)
      → name ≢ []
      → char_at (p ++ slash ∷ (name ++ z)) 0 ≡ slash
      → ((length p ≤ 1) × (t ≡ 1)) ⊎ (t ≡ length p)
      → 1 ≤ t
      → pop_component (p ++ slash ∷ (name ++ z)) ≡ ok (take t (p ++ slash ∷ (name ++ z)))
  pop_component-name t n a at_t pos =
      let some_name : 1 ≤ length name = positive name n in
      let size = length-append p (slash ∷ (name ++ z)) in
      let size' = length-append name z in
      pop_component-cut (p ++ slash ∷ (name ++ z)) t (length p + length name) a (omega arith)
        (skip_separators_lem _ (length p + length name) _
          (char_at-name (length p + length name) (omega arith) (omega arith))
          (λ i b c. char_at-tail i b (omega arith)) (omega arith) (omega arith))
        (find_separator_lem _ t (length p + length name) (stops at_t)
          (λ i b c. char_at-name i (above at_t i b pos) c) pos (reaches at_t some_name))
    where
      positive : (q : CString) → q ≢ [] → 1 ≤ length q
      positive [] m = absurd (m refl)
      positive (c ∷ q) m = omega arith

      stops :
          ((length p ≤ 1) × (t ≡ 1)) ⊎ (t ≡ length p)
          → (t ≡ 1) ⊎ (char_at (p ++ slash ∷ (name ++ z)) t ≡ slash)
      stops (inl k) = inl k.1
      stops (inr k) = inr (char_at-behind p (slash ∷ (name ++ z)) t 0 (omega arith))

      above : ((length p ≤ 1) × (t ≡ 1)) ⊎ (t ≡ length p) → (i : ℕ) → t < i → 1 ≤ t → length p < i
      above (inl k) i b _ = let l = k.0 in let e = k.1 in omega arith
      above (inr k) i b _ = omega arith

      reaches :
          ((length p ≤ 1) × (t ≡ 1)) ⊎ (t ≡ length p) → 1 ≤ length name → t ≤ length p + length name
      reaches (inl k) l = let e = k.1 in omega arith
      reaches (inr k) l = omega arith

-- Of an absolute path, `pop_component` cuts the last name, all separators behind it and the one in
-- front of it; not that one if it is the root. Of a path of separators only it leaves the root. No
-- assertion fails.
pub pop_component_lem :
    (p name z : CString)
    → IsName name
    → name ≢ []
    → All (λ c. c ≡ slash) z
    → (p ≡ []) ⊎ (char_at p 0 ≡ slash)
    → (pop_component (p ++ slash ∷ (name ++ z)) ≡ ok (shown p))
      × (pop_component (slash ∷ z) ≡ ok (slash ∷ []))
pop_component_lem p name z h n s a = (cut p a, root z s)
  where
    cut :
        (q : CString)
        → (q ≡ []) ⊎ (char_at q 0 ≡ slash)
        → pop_component (q ++ slash ∷ (name ++ z)) ≡ ok (shown q)
    cut [] b = pop_component-name [] name z h s 1 n refl (inl (omega arith, refl)) (omega arith)
    cut (c ∷ q) b =
        let first : c ≡ slash = elim b [ inl e ↦ cc | inr e ↦ e ] in
        pop_component-name (c ∷ q) name z h s (length (c ∷ q)) n first (inr refl) (omega arith)
        ∙ ap ok (take-append (c ∷ q) (slash ∷ (name ++ z)) _ refl)

    root : (y : CString) → All (λ c. c ≡ slash) y → pop_component (slash ∷ y) ≡ ok (slash ∷ [])
    root [] b = unfold pop_component in ground arith
    root (c ∷ y) b =
        let last : length (slash ∷ c ∷ y) - 1 ≡ suc (length y) = omega arith in
        pop_component-cut (slash ∷ c ∷ y) 1 1 refl (omega arith)
          (rw last (
            skip_separators-all (slash ∷ c ∷ y) (length y)
              (λ i k. separators-char (slash ∷ c ∷ y) i (refl, b) (omega arith))))
          (unfold find_separator in ground arith)

-- `pop_component` keeps a path absolute, and does not fail on one.
pop_component-pos : (path : CString) (k : ℕ) → 1 ≤ k → 1 ≤ find_separator path k
unfolding find_separator
pop_component-pos path zero h = absurd (omega arith)
pop_component-pos path (suc k) h = ground (arith, pop_component-pos path k)

skip_separators-pos : (path : CString) (k : ℕ) → 1 ≤ k → 1 ≤ skip_separators path k
unfolding skip_separators
skip_separators-pos path zero h = absurd (omega arith)
skip_separators-pos path (suc k) h = ground (arith, skip_separators-pos path k)

take-first : (path : CString) (k : ℕ) → 1 ≤ k → char_at (take k path) 0 ≡ char_at path 0
take-first [] zero h = refl
take-first [] (suc k) h = refl
take-first (c ∷ path) zero h = absurd (omega arith)
take-first (c ∷ path) (suc k) h = refl

-- On an absolute path no assertion of `pop_component` fails, and the result is absolute.
pub pop_component-absolute :
    (path : CString)
    → char_at path 0 ≡ slash
    → (p : CString) × (pop_component path ≡ ok p) × (char_at p 0 ≡ slash)
unfolding pop_component
pop_component-absolute [] a = absurd (omega arith)
pop_component-absolute (c ∷ []) a = (c ∷ [], ground arith, a)
pop_component-absolute (c ∷ d ∷ path) a =
    let k = length (c ∷ d ∷ path) - 1 in
    let pos =
      pop_component-pos (c ∷ d ∷ path) (skip_separators (c ∷ d ∷ path) k)
        (skip_separators-pos (c ∷ d ∷ path) k (omega arith)) in
    let whole = c ∷ d ∷ path in
    (
      take (find_separator whole (skip_separators whole k)) whole,
      ground arith,
      take-first whole _ pos ∙ a,
    )

skip_slashes-le : (s : CString) → length (skip_slashes s) ≤ length s
unfolding skip_slashes
skip_slashes-le [] = omega arith
skip_slashes-le (c ∷ s) = ground (arith, skip_slashes-le s)

split_component_lem :
    (s : CString)
    → (s ≡ (split_component s).0 ++ (split_component s).1) × IsName (split_component s).0
unfolding split_component
split_component_lem [] = (refl, tt)
split_component_lem (c ∷ s) =
    let rest = split_component_lem s in
    elim (Bool-cases (c == slash)) [
      | inl e ↦ rw e (refl, tt)
      | inr e ↦ rw e (ap (λ t. c ∷ t) rest.0, ((λ k. ground arith), rest.1))
    ]

-- Behind a component there is nothing, or a separator.
split_component-mid :
    (s : CString) → ((split_component s).1 ≡ []) ⊎ (char_at (split_component s).1 0 ≡ slash)
unfolding split_component
split_component-mid [] = inl refl
split_component-mid (c ∷ s) = elim (Bool-cases (c == slash)) [
  | inl e ↦ rw e (inr (ground arith))
  | inr e ↦ rw e (split_component-mid s)
]

skip_slashes-lt :
    (s : CString)
    → (s ≡ []) ⊎ (char_at s 0 ≡ slash)
    → skip_slashes s ≢ []
    → length (skip_slashes s) < length s
unfolding skip_slashes
skip_slashes-lt [] h n = absurd (n refl)
skip_slashes-lt (c ∷ s) h n = ground (arith, skip_slashes-le s)

skip_slashes-first : (s : CString) → skip_slashes s ≢ [] → char_at (skip_slashes s) 0 ≢ slash
unfolding skip_slashes
skip_slashes-first [] n e = n refl
skip_slashes-first (c ∷ s) n e = ground (arith, skip_slashes-first s)

finality_of_lem :
    (want_dir : Bool) (s : CString)
    → (is_final (finality_of want_dir s) ≡ true → s ≡ [])
      × (is_final (finality_of want_dir s) ≡ false → s ≢ [])
finality_of_lem true [] = ((λ e. refl), (λ e n. cc (e)))
finality_of_lem false [] = ((λ e. refl), (λ e n. cc (e)))
finality_of_lem w (c ∷ s) = ((λ e. cc (e)), (λ e n. cc (n)))

next_component-parts :
    (cursor name rest : CString) (f : Finality)
    → next_component cursor ≡ ok (name, rest, f)
    → let s = split_component (skip_slashes cursor) in
      (s.0 ≡ name)
      × (skip_slashes s.1 ≡ rest)
      × (finality_of (char_at s.1 0 == slash) (skip_slashes s.1) ≡ f)
      × (length s.0 < name_max)
unfolding next_component
next_component-parts cursor name rest f h = ground arith

-- What `next_component` takes off the cursor: behind the separators that it skips stand the
-- component, a name shorter than `name_max`, and then what it leaves with the separators in front.
-- Nothing is left if the component is final, and otherwise less than there was.
pub next_component_lem :
    (cursor name rest : CString) (f : Finality)
    → next_component cursor ≡ ok (name, rest, f)
    → (mid : CString) × (skip_slashes cursor ≡ name ++ mid)
      × (skip_slashes mid ≡ rest)
      × IsName name
      × (length name < name_max)
      × (is_final f ≡ true → rest ≡ [])
      × (is_final f ≡ false → length rest < length cursor)
next_component_lem cursor name rest f h =
    let s = split_component (skip_slashes cursor) in
    let e = next_component-parts cursor name rest f h in
    let parts = split_component_lem (skip_slashes cursor) in
    let final = finality_of_lem (char_at s.1 0 == slash) (skip_slashes s.1) in
    let size = ap length parts.0 in
    (
      s.1,
      parts.0 ∙ ap (λ t. t ++ s.1) e.0,
      e.1,
      (rw e.0 at parts.1),
      (rw e.0 at e.3),
      (λ k. sym e.1 ∙ final.0 (ap is_final e.2 ∙ k)),
      (λ k.
          let less =
            skip_slashes-lt s.1 (split_component-mid (skip_slashes cursor))
              (final.1 (ap is_final e.2 ∙ k)) in
          rw (← e.1) (omega (arith, less, length-append s.0 s.1, skip_slashes-le cursor))),
    )
