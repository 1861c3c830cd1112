-- ===== src/Path/Compare.antt =====
-- `compare_paths` of src/path/path.c against the order of paths by their components.
use proot.Prelude.{
  ℕ, suc, ◌≡◌, refl, ap, ◌∙◌, ◌↔◌, ◌≢◌, ◌⊎◌, inl, inr, [], ◌∷◌, ◌++◌, length, ◌==◌, if◌then◌else◌,
  arith, Bool-cases, eq_self, suc-ne-zero,
}
use mathlib.Core.List.{append_assoc}
use proot.Path.{
  CString, IsCString, slash, Comparison, paths_are_equal, path1_is_prefix, path2_is_prefix,
  paths_are_not_comparable, trimmed_length, compare_trimmed, compare_paths2, compare_paths,
}

-- A path without the separator at its end, if it has one: "/" is the empty sequence of components.
abbrev pub trim : CString → CString
trim [] = []
trim (c ∷ []) = if c == slash then [] else c ∷ []
trim (c ∷ d ∷ r) = c ∷ trim (d ∷ r)

-- The two paths are walked together; the shorter one has to end where a component ends.
abbrev pub relate : CString → CString → Comparison
relate [] [] = paths_are_equal
relate [] (d ∷ b) = if d == slash then path1_is_prefix else paths_are_not_comparable
relate (c ∷ a) [] = if c == slash then path2_is_prefix else paths_are_not_comparable
relate (c ∷ a) (d ∷ b) = if c == d then relate a b else paths_are_not_comparable

-- What a trimmed path may have lost.
abbrev Tail : CString → Type 0
Tail x = (x ≡ []) ⊎ (x ≡ slash ∷ [])

compare_trimmed_lem :
    (a b x y : CString)
    → IsCString a
    → IsCString b
    → Tail x
    → Tail y
    → compare_trimmed (a ++ x) (length a) (b ++ y) (length b) ≡ relate a b
unfolding compare_trimmed
compare_trimmed_lem [] [] x y ha hb (inl p) ty = ground arith
compare_trimmed_lem [] [] x y ha hb (inr p) ty = ground arith
compare_trimmed_lem [] (d ∷ b) x y ha hb tx ty = ground arith
compare_trimmed_lem (c ∷ a) [] x y ha hb tx ty = ground arith
compare_trimmed_lem (c ∷ a) (d ∷ b) x y ha hb tx ty =
    ground (arith, compare_trimmed_lem a b x y ha.1 hb.1 tx ty)

-- What the test on the last byte does to the length.
trimmed_length_lem :
    (c : ℕ) (p : CString)
    → (trimmed_length (c ∷ p) (suc (length p)) ≡ length (trim (c ∷ p)))
      × ((x : CString) × (trim (c ∷ p) ++ x ≡ c ∷ p) × Tail x)
trimmed_length_lem c [] = elim (Bool-cases (c == slash)) [
  | inl e ↦ (ground arith, (slash ∷ [], ground arith, inr refl))
  | inr e ↦ (ground arith, ([], ground arith, inl refl))
]
trimmed_length_lem c (d ∷ r) =
    let rest = trimmed_length_lem d r in
    (ground (arith, rest.0), (rest.1.0, ap (λ t. c ∷ t) rest.1.1, rest.1.2))

trim-IsCString : (p : CString) → IsCString p → IsCString (trim p)
trim-IsCString [] h = h
trim-IsCString (c ∷ []) h = ground arith
trim-IsCString (c ∷ d ∷ r) h = (h.0, trim-IsCString (d ∷ r) h.1)

compare_paths-cons :
    (c d : ℕ) (p q : CString)
    → compare_paths (c ∷ p) (d ∷ q)
      ≡ compare_trimmed
          (c ∷ p)
          (trimmed_length (c ∷ p) (suc (length p)))
          (d ∷ q)
          (trimmed_length (d ∷ q) (suc (length q)))
unfolding compare_paths compare_paths2
compare_paths-cons c d p q = rw (suc-ne-zero (length p), suc-ne-zero (length q))

-- On paths that are not empty, `compare_paths` is `relate` on the trimmed paths.
pub compare_paths-eq-relate :
    (p q : CString)
    → IsCString p
    → IsCString q
    → p ≢ []
    → q ≢ []
    → compare_paths p q ≡ relate (trim p) (trim q)
compare_paths-eq-relate [] q hp hq np nq = absurd (np refl)
compare_paths-eq-relate (c ∷ p) [] hp hq np nq = absurd (nq refl)
compare_paths-eq-relate (c ∷ p) (d ∷ q) hp hq np nq =
    let u = trimmed_length_lem c p in
    let v = trimmed_length_lem d q in
    let core =
      compare_trimmed_lem (trim (c ∷ p)) (trim (d ∷ q)) u.1.0 v.1.0 (trim-IsCString (c ∷ p) hp)
        (trim-IsCString (d ∷ q) hq) u.1.2 v.1.2 in
    rw (compare_paths-cons, u.0, v.0) (rw (u.1.1, v.1.1) at core)

-- `b` goes on behind `a` by a separator.
abbrev pub Under : CString → CString → Type 0
Under a b = (r : CString) × (b ≡ a ++ slash ∷ r)

relate-Under : (a b : CString) → relate a b ≡ path1_is_prefix → Under a b
relate-Under [] [] h = cc
relate-Under [] (d ∷ b) h = (b, ground arith)
relate-Under (c ∷ a) [] h = ground arith
relate-Under (c ∷ a) (d ∷ b) h =
    let under = relate-Under a b (ground arith) in (under.0, ground (arith, under.1))

Under-relate : (a r : CString) → relate a (a ++ slash ∷ r) ≡ path1_is_prefix
Under-relate [] r = ground arith
Under-relate (c ∷ a) r = rw (eq_self c) (Under-relate a r)

pub relate-eq : (a b : CString) → relate a b ≡ paths_are_equal → a ≡ b
relate-eq [] [] h = refl
relate-eq [] (d ∷ b) h = ground arith
relate-eq (c ∷ a) [] h = ground arith
relate-eq (c ∷ a) (d ∷ b) h = ground (arith, relate-eq a b)

pub relate_self : (a : CString) → relate a a ≡ paths_are_equal
relate_self [] = refl
relate_self (c ∷ a) = rw (eq_self c) (relate_self a)

-- The mirror image of a comparison.
abbrev pub flip : Comparison → Comparison
flip path1_is_prefix = path2_is_prefix
flip path2_is_prefix = path1_is_prefix
flip c = c

pub relate-flip : (a b : CString) → relate b a ≡ flip (relate a b)
relate-flip [] [] = refl
relate-flip [] (d ∷ b) = ground arith
relate-flip (c ∷ a) [] = ground arith
relate-flip (c ∷ a) (d ∷ b) = ground (arith, relate-flip a b)

pub relate-prefix_iff : (a b : CString) → (relate a b ≡ path1_is_prefix) ↔ Under a b
relate-prefix_iff a b = (relate-Under a b, λ u. rw u.1 (Under-relate a u.0))

pub relate-prefix_trans :
    (a b c : CString)
    → relate a b ≡ path1_is_prefix
    → relate b c ≡ path1_is_prefix
    → relate a c ≡ path1_is_prefix
relate-prefix_trans a b c h k =
    let u = relate-Under a b h in
    let v = relate-Under b c k in
    (relate-prefix_iff a c).1 (
      u.0 ++ slash ∷ v.0,
      v.1 ∙ ap (λ t. t ++ slash ∷ v.0) u.1 ∙ append_assoc a (slash ∷ u.0) (slash ∷ v.0),
    )

-- For paths that are not empty: the comparison says that they are equal exactly when they are the
-- same path up to a trailing separator, that the first is a prefix exactly when the second goes on
-- behind it with a separator, and it says the mirror image when the paths change places.
pub compare_paths_lem :
    (p q : CString)
    → IsCString p
    → IsCString q
    → p ≢ []
    → q ≢ []
    → ((compare_paths p q ≡ paths_are_equal) ↔ (trim p ≡ trim q))
      × ((compare_paths p q ≡ path1_is_prefix) ↔ Under (trim p) (trim q))
      × (compare_paths q p ≡ flip (compare_paths p q))
compare_paths_lem p q hp hq np nq =
    rw (compare_paths-eq-relate p q hp hq np nq, compare_paths-eq-relate q p hq hp nq np)
      (
        (relate-eq (trim p) (trim q), λ e. rw e (relate_self (trim q))),
        relate-prefix_iff (trim p) (trim q),
        relate-flip (trim p) (trim q),
      )
