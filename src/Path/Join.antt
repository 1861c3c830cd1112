-- ===== src/Path/Join.antt =====
-- `join_paths` of src/path/path.c: its result against a description by the separator between.
use proot.Prelude.{
  ℕ, ◌+◌, ◌<◌, ◌≡◌, ◌≢◌, refl, ap, ◌⊎◌, inl, inr, true, false, List, [], ◌∷◌, ◌++◌, Option, none,
  some, length, leb, ◌==◌, if◌then◌else◌, arith, Bool-cases, length-append, Result, ok, err,
  enametoolong, ◌>>=◌,
}
use mathlib.Core.List.{append_assoc, append-nil}
use proot.Path.{CString, slash, path_max, ends_with_slash, join_step, join_from, join_paths}
use proot.Path.Compare.{trim}

-- A path without the separator at its start, if it has one.
abbrev pub skip : CString → CString
skip [] = []
skip (c ∷ r) = if c == slash then r else c ∷ r

-- A separator between the two paths, in place of one at the end of the first and of one at the start
-- of the second, where there are such; further separators stay.
abbrev pub joined : CString → CString → CString
joined base path = trim base ++ slash ∷ skip path

ends_with_slash_lem :
    (c : ℕ) (p : CString)
    → ((ends_with_slash (c ∷ p) ≡ true) × (c ∷ p ≡ trim (c ∷ p) ++ slash ∷ []))
      ⊎ ((ends_with_slash (c ∷ p) ≡ false) × (trim (c ∷ p) ≡ c ∷ p))
ends_with_slash_lem c [] = elim (Bool-cases (c == slash)) [
  | inl e ↦ inl (ground arith, ground arith)
  | inr e ↦ inr (ground arith, ground arith)
]
ends_with_slash_lem c (d ∷ r) = elim (ends_with_slash_lem d r) [
  | inl p ↦ inl (ground (arith, p.0), ap (λ t. c ∷ t) p.1)
  | inr p ↦ inr (ground (arith, p.0), ap (λ t. c ∷ t) p.1)
]

-- Every successful step leaves a result that still fits, with the room for its NUL.
join_step-lt : (result path r : CString) → join_step result path ≡ ok r → length r + 1 < path_max
unfolding join_step
join_step-lt result [] r h =
    ground (arith, length-append result (slash ∷ []), length-append result [])
join_step-lt result (c ∷ path) r h = ground (
  arith,
  length-append result (slash ∷ c ∷ path),
  length-append result path,
  length-append result (c ∷ path),
)

join_from-lt :
    (paths : List (Option CString)) (result r : CString)
    → length result + 1 < path_max
    → join_from result paths ≡ ok r
    → length r + 1 < path_max
unfolding join_from
join_from-lt [] result r fits h = ground arith
join_from-lt (none ∷ paths) result r fits h = join_from-lt paths result r fits h
join_from-lt (some p ∷ paths) result r fits h =
    go (join_step result p) refl (λ x. join_from-lt paths x r) h
  where
    go :
        (m : Result CString)
        → join_step result p ≡ m
        → ((x : CString)
            → length x + 1 < path_max
            → join_from x paths ≡ ok r
            → length r + 1 < path_max)
        → (m >>= λ x. join_from x paths) ≡ ok r
        → length r + 1 < path_max
    go (ok x) e next k = next x (join_step-lt result p x e) k
    go (err x) e next k = cc

-- Whatever the paths and their number, a successful result fits its buffer, with its NUL and a
-- byte to spare.
pub length-join_paths :
    (paths : List (Option CString)) (r : CString)
    → join_paths paths ≡ ok r
    → length r + 1 < path_max
unfolding join_paths
length-join_paths paths r h = join_from-lt paths [] r (omega arith) h

join_step_lem :
    (c : ℕ) (base path : CString)
    → join_step (c ∷ base) path ≡ (
        if leb path_max (length (joined (c ∷ base) path) + 1)
        then err enametoolong
        else ok (joined (c ∷ base) path))
unfolding join_step
join_step_lem c base [] = elim (ends_with_slash_lem c base) [
  | inl p ↦
      ground (arith, p.0, p.1, append-nil (c ∷ base), length-append (trim (c ∷ base)) (slash ∷ []))
  | inr p ↦ ground (arith, p.0, p.1, length-append (c ∷ base) (slash ∷ []))
]
join_step_lem c base (d ∷ path) = elim (ends_with_slash_lem c base) [
  | inl p ↦ ground (
    arith,
    p.0,
    p.1,
    length-append (trim (c ∷ base)) (slash ∷ []),
    length-append (trim (c ∷ base)) (slash ∷ path),
    length-append (trim (c ∷ base)) (slash ∷ d ∷ path),
    append_assoc (trim (c ∷ base)) (slash ∷ []) path,
    append_assoc (trim (c ∷ base)) (slash ∷ []) (d ∷ path),
  )
  | inr p ↦ ground (
    arith,
    p.0,
    p.1,
    length-append (c ∷ base) (slash ∷ path),
    length-append (c ∷ base) (d ∷ path),
    length-append (c ∷ base) (slash ∷ d ∷ path),
  )
]

-- A base that is not empty and fits, joined to any path: the result has a separator between the two,
-- in place of one at the end of the base and of one at the start of the path, where there are such,
-- if it fits with its NUL and a byte to spare; else it is ENAMETOOLONG.
pub join_paths_lem :
    (base path : CString)
    → base ≢ []
    → length base + 1 < path_max
    → join_paths (some base ∷ some path ∷ []) ≡ (
        if leb path_max (length (joined base path) + 1)
        then err enametoolong
        else ok (joined base path))
unfolding join_paths join_from
join_paths_lem [] path n fits = absurd (n refl)
join_paths_lem (c ∷ base) path n fits =
    let first : join_step [] (c ∷ base) ≡ ok (c ∷ base) = unfold join_step in ground arith in
    rw first (ground (arith, join_step_lem c base path))
