-- ===== src/Path/Substitute.antt =====
-- `substitute_path_prefix` and `chop_finality` of src/path/path.c.
use proot.Prelude.{
  ℕ, zero, suc, ◌+◌, ◌-◌, ◌<◌, ◌≤◌, ◌≡◌, ◌≢◌, refl, ap, sym, ◌∙◌, ◌⊎◌, inl, inr, [], ◌∷◌, ◌++◌,
  some, length, arith, length-append, drop-append, take-length, take,
}
use mathlib.Core.List.{append_assoc, append-nil}
use proot.Path.{
  CString, slash, dot, char_at, path_max, size_enametoolong, substitute_path_prefix, chop_finality,
}
use proot.Path.Compare.{trim}

-- The path that a sequence of components stands for: no component is "/".
abbrev pub shown : CString → CString
shown [] = slash ∷ []
shown (c ∷ p) = c ∷ p

-- The path of a binding: "/", or a longer one with no separator at its end.
abbrev pub IsRef : CString → Type 0
IsRef p = (p ≡ slash ∷ []) ⊎ ((2 ≤ length p) × (trim p ≡ p))

-- What stands behind the path of a binding: nothing, or more than a separator.
abbrev pub IsRest : CString → Type 0
IsRest r = (r ≡ []) ⊎ (2 ≤ length r)

abbrev pub substituted : CString → CString → CString → ℕ × CString
substituted path old new = substitute_path_prefix path (length old) new (length new)

-- From "/" to a longer prefix.
from_root :
    (new rest : CString)
    → 2 ≤ length new
    → IsRest rest
    → length (shown rest) < path_max
    → length new + 1 < path_max
    → length (new ++ rest) < path_max
    → substituted (shown rest) (slash ∷ []) new ≡ (length (new ++ rest), new ++ rest)
unfolding substitute_path_prefix
from_root new [] n r small spare fits = ground (arith, take-length new, append-nil new)
from_root new (c ∷ []) n r small spare fits = elim r [ inl e ↦ cc | inr e ↦ absurd (omega arith) ]
from_root new (c ∷ d ∷ rest) n r small spare fits =
    ground (arith, take-length new, length-append new (c ∷ d ∷ rest))

-- From a longer prefix to "/".
to_root :
    (old rest : CString)
    → 2 ≤ length old
    → length (old ++ rest) < path_max
    → substituted (old ++ rest) old (slash ∷ []) ≡ (length (shown rest), shown rest)
unfolding substitute_path_prefix
to_root old [] n fits = ground (arith, length-append old [])
to_root old (c ∷ rest) n fits =
    ground (arith, length-append old (c ∷ rest), drop-append old (c ∷ rest), take-length (c ∷ rest))

-- From a longer prefix to another.
between :
    (old new rest : CString)
    → 2 ≤ length old
    → 2 ≤ length new
    → length (old ++ rest) < path_max
    → length (new ++ rest) < path_max
    → substituted (old ++ rest) old new ≡ (length (new ++ rest), new ++ rest)
unfolding substitute_path_prefix
between old new rest m n small fits =
    ground
      (arith, length-append old rest, length-append new rest, drop-append old rest, take-length new)

shown-append : (a b : CString) → 2 ≤ length a → shown (a ++ b) ≡ a ++ b
shown-append [] b h = absurd (omega arith)
shown-append (c ∷ a) b h = refl

-- A path that lies at or under the path of a binding: the prefix is replaced, what stands behind it
-- is kept, and "/" is never doubled or lost. The returned length is that of the new path. The two
-- prefixes are "/" or have no separator at their end, and differ; the given path and the new one fit,
-- and the new prefix does with a byte to spare.
pub substitute_path_prefix_lem :
    (old new rest : CString)
    → IsRef old
    → IsRef new
    → old ≢ new
    → IsRest rest
    → length (shown (trim old ++ rest)) < path_max
    → length new + 1 < path_max
    → length (shown (trim new ++ rest)) < path_max
    → substituted (shown (trim old ++ rest)) old new
      ≡ (length (shown (trim new ++ rest)), shown (trim new ++ rest))
substitute_path_prefix_lem old new rest (inl o) (inl n) ne r small spare fits =
    absurd (ne (o ∙ sym n))
substitute_path_prefix_lem old new rest (inl o) (inr n) ne r small spare fits =
    rw (o, n.1, shown-append new rest n.0)
      (from_root new rest n.0 r (rw o at small) spare (rw (n.1, shown-append new rest n.0) at fits))
substitute_path_prefix_lem old new rest (inr o) (inl n) ne r small spare fits =
    rw (n, o.1, shown-append old rest o.0)
      (to_root old rest o.0 (rw (o.1, shown-append old rest o.0) at small))
substitute_path_prefix_lem old new rest (inr o) (inr n) ne r small spare fits =
    rw (o.1, n.1, shown-append new rest n.0, shown-append old rest o.0)
      (between old new rest o.0 n.0 (rw (o.1, shown-append old rest o.0) at small)
        (rw (n.1, shown-append new rest n.0) at fits))

-- Substituting one way and back again gives the path from which it started.
substitute_path_prefix_back :
    (old new rest : CString)
    → IsRef old
    → IsRef new
    → old ≢ new
    → IsRest rest
    → length old + 1 < path_max
    → length new + 1 < path_max
    → length (shown (trim old ++ rest)) < path_max
    → length (shown (trim new ++ rest)) < path_max
    → let path = shown (trim old ++ rest) in
      (substituted (substituted path old new).1 new old).1 ≡ path
substitute_path_prefix_back old new rest o n ne r spare spare' small fits =
    rw (substitute_path_prefix_lem old new rest o n ne r small spare' fits) (
      ap (λ t. t.1)
        (substitute_path_prefix_lem new old rest n o (λ e. ne (sym e)) r fits spare small))

-- When the new path would not fit, the buffer keeps its old content and the length is an error.
pub substitute_path_prefix-too_long :
    (old new rest : CString)
    → IsRef old
    → IsRef new
    → length (shown (trim old ++ rest)) < path_max
    → length new < path_max
    → path_max ≤ length (trim new ++ rest)
    → substituted (shown (trim old ++ rest)) old new ≡ (size_enametoolong, shown (trim old ++ rest))
unfolding substitute_path_prefix
substitute_path_prefix-too_long old new rest o (inl n) small new_fits long =
    absurd (too_small rest o (rw n at long) small)
  where
    too_small :
        (r : CString)
        → IsRef old
        → path_max ≤ length r
        → length (shown (trim old ++ r)) < path_max
        → ⊥
    too_small [] p h k = omega arith
    too_small (c ∷ r) (inl p) h k = let q = rw p at k in omega arith
    too_small (c ∷ r) (inr p) h k =
        let q = rw (p.1, shown-append old (c ∷ r) p.0) at k in
        omega (arith, length-append old (c ∷ r))
substitute_path_prefix-too_long old new [] (inl o) (inr n) small new_fits long =
    let q = rw (n.1, append-nil new) at long in absurd (omega arith)
substitute_path_prefix-too_long old new (c ∷ rest) (inl o) (inr n) small new_fits long =
    let q = rw (n.1) at long in rw o (ground (arith, length-append new (c ∷ rest)))
substitute_path_prefix-too_long old new rest (inr o) (inr n) small new_fits long =
    let q = rw (n.1) at long in
    let q' = rw (o.1, shown-append old rest o.0) at small in
    rw (o.1, shown-append old rest o.0)
      (ground (arith, length-append old rest, length-append new rest))

pub char_at-append : (q r : CString) (d i : ℕ) → i ≡ length q → char_at (q ++ d ∷ r) i ≡ d
char_at-append [] r d i e = rw e
char_at-append (c ∷ q) r d zero e = absurd (omega arith)
char_at-append (c ∷ q) r d (suc i) e = char_at-append q r d i (omega arith)

pub take-append : (q r : CString) (n : ℕ) → n ≡ length q → take n (q ++ r) ≡ q
take-append [] r n e = rw e
take-append (c ∷ q) r zero e = absurd (omega arith)
take-append (c ∷ q) r (suc n) e = ap (λ t. c ∷ t) (take-append q r n (omega arith))

chop-slash :
    (p : CString)
    → char_at p (length p - 1) ≡ slash
    → 1 < length p
    → chop_finality p ≡ some (take (length p - 1) p)
unfolding chop_finality
chop-slash p e n = rw e (ground arith)

chop-dot :
    (p : CString)
    → char_at p (length p - 1) ≡ dot
    → 2 < length p
    → chop_finality p ≡ some (take (length p - 2) p)
unfolding chop_finality
chop-dot p e n = rw e (ground arith)

-- Two bytes go wherever the last one is a dot, also when it ends the name of a file.
chop_finality-drops_name :
    (q : CString) (c : ℕ) → q ≢ [] → chop_finality (q ++ c ∷ dot ∷ []) ≡ some q
chop_finality-drops_name [] c n = absurd (n refl)
chop_finality-drops_name (b ∷ q) c n =
    let size = length-append (b ∷ q) (c ∷ dot ∷ []) in
    let size' = length-append (b ∷ q) (c ∷ []) in
    let last = rw (append_assoc (b ∷ q) (c ∷ []) (dot ∷ [])) at (
      char_at-append ((b ∷ q) ++ c ∷ []) [] dot (length ((b ∷ q) ++ c ∷ dot ∷ []) - 1)
        (omega arith)) in
    chop-dot ((b ∷ q) ++ c ∷ dot ∷ []) last (omega arith)
    ∙ ap some (take-append (b ∷ q) (c ∷ dot ∷ []) _ (omega arith))

-- A separator at the end of a path is removed, and so is "/."; "/" itself stays.
pub chop_finality_lem :
    (q : CString)
    → (chop_finality (q ++ slash ∷ []) ≡ some (shown q))
      × (chop_finality (q ++ slash ∷ dot ∷ []) ≡ some (shown q))
chop_finality_lem [] = unfold chop_finality in (refl, refl)
chop_finality_lem (c ∷ q) =
    let size = length-append (c ∷ q) (slash ∷ []) in
    (
      chop-slash ((c ∷ q) ++ slash ∷ []) (char_at-append (c ∷ q) [] slash _ (omega arith))
            (omega arith)
          ∙ ap some (take-append (c ∷ q) (slash ∷ []) _ (omega arith)),
      chop_finality-drops_name (c ∷ q) slash (λ e. cc),
    )
