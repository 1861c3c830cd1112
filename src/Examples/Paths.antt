-- ===== src/Examples/Paths.antt =====
-- Concrete inputs for the theorems on src/path/path.c.
use proot.Prelude.{ℕ, ◌≡◌, ◌≢◌, refl, inr, some, [], ◌∷◌, ◌++◌, arith, ◌↔◌, ok}
use proot.Path.{CString, slash, join_paths, compare_paths, paths_are_equal, path1_is_prefix}
use proot.Path.Join.{join_paths_lem}
use proot.Path.Compare.{compare_paths_lem, trim, Under, flip}
use proot.Path.Substitute.{substituted, substitute_path_prefix_lem}

-- "/a", "/b/c" and "/d".
abbrev slash_a : CString
slash_a = slash ∷ b'a' ∷ []

abbrev slash_a_slash : CString
slash_a_slash = slash ∷ b'a' ∷ slash ∷ []

abbrev slash_a_b : CString
slash_a_b = slash ∷ b'a' ∷ slash ∷ b'b' ∷ []

abbrev slash_b_c : CString
slash_b_c = slash ∷ b'b' ∷ slash ∷ b'c' ∷ []

abbrev rest_d : CString
rest_d = slash ∷ b'd' ∷ []

cons-ne-nil : {c : ℕ} {s : CString} → c ∷ s ≢ []
cons-ne-nil e = cc

join_paths_example :
    join_paths (some slash_a_slash ∷ some slash_a ∷ []) ≡ ok (slash ∷ b'a' ∷ slash ∷ b'a' ∷ [])
join_paths_example = join_paths_lem slash_a_slash slash_a cons-ne-nil (omega arith)

compare_paths_example :
    ((compare_paths slash_a_slash slash_a_b ≡ paths_are_equal)
      ↔ (trim slash_a_slash ≡ trim slash_a_b))
    × ((compare_paths slash_a_slash slash_a_b ≡ path1_is_prefix)
        ↔ Under (trim slash_a_slash) (trim slash_a_b))
    × (compare_paths slash_a_b slash_a_slash ≡ flip (compare_paths slash_a_slash slash_a_b))
compare_paths_example =
    compare_paths_lem slash_a_slash slash_a_b (omega arith) (omega arith) cons-ne-nil cons-ne-nil

a-ne-b_c : slash_a ≢ slash_b_c
a-ne-b_c e = cc

substitute_path_prefix_example :
    substituted (slash_a ++ rest_d) slash_a slash_b_c ≡ (6, slash_b_c ++ rest_d)
substitute_path_prefix_example =
    substitute_path_prefix_lem slash_a slash_b_c rest_d (inr (omega arith, refl))
      (inr (omega arith, refl)) a-ne-b_c (inr (omega arith)) (omega arith) (omega arith)
      (omega arith)
