-- ===== src/Examples/Lists.antt =====
-- Concrete inputs for the theorems on src/path/binding.c: a guest whose root is "/r", with
-- the host's "/b/c" bound at "/a".
use proot.Prelude.{
  ℕ, ◌<◌, ◌≤◌, ◌≡◌, ◌≢◌, refl, ◌⊎◌, inr, true, length, none, some, [], ◌∷◌, ◌++◌, replicate, All,
  arith, ok,
}
use proot.Path.{
  path_max, CString, slash, Side, guest, host, pending, compare_paths2, compare_trimmed,
}
use proot.Binding.{
  Binding, Bindings, covers, get_binding, get_root, is_false_positive, head_of, insort_binding,
  find_binding, substitute_binding,
}
use proot.Binding.Order.{IsOrdered, IsSorted, AreWhole, AtOrUnder, key, insort_binding-IsOrdered}
use proot.Binding.Lookup.{
  get_binding_most_specific, substitute_binding_lem, substitute_binding-too_long,
}
use proot.Path.Compare.{trim}
use proot.Path.Substitute.{shown}

abbrev root_binding : Binding
root_binding = record {
  address = 1;
  host = record { path = slash ∷ b'r' ∷ []; length = 2 };
  guest = record { path = slash ∷ []; length = 1 };
  need_substitution = true;
}

abbrev slash_a : CString
slash_a = slash ∷ b'a' ∷ []

abbrev slash_b_c : CString
slash_b_c = slash ∷ b'b' ∷ slash ∷ b'c' ∷ []

abbrev a_binding : Binding
a_binding = record {
  address = 2;
  host = record { path = slash_b_c; length = 4 };
  guest = record { path = slash_a; length = 2 };
  need_substitution = true;
}

abbrev with_root : Bindings
with_root = record {
  pending = none;
  guest = some (root_binding ∷ []);
  host = some (root_binding ∷ []);
}

abbrev two_bindings : Bindings
two_bindings = record {
  pending = none;
  guest = some (a_binding ∷ root_binding ∷ []);
  host = some (a_binding ∷ root_binding ∷ []);
}

cons-ne-nil : {c : ℕ} {s : CString} → c ∷ s ≢ []
cons-ne-nil e = cc

a_binding-AreWhole : AreWhole a_binding
a_binding-AreWhole = ((refl, omega arith, cons-ne-nil), (refl, omega arith, cons-ne-nil))

root_binding-AreWhole : AreWhole root_binding
root_binding-AreWhole = ((refl, omega arith, cons-ne-nil), (refl, omega arith, cons-ne-nil))

with_root-IsOrdered : IsOrdered with_root
with_root-IsOrdered = record { whole = whole; sorted = sorted }
  where
    whole : (side : Side) → All AreWhole (head_of with_root side)
    whole guest = (root_binding-AreWhole, tt)
    whole host = (root_binding-AreWhole, tt)
    whole pending = tt

    sorted : (side : Side) → IsSorted side (head_of with_root side)
    sorted guest = (tt, tt)
    sorted host = (tt, tt)
    sorted pending = tt

insort_binding_example : IsOrdered (insort_binding with_root guest a_binding)
insort_binding_example =
    insort_binding-IsOrdered with_root guest a_binding with_root-IsOrdered a_binding-AreWhole

two_bindings-IsOrdered : IsOrdered two_bindings
two_bindings-IsOrdered = record { whole = whole; sorted = sorted }
  where
    whole : (side : Side) → All AreWhole (head_of two_bindings side)
    whole guest = (a_binding-AreWhole, (root_binding-AreWhole, tt))
    whole host = (a_binding-AreWhole, (root_binding-AreWhole, tt))
    whole pending = tt

    sorted : (side : Side) → IsSorted side (head_of two_bindings side)
    sorted guest = (((λ e. cc), tt), (tt, tt))
    sorted host = (((λ e. cc), tt), (tt, tt))
    sorted pending = tt

-- "/a/d", which the binding at "/a" covers.
abbrev slash_a_d : CString
slash_a_d = slash ∷ b'a' ∷ slash ∷ b'd' ∷ []

found : get_binding two_bindings guest slash_a_d ≡ some a_binding
unfolding get_binding find_binding covers is_false_positive compare_paths2 compare_trimmed get_root
found = refl

get_binding_example :
    (covers guest a_binding slash_a_d ≡ true)
    × All
        (λ c. covers guest c slash_a_d ≡ true → AtOrUnder (key guest c) (key guest a_binding))
        (head_of two_bindings guest)
get_binding_example =
    get_binding_most_specific two_bindings guest slash_a_d a_binding two_bindings-IsOrdered
      (omega arith) cons-ne-nil found

substitute_binding_example :
    (rest : CString) × (slash_a_d ≡ shown (trim slash_a ++ rest))
    × (let new = shown (trim slash_b_c ++ rest) in
        ((length new < path_max) × (substitute_binding two_bindings guest slash_a_d ≡ ok (1, new)))
        ⊎ ((path_max ≤ length new)
            × (substitute_binding two_bindings guest slash_a_d ≡ ok (1, slash_a_d))))
substitute_binding_example =
    substitute_binding_lem two_bindings guest slash_a_d a_binding (omega arith) cons-ne-nil found
      (get_binding_example.0) refl a_binding-AreWhole.1 a_binding-AreWhole.0
      (inr (omega arith, refl)) (inr (omega arith, refl)) (λ e. cc) (inr (omega arith, refl))
      (omega arith) (omega arith)

-- "/a" followed by 4093 bytes: the longest path that fits.
abbrev long_rest : CString
long_rest = slash ∷ replicate 4092 b'd'

abbrev three_binding : Binding
three_binding = record {
  address = 3;
  host = record { path = slash ∷ b'b' ∷ b'c' ∷ []; length = 3 };
  guest = record { path = slash_a; length = 2 };
  need_substitution = true;
}

abbrev only_three : Bindings
only_three = record {
  pending = none;
  guest = some (three_binding ∷ []);
  host = some (three_binding ∷ []);
}

found_long : get_binding only_three guest (slash_a ++ long_rest) ≡ some three_binding
unfolding get_binding find_binding covers is_false_positive compare_paths2 compare_trimmed get_root
found_long = refl

substitute_binding-too_long_example :
    substitute_binding only_three guest (slash_a ++ long_rest) ≡ ok (1, slash_a ++ long_rest)
substitute_binding-too_long_example =
    substitute_binding-too_long only_three guest long_rest three_binding found_long refl refl refl
      (inr (omega arith, refl)) (inr (omega arith, refl)) (omega arith) (omega arith) (omega arith)
