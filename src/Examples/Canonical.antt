-- ===== src/Examples/Canonical.antt =====
-- Concrete inputs for the theorems on src/path/canon.c.
use proot.Prelude.{◌≡◌, ◌<◌, refl, inr, true, false, none, some, [], ◌∷◌, ◌++◌, length, arith, ok}
use proot.Path.{
  CString, slash, dot, is_final, not_final, join_paths, join_step, compare_paths2, compare_trimmed,
  substitute_path_prefix,
}
use proot.Binding.{
  Binding, Bindings, get_root, get_binding, find_binding, covers, is_false_positive,
  substitute_binding,
}
use proot.Canon.{
  Host, directory, default, pop_component, next_component, skip_slashes, name_max, canonicalize,
  canonicalize_from, canonicalize_loop, continue, round, enter, substitute_binding_stat, check_mode,
  is_kept, finish,
}
use proot.Canon.Component.{IsName, pop_component_lem, next_component_lem}
use proot.Canon.Absolute.{IsAbsolute, Runs, canonicalize_loop-Runs, canonicalize-IsAbsolute}

-- A host on which every path is a directory.
abbrev host : Host
host = record {
  lstat = λ _. ok directory;
  readlink = λ _. none;
  readlink_fd = λ _. none;
  readlink_proc = λ _ _ _. default;
  readlink_proc2 = λ _ _. ok none;
  skip_due_to_f2fs_bug = λ _. false;
  notify_host_path = λ p _. ok p;
  notify_guest_path = λ base _. ok (false, base);
  notify_translated_path = λ p. ok p;
}

abbrev root_binding : Binding
root_binding = record {
  address = 1;
  host = record { path = slash ∷ b'r' ∷ []; length = 2 };
  guest = record { path = slash ∷ []; length = 1 };
  need_substitution = true;
}

abbrev with_root : Bindings
with_root = record {
  pending = none;
  guest = some (root_binding ∷ []);
  host = some (root_binding ∷ []);
}

abbrev slash_a : CString
slash_a = slash ∷ b'a' ∷ []

abbrev name_b : CString
name_b = b'b' ∷ []

-- "/a/b//" and "///"
pop_component_example :
    (pop_component (slash_a ++ slash ∷ (name_b ++ slash ∷ slash ∷ [])) ≡ ok slash_a)
    × (pop_component (slash ∷ slash ∷ slash ∷ []) ≡ ok (slash ∷ []))
pop_component_example =
    pop_component_lem slash_a name_b (slash ∷ slash ∷ []) (omega arith, tt) (λ e. cc)
      (refl, (refl, tt)) (inr refl)

split : next_component (slash ∷ b'a' ∷ slash ∷ slash ∷ name_b) ≡ ok (b'a' ∷ [], name_b, not_final)
unfolding next_component
split = refl

next_component_example :
    (mid : CString) × (skip_slashes (slash ∷ b'a' ∷ slash ∷ slash ∷ name_b) ≡ b'a' ∷ mid)
    × (skip_slashes mid ≡ name_b)
    × IsName (b'a' ∷ [])
    × (1 < name_max)
    × (is_final not_final ≡ true → name_b ≡ [])
    × (is_final not_final ≡ false → length name_b < 5)
next_component_example =
    next_component_lem (slash ∷ b'a' ∷ slash ∷ slash ∷ name_b) (b'a' ∷ []) name_b not_final split

canonicalize_loop_example :
    Runs host with_root
      (λ _ g. ok g)
      0
      true
      (slash ∷ [])
      slash_a
      (canonicalize_loop host with_root (λ _ g. ok g) 0 3 true (slash ∷ []) slash_a)
canonicalize_loop_example =
    canonicalize_loop-Runs host with_root (λ _ g. ok g) 0 true 3 (slash ∷ []) slash_a (omega arith)

-- "/a/../b" is "/b".
up_and_down :
    canonicalize host with_root (slash_a ++ slash ∷ dot ∷ dot ∷ slash ∷ name_b) true (slash ∷ [])
    ≡ ok (slash ∷ name_b)
unfolding canonicalize canonicalize_from canonicalize_loop next_component continue round enter
    join_paths join_step substitute_binding_stat substitute_binding get_binding find_binding covers
    compare_paths2 compare_trimmed is_false_positive get_root pop_component check_mode is_kept
    finish substitute_path_prefix
up_and_down = refl

canonicalize_example : IsAbsolute (slash ∷ name_b)
canonicalize_example =
    canonicalize-IsAbsolute host with_root (slash_a ++ slash ∷ dot ∷ dot ∷ slash ∷ name_b) true
      (slash ∷ []) (slash ∷ name_b) (λ g c y k _ e. cc) up_and_down
