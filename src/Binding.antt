-- ===== src/Binding.antt =====
-- src/path/binding.c and src/path/binding.h: the lists of bindings of a tracee's file-system
-- name-space, their order, the look-up of the binding of a path, and the substitution.
pub mod Order
pub mod Lookup
use proot.Prelude.{
  ℕ, zero, suc, ◌+◌, Bool, true, false, not, ◌&&◌, ◌||◌, Option, none, some, List, [], ◌∷◌, ◌++◌,
  length, ◌==◌, if◌then◌else◌, Errno, enoent, eacces, Result, ok, err,
}
use proot.Path.{
  CString, slash, streq, FilePath, Side, guest, host, pending, Comparison, paths_are_equal,
  path1_is_prefix, path2_is_prefix, paths_are_not_comparable, compare_paths, compare_paths2,
  substitute_path_prefix,
}

-- `struct binding`. Its links are the lists that hold it: `address` is the pointer by which a
-- binding is found and removed in each. `must_exist` is never read.
pub record Binding : Type 0 where
  pub address : ℕ
  pub host : FilePath
  pub guest : FilePath
  pub need_substitution : Bool

-- The three lists of `FileSystemNameSpace`; `none` is a NULL pointer.
pub record Bindings : Type 0 where
  pub pending : Option (List Binding)
  pub guest : Option (List Binding)
  pub host : Option (List Binding)

-- HEAD(tracee, side); a NULL list is read as an empty one.
abbrev pub list_of : Option (List Binding) → List Binding
list_of none = []
list_of (some l) = l

abbrev pub head_of : Bindings → Side → List Binding
head_of bs guest = list_of bs.guest
head_of bs host = list_of bs.host
head_of bs pending = list_of bs.pending

abbrev pub set_head : Bindings → Side → List Binding → Bindings
set_head bs guest l = record bs { guest = some l }
set_head bs host l = record bs { host = some l }
set_head bs pending l = record bs { pending = some l }

-- The path of a binding that counts on a side.
abbrev pub ref : Side → Binding → FilePath
ref host b = b.host
ref guest b = b.guest
ref pending b = b.guest

abbrev pub reverse_ref : Side → Binding → FilePath
reverse_ref host b = b.guest
reverse_ref guest b = b.host
reverse_ref pending b = b.host

abbrev pub are_equal : Comparison → Bool
are_equal paths_are_equal = true
are_equal _ = false

-- `PATHS_ARE_EQUAL || PATH1_IS_PREFIX`
abbrev pub is_cover : Comparison → Bool
is_cover paths_are_equal = true
is_cover path1_is_prefix = true
is_cover _ = false

abbrev pub is_host : Side → Bool
is_host host = true
is_host _ = false

-- CIRCLEQ_LAST
abbrev pub last_of : List Binding → Option Binding
last_of [] = none
last_of (b ∷ []) = some b
last_of (b ∷ c ∷ l) = last_of (c ∷ l)

pending_root : Option Binding → Option CString
pending_root none = none
pending_root (some b) =
    if not (are_equal (compare_paths b.guest.path (slash ∷ []))) then none else some b.host.path

guest_root : Option Binding → Option CString
guest_root none = none
guest_root (some b) = if streq b.guest.path (slash ∷ []) then some b.host.path else none

-- `none` is NULL, or a failed assertion.
unfoldable pub get_root : Bindings → Option CString
unfolding pending_root guest_root
get_root bs = elim bs.guest [
  | none ↦ pending_root (last_of (list_of bs.pending))
  | some l ↦ guest_root (last_of l)
]

-- `compare_paths(get_root(tracee), path)`, which has to have a root.
abbrev pub compare_root : Option CString → CString → Comparison
compare_root none path = paths_are_not_comparable
compare_root (some root) path = compare_paths root path

unfoldable pub belongs_to_guestfs : Option CString → CString → Bool
belongs_to_guestfs root host_path = is_cover (compare_root root host_path)

-- The binding lies at or above the path.
unfoldable pub covers : Side → Binding → CString → Bool
covers side b path =
    is_cover (compare_paths2 (ref side b).path (ref side b).length path (length path))

-- The path is skipped although a binding covers it.
unfoldable pub is_false_positive : Option CString → Side → CString → Bool
unfolding belongs_to_guestfs
is_false_positive root side path =
    is_host side
    && (not (are_equal (compare_root root (slash ∷ []))) && belongs_to_guestfs root path)

-- The loop of `get_binding`.
unfoldable pub find_binding : Option CString → Side → CString → List Binding → Option Binding
find_binding root side path [] = none
find_binding root side path (b ∷ l) =
    let rest = find_binding root side path l in
    if not (covers side b path)
    then rest
    else if is_false_positive root side path
    then rest
    else some b

-- The path begins with "/", which an assertion checks. No binding is looked up among the pending ones: that is a failed assertion, and `none`.
unfoldable pub get_binding : Bindings → Side → CString → Option Binding
get_binding bs guest path = find_binding (get_root bs) guest path (list_of bs.guest)
get_binding bs host path = find_binding (get_root bs) host path (list_of bs.host)
get_binding bs pending path = none

unfoldable pub get_path_binding : Bindings → Side → CString → Option CString
get_path_binding bs side path = elim (get_binding bs side path) [
  | none ↦ none
  | some b ↦ some (ref side b).path
]

-- The status, 1 if a substitution was performed, beside the new content of `path`. The length that
-- `substitute_path_prefix` returns is dropped, as in the code.
substitute_found : Side → Option Binding → CString → Result (ℕ × CString)
substitute_found side none path = err enoent
substitute_found side (some b) path =
    if not b.need_substitution
    then ok (0, path)
    else ok (
      1,
      (substitute_path_prefix path (ref side b).length (reverse_ref side b).path
          (reverse_ref side b).length).1,
    )

unfoldable pub substitute_binding : Bindings → Side → CString → Result (ℕ × CString)
unfolding substitute_found
substitute_binding bs side path = substitute_found side (get_binding bs side path) path

-- CIRCLEQ_REMOVE by the pointer.
unfoldable pub remove_address : ℕ → List Binding → List Binding
remove_address a [] = []
remove_address a (b ∷ l) =
    let rest = remove_address a l in if b.address == a then rest else b ∷ rest

abbrev pub in_list : (List Binding → List Binding) → Option (List Binding) → Option (List Binding)
in_list f none = none
in_list f (some l) = some (f l)

-- A list in which the binding is not linked stays as it is.
unfoldable pub remove_binding_from_all_lists : Bindings → Binding → Bindings
unfolding remove_address
remove_binding_from_all_lists bs b = record {
  pending = in_list (remove_address b.address) bs.pending;
  guest = in_list (remove_address b.address) bs.guest;
  host = in_list (remove_address b.address) bs.host;
}

-- What the loop of `insort_binding` ends with: a binding to replace, or the places `previous` and
-- `next`, positions in the list.
pub data Place : Type 0 where
  replace : ℕ → Binding → Place
  insert : Option ℕ → Option ℕ → Place

abbrev pub compare_bindings : Side → Binding → Binding → Comparison
compare_bindings side b c =
    compare_paths2 (ref side b).path (ref side b).length (ref side c).path (ref side c).length

-- The loop, from position `i` on. `next` is already the first element when the loop begins.
unfoldable pub find_place : Side → Binding → Option ℕ → Option ℕ → ℕ → List Binding → Place
find_place side b previous next i [] = insert previous next
find_place side b previous next i (c ∷ l) = elim (compare_bindings side b c) [
  | paths_are_equal ↦
      (if is_host side then find_place side b (some i) next (i + 1) l else replace i c)
  | path1_is_prefix ↦ find_place side b (some i) next (i + 1) l
  | path2_is_prefix ↦
      find_place side b previous (elim next [ none ↦ some i | some n ↦ some n ]) (i + 1) l
  | paths_are_not_comparable ↦ find_place side b previous next (i + 1) l
]

-- CIRCLEQ_INSERT_AFTER and CIRCLEQ_INSERT_BEFORE the element at a position.
unfoldable pub insert_after : List Binding → ℕ → Binding → List Binding
insert_after [] i b = b ∷ []
insert_after (c ∷ l) zero b = c ∷ b ∷ l
insert_after (c ∷ l) (suc i) b = c ∷ insert_after l i b

unfoldable pub insert_before : List Binding → ℕ → Binding → List Binding
insert_before [] i b = b ∷ []
insert_before (c ∷ l) zero b = b ∷ c ∷ l
insert_before (c ∷ l) (suc i) b = c ∷ insert_before l i b

unfoldable pub put_at : Place → Binding → List Binding → List Binding
unfolding insert_after insert_before
put_at (replace i c) b l = insert_after l i b
put_at (insert (some i) next) b l = insert_after l i b
put_at (insert none (some i)) b l = insert_before l i b
put_at (insert none none) b l = b ∷ l

abbrev first_position : List Binding → Option ℕ
first_position [] = none
first_position (b ∷ l) = some 0

unfoldable pub place_of : Side → Binding → List Binding → Place
place_of side b l = find_place side b none (first_position l) 0 l

unfoldable pub drop_replaced : Place → Bindings → Bindings
drop_replaced (replace i c) bs = remove_binding_from_all_lists bs c
drop_replaced (insert previous next) bs = bs

unfoldable pub insort_binding : Bindings → Side → Binding → Bindings
insort_binding bs side b =
    let place = place_of side b (head_of bs side) in
    drop_replaced place (set_head bs side (put_at place b (head_of bs side)))

unfoldable pub insort_binding2 : Bindings → Binding → Bindings
insort_binding2 bs b =
    let b' = record b {
      need_substitution = not (are_equal (compare_paths b.host.path b.guest.path));
    } in
    insort_binding (insort_binding bs guest b') host b'

-- `address` is what the allocator returns for the new binding.
unfoldable pub insort_binding3 : Bindings → ℕ → CString → CString → Bindings
insort_binding3 bs address host_path guest_path = insort_binding2 bs (record {
  address = address;
  host = record { path = host_path; length = length host_path };
  guest = record { path = guest_path; length = length guest_path };
  need_substitution = false;
})
