-- ===== src/Canon.antt =====
-- src/path/canon.c, and the functions of src/path/path.c that call it or that it calls:
-- canonicalization of guest paths, translation to host paths and back.
pub mod Component
pub mod Absolute
use proot.Prelude.{
  ℕ, zero, suc, ◌+◌, ◌-◌, Bool, true, false, not, ◌&&◌, ◌||◌, Option, none, some, List, [], ◌∷◌,
  ◌++◌, length, take, drop, ltb, leb, ◌==◌, if◌then◌else◌, Errno, eperm, enoent, eacces, ebadf,
  enotdir, einval, eloop, enametoolong, assertion, no_fuel, Result, ok, err, ◌>>=◌,
}
use proot.Path.{
  CString, slash, dot, char_at, path_max, streq, Side, guest, host, Finality, not_final,
  final_normal, final_slash, final_dot, is_final, Comparison, paths_are_equal, path1_is_prefix,
  path2_is_prefix, paths_are_not_comparable, compare_paths, join_paths,
}
use proot.Binding.{
  Bindings, get_root, get_path_binding, belongs_to_guestfs, substitute_binding, compare_root,
  are_equal, is_cover,
}

-- NAME_MAX of <limits.h> and MAXSYMLINKS of <sys/param.h>.
abbrev pub name_max : ℕ
name_max = 255

abbrev pub max_symlinks : ℕ
max_symlinks = 20

abbrev pub slash_proc : CString
slash_proc = slash ∷ b'p' ∷ b'r' ∷ b'o' ∷ b'c' ∷ []

abbrev linkerconfig : CString
linkerconfig =
    slash ∷ b'l' ∷ b'i' ∷ b'n' ∷ b'k' ∷ b'e' ∷ b'r' ∷ b'c' ∷ b'o' ∷ b'n' ∷ b'f' ∷ b'i' ∷ b'g' ∷ []

-- The two loops of `pop_component` that go back from an offset.
unfoldable pub skip_separators : CString → ℕ → ℕ
skip_separators path zero = zero
skip_separators path (suc n) =
    if ltb 1 (suc n) && (char_at path (suc n) == slash) then skip_separators path n else suc n

unfoldable pub find_separator : CString → ℕ → ℕ
find_separator path zero = zero
find_separator path (suc n) =
    if ltb 1 (suc n) && not (char_at path (suc n) == slash) then find_separator path n else suc n

unfoldable pub pop_component : CString → Result CString
unfolding skip_separators find_separator
pop_component path =
    if length path == 0
    then err assertion
    else if length path == 1
    then (if char_at path 0 == slash then ok path else err assertion)
    else if char_at path 0 == slash
    then ok (take (find_separator path (skip_separators path (length path - 1))) path)
    else err assertion

-- `while (**cursor == '/') (*cursor)++`
unfoldable pub skip_slashes : CString → CString
skip_slashes [] = []
skip_slashes (c ∷ s) = if c == slash then skip_slashes s else c ∷ s

-- The bytes in front of the next separator, and what begins there.
unfoldable pub split_component : CString → CString × CString
split_component [] = ([], [])
split_component (c ∷ s) =
    let (name, rest) = split_component s in if c == slash then ([], c ∷ s) else (c ∷ name, rest)

abbrev pub finality_of : Bool → CString → Finality
finality_of want_dir [] = if want_dir then final_slash else final_normal
finality_of want_dir (c ∷ s) = not_final

-- The component, the cursor behind it, and the finality.
unfoldable pub next_component : CString → Result (CString × CString × Finality)
unfolding skip_slashes split_component
next_component cursor =
    let (name, rest) = split_component (skip_slashes cursor) in
    if leb name_max (length name)
    then err enametoolong
    else ok (name, skip_slashes rest, finality_of (char_at rest 0 == slash) (skip_slashes rest))

-- What `readlink_proc` says of a link under "/proc".
pub data Action : Type 0 where
  default : Action
  canonicalize_it dont_canonicalize : CString → Action
  failed : Errno → Action

-- The file types that matter here (`st_mode & S_IFMT`).
pub data Mode : Type 0 where
  directory link other_file : Mode

-- The kernel as the tracer sees it, the extensions, and the functions of src/path/proc.c and
-- src/path/f2fs-bug.c, which depend on the kernel only.
pub record Host : Type 0 where
  -- lstat(2); the mode of an existing file.
  pub lstat : CString → Result Mode
  -- readlink(2) into a buffer of PATH_MAX bytes; `none` is a failure.
  pub readlink : CString → Option CString
  -- readlink(2) of the entry of a descriptor under /proc/PID/fd.
  pub readlink_fd : ℕ → Option CString
  pub readlink_proc : CString → CString → Comparison → Action
  -- `none` where `readlink_proc2` returns 0.
  pub readlink_proc2 : CString → CString → Result (Option CString)
  pub skip_due_to_f2fs_bug : CString → Bool
  -- notify_extensions with HOST_PATH, GUEST_PATH and TRANSLATED_PATH: the path that they leave. For
  -- GUEST_PATH also whether the status is positive.
  pub notify_host_path : CString → Bool → Result CString
  pub notify_guest_path : CString → CString → Result (Bool × CString)
  pub notify_translated_path : CString → Result CString

abbrev is_linkerconfig : CString → Bool
is_linkerconfig path = streq path linkerconfig

-- What `lstat` says in the end: `none` is a failure.
abbrev mode_of : Result Mode → CString → Option Mode
mode_of (ok m) path = some m
mode_of (err eacces) path = if is_linkerconfig path then some directory else none
mode_of (err e) path = none

-- The last two tests of `substitute_binding_stat`.
unfoldable pub check_mode : Finality → Option Mode → Result Bool
check_mode finality none = if not (is_final finality) then err enoent else ok false
check_mode finality (some directory) = ok false
check_mode finality (some link) = ok true
check_mode finality (some other_file) = if not (is_final finality) then err enotdir else ok false

-- `getcwd2`, for a tracee.
unfoldable pub getcwd2 : CString → Result CString
getcwd2 cwd = if leb path_max (length cwd) then err enametoolong else ok cwd

-- What a round of the loop of `canonicalize` ends with: the next round with a new guest path and
-- finality, or an early return of 0.
pub data Round : Type 0 where
  next : CString → Finality → Round
  return : CString → Round

-- The two paths that are joined: `strcpy(scratch, a); join_paths(2, a, scratch, b)`.
abbrev pub join : CString → CString → Result CString
join a b = join_paths (some a ∷ some b ∷ [])

-- The root is cut off, if the path lies in it; `sanity_check` is for a path outside.
unfoldable pub remove_root : Bool → Option CString → CString → Result CString
remove_root sanity_check none path = if sanity_check then err eperm else ok path
remove_root sanity_check (some root) path = elim (compare_paths root path) [
  | path1_is_prefix ↦ ok (if length root == 1 then path else drop (length root) path)
  | paths_are_equal ↦ ok (slash ∷ [])
  | path2_is_prefix ↦ if sanity_check then err eperm else ok path
  | paths_are_not_comparable ↦ if sanity_check then err eperm else ok path
]

-- Whether a link and its target belong to the same binding. `none` is a failed assertion.
unfoldable pub same_binding : Option CString → Option CString → Option Bool
same_binding referree none = none
same_binding none (some referrer) = some false
same_binding (some referree) (some referrer) = some (are_equal (compare_paths referree referrer))

-- Whether the component is joined as it is.
unfoldable pub is_kept : Bool → Bool → Finality → Bool
is_kept is_link deref_final final_normal = not is_link || not deref_final
is_kept is_link deref_final finality = not is_link

-- The end of `canonicalize`, behind the loop.
unfoldable pub finish : ℕ → CString → Finality → Result CString
finish level guest_path not_final = if level == 0 then err assertion else ok guest_path
finish level guest_path final_normal = ok guest_path
finish level guest_path final_slash = if level == 0 then join guest_path [] else ok guest_path
finish level guest_path final_dot = if level == 0 then join guest_path (dot ∷ []) else ok guest_path

module _ (h : Host) (bs : Bindings) where
  -- A failure of readlink(2) is EBADF. Formatting the name of the link cannot fail: it fits.
  unfoldable pub readlink_proc_pid_fd : ℕ → Result CString
  readlink_proc_pid_fd fd = elim (h.readlink_fd fd) [
    | none ↦ err ebadf
    | some path ↦ if leb path_max (length path) then err enametoolong else ok path
  ]

  -- Whether it is a link, and the host path. For a tracee whose `glue_type` is 0, as outside of the
  -- initialization of a binding.
  unfoldable pub substitute_binding_stat : Finality → ℕ → CString → Result (Bool × CString)
  substitute_binding_stat finality level guest_path =
      substitute_binding bs guest guest_path >>= λ s.
      h.notify_host_path s.1 (is_final finality && (level == 0)) >>= λ host_path.
      check_mode finality
        (if h.skip_due_to_f2fs_bug host_path then none else mode_of (h.lstat host_path) host_path)
      >>= λ is_link. ok (is_link, host_path)

  -- `follow_binding`, and then the removal of the root.
  unfoldable pub follow_and_remove : Bool → Bool → CString → Result CString
  follow_and_remove follow_binding sanity_check path =
      let rest = remove_root sanity_check (get_root bs) path in
      if follow_binding
      then elim (substitute_binding bs host path) [ ok s ↦ ok s.1 | err e ↦ rest ]
      else rest

  -- `detranslate_path` for the target of a link.
  unfoldable pub detranslate_target : CString → CString → Result CString
  detranslate_target path referrer = elim (compare_paths slash_proc referrer) [
    | path1_is_prefix ↦
        h.readlink_proc2 path referrer
        >>= elim [ some target ↦ ok target | none ↦ follow_and_remove true false path ]
    | _ ↦
        if not (belongs_to_guestfs (get_root bs) referrer)
        then elim (same_binding (get_path_binding bs host path)
            (get_path_binding bs host referrer)) [
              | none ↦ err assertion
              | some follow ↦ follow_and_remove follow false path
            ]
        else follow_and_remove false false path
  ]

  -- The new content of `path`; `none` as the referrer is NULL.
  unfoldable pub detranslate_path : CString → Option CString → Result CString
  detranslate_path path referrer =
      if leb path_max (length path)
      then err enametoolong
      else if not (char_at path 0 == slash)
      then ok path
      else elim referrer [
        | none ↦ follow_and_remove true true path
        | some r ↦ detranslate_target path r
      ]

  module _ (canonicalize_referee : CString → CString → Result CString) (level : ℕ) where
    -- From the label `canon` on.
    unfoldable pub canon_referee : CString → CString → Finality → Result Round
    canon_referee scratch_path guest_path finality =
        canonicalize_referee scratch_path guest_path >>= λ g.
        substitute_binding_stat finality level g >>= λ _. ok (next g finality)

    -- The target of the link, with the test on its length.
    unfoldable pub read_target : Option CString → CString → CString → Finality → Result Round
    read_target none host_path guest_path finality = err eperm
    read_target (some target) host_path guest_path finality =
        if length target == path_max
        then err enametoolong
        else detranslate_path target (some host_path) >>= λ scratch_path.
            canon_referee scratch_path guest_path finality

    -- readlink(2), a failure of which is the status -1.
    unfoldable pub read_referee : CString → CString → Finality → Result Round
    read_referee host_path guest_path finality =
        read_target (h.readlink host_path) host_path guest_path finality

    unfoldable pub perform : Action → CString → CString → Finality → Result Round
    perform default host_path guest_path finality = read_referee host_path guest_path finality
    perform (canonicalize_it scratch_path) host_path guest_path finality =
        canon_referee scratch_path guest_path finality
    perform (dont_canonicalize scratch_path) host_path guest_path final_normal =
        ok (return scratch_path)
    perform (dont_canonicalize scratch_path) host_path guest_path finality =
        read_referee host_path guest_path finality
    perform (failed e) host_path guest_path finality = err e

    -- A link that has to be dereferenced.
    unfoldable pub dereference : CString → CString → CString → Finality → Result Round
    dereference host_path guest_path component finality =
        let comparison = compare_paths slash_proc guest_path in
        perform
          (if is_cover comparison then h.readlink_proc guest_path component comparison else default)
          host_path guest_path finality

    -- A component that is neither "." nor "..".
    unfoldable pub enter : Bool → CString → CString → Finality → Result Round
    enter deref_final guest_path component finality = join guest_path component >>= λ scratch_path.
        substitute_binding_stat finality level scratch_path >>= λ s.
        if is_kept s.0 deref_final finality
        then (join guest_path component >>= λ g. ok (next g finality))
        else dereference s.1 guest_path component finality

    unfoldable pub round : Bool → CString → CString → Finality → Result Round
    round deref_final guest_path component finality =
        if streq component (dot ∷ [])
        then ok (next guest_path (if is_final finality then final_dot else finality))
        else if streq component (dot ∷ dot ∷ [])
        then (pop_component guest_path >>= λ g.
            ok (next g (if is_final finality then final_slash else finality)))
        else enter deref_final guest_path component finality

    -- What follows a round: the next one, unless that was the last.
    unfoldable pub continue : (CString → Result CString) → Result Round → Result CString
    continue again (err e) = err e
    continue again (ok (return g)) = ok g
    continue again (ok (next g finality)) =
        if is_final finality then finish level g finality else again g

    -- The loop. The fuel is more than the bytes that are left.
    unfoldable pub canonicalize_loop : ℕ → Bool → CString → CString → Result CString
    canonicalize_loop zero deref_final guest_path cursor = err no_fuel
    canonicalize_loop (suc fuel) deref_final guest_path cursor = next_component cursor >>= λ n.
        continue (λ g. canonicalize_loop fuel deref_final g n.1)
          (round deref_final guest_path n.0 n.2)

  -- `left` is what the recursion level is short of `max_symlinks + 1`, so that it falls.
  unfoldable pub canonicalize_from : ℕ → ℕ → CString → Bool → CString → Result CString
  canonicalize_from zero level user_path deref_final guest_path = err eloop
  canonicalize_from (suc left) level user_path deref_final guest_path =
      if leb path_max (length guest_path)
      then err enametoolong
      else if not (char_at user_path 0 == slash) && not (char_at guest_path 0 == slash)
      then err einval
      else canonicalize_loop (λ u g. canonicalize_from left (suc level) u true g) level
          (suc (length user_path)) deref_final
          (if char_at user_path 0 == slash then slash ∷ [] else guest_path) user_path

  -- `canonicalize` at the recursion level 0.
  unfoldable pub canonicalize : CString → Bool → CString → Result CString
  canonicalize user_path deref_final guest_path =
      canonicalize_from (suc max_symlinks) 0 user_path deref_final guest_path

  -- The base of a path in `translate_path`; `none` as descriptor is AT_FDCWD.
  unfoldable pub base_path : CString → Option ℕ → CString → Result CString
  base_path cwd dir_fd user_path =
      if char_at user_path 0 == slash then ok (slash ∷ []) else elim dir_fd [
        | none ↦ getcwd2 cwd
        | some fd ↦ readlink_proc_pid_fd fd >>= λ base.
            if not (char_at base 0 == slash) then err enotdir else detranslate_path base none
      ]

  -- The part of `translate_path` that GUEST_PATH can skip.
  unfoldable pub translate_joined : CString → CString → Bool → Result CString
  translate_joined base user_path deref_final =
      if not (char_at base 0 == slash)
      then err assertion
      else join base user_path >>= λ guest_path.
          canonicalize guest_path deref_final (slash ∷ []) >>= λ result.
          substitute_binding bs guest result >>= λ s. ok s.1

  unfoldable pub translate_path : CString → Option ℕ → CString → Bool → Result CString
  translate_path cwd dir_fd user_path deref_final = base_path cwd dir_fd user_path >>= λ base.
      h.notify_guest_path base user_path >>= λ g.
      (if g.0 then ok g.1 else translate_joined g.1 user_path deref_final) >>= λ result.
      h.notify_translated_path result
