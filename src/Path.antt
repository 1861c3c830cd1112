-- ===== src/Path.antt =====
-- src/path/path.c and src/path/path.h: strings, the comparison of paths, and the functions that
-- join, trim and rebase them.
pub mod Join
pub mod Compare
pub mod Substitute
use proot.Prelude.{
  ℕ, zero, suc, ◌+◌, ◌-◌, ◌%◌, ◌^◌, Bool, true, false, not, ◌&&◌, ◌||◌, Option, none, some, List,
  [], ◌∷◌, ◌++◌, length, get_or, take, drop, ltb, leb, ◌==◌, if◌then◌else◌, Errno, enametoolong,
  Result, ok, err, ◌>>=◌, All, ◌<◌,
}

-- The bytes of a C string in front of its terminating NUL.
abbrev pub CString : Type 0
CString = List ℕ

-- `path_max` counts the terminating NUL, as PATH_MAX of <limits.h> does.
abbrev pub path_max : ℕ
path_max = 4096

abbrev pub slash : ℕ
slash = b'/'

abbrev pub dot : ℕ
dot = b'.'

-- No byte of a C string is NUL.
abbrev pub IsCString : CString → Type 0
IsCString = All (λ c. 0 < c)

-- `s[i]`; the byte behind the last one is the NUL.
abbrev pub char_at : CString → ℕ → ℕ
char_at s i = get_or s i 0

-- strcmp(a, b) == 0
abbrev pub streq : CString → CString → Bool
streq [] [] = true
streq [] (d ∷ b) = false
streq (c ∷ a) [] = false
streq (c ∷ a) (d ∷ b) = (c == d) && streq a b

-- strncmp(a, b, n) == 0: the end of a string compares as a NUL.
abbrev pub strneq : CString → CString → ℕ → Bool
strneq a b zero = true
strneq [] [] (suc n) = true
strneq [] (d ∷ b) (suc n) = false
strneq (c ∷ a) [] (suc n) = false
strneq (c ∷ a) (d ∷ b) (suc n) = (c == d) && strneq a b n

pub data Side : Type 0 where
  guest host pending : Side

pub data Finality : Type 0 where
  not_final final_normal final_slash final_dot : Finality

pub data Comparison : Type 0 where
  paths_are_equal path1_is_prefix path2_is_prefix paths_are_not_comparable : Comparison

-- `struct Path`: a path beside its cached length. `side` is never read.
pub record FilePath : Type 0 where
  pub path : CString
  pub length : ℕ

abbrev pub is_final : Finality → Bool
is_final not_final = false
is_final _ = true

-- The last byte of the buffer is a separator (`length > 0 && result[length - 1] == '/'`).
abbrev pub ends_with_slash : CString → Bool
ends_with_slash s = ltb 0 (length s) && (char_at s (length s - 1) == slash)

-- One round of the loop of `join_paths`: `path` is appended to `result`.
unfoldable pub join_step : CString → CString → Result CString
join_step result path =
    if ltb 0 (length result) && (not (ends_with_slash result) && not (char_at path 0 == slash))
    then (if leb path_max (length result + length path + 1 + 1)
        then err enametoolong
        else ok (result ++ slash ∷ path))
    else if ends_with_slash result && (char_at path 0 == slash)
    then (if leb path_max (length result + length path - 1 + 1)
        then err enametoolong
        else ok (result ++ drop 1 path))
    else if leb path_max (length result + length path + 1)
    then err enametoolong
    else ok (result ++ path)

-- The variadic loop; `none` is a NULL argument, which is skipped.
unfoldable pub join_from : CString → List (Option CString) → Result CString
join_from result [] = ok result
join_from result (none ∷ paths) = join_from result paths
join_from result (some path ∷ paths) = join_step result path >>= λ r. join_from r paths

-- The partial result that an error leaves in the buffer is read by no caller.
unfoldable pub join_paths : List (Option CString) → Result CString
unfolding join_from
join_paths paths = join_from [] paths

-- `none` is a failed assertion.
unfoldable pub chop_finality : CString → Option CString
chop_finality path =
    let n = length path in
    if char_at path (n - 1) == dot
    then (if ltb n 2
        then none
        else if n == 2
        then some (take (n - 1) path)
        else some (take (n - 2) path))
    else if char_at path (n - 1) == slash
    then (if ltb 1 n then some (take (n - 1) path) else some path)
    else some path

-- `length--` at a trailing separator.
abbrev pub trimmed_length : CString → ℕ → ℕ
trimmed_length path n = if char_at path (n - 1) == slash then n - 1 else n

-- The part of `compare_paths2` behind the removal of trailing separators.
unfoldable pub compare_trimmed : CString → ℕ → CString → ℕ → Comparison
compare_trimmed path1 length1 path2 length2 =
    let length_min = if ltb length1 length2 then length1 else length2 in
    let sentinel =
      if ltb length1 length2 then char_at path2 length_min else char_at path1 length_min in
    if not (sentinel == slash) && not (sentinel == 0)
    then paths_are_not_comparable
    else if not (strneq path1 path2 length_min)
    then paths_are_not_comparable
    else if length1 == length2
    then paths_are_equal
    else if ltb length1 length2
    then path1_is_prefix
    else path2_is_prefix

-- The two assertions that stand in front are the test on the lengths again.
unfoldable pub compare_paths2 : CString → ℕ → CString → ℕ → Comparison
compare_paths2 path1 length1 path2 length2 =
    if (length1 == 0) || (length2 == 0)
    then paths_are_not_comparable
    else compare_trimmed path1 (trimmed_length path1 length1) path2 (trimmed_length path2 length2)

unfoldable pub compare_paths : CString → CString → Comparison
compare_paths path1 path2 = compare_paths2 path1 (length path1) path2 (length path2)

-- (size_t) -ENAMETOOLONG
abbrev pub size_enametoolong : ℕ
size_enametoolong = 2 ^ 64 - 36

-- The returned length beside the new content of `path`. The lengths are those of a prefix of the
-- path, and of the new prefix.
unfoldable pub substitute_path_prefix : CString → ℕ → CString → ℕ → ℕ × CString
substitute_path_prefix path old_prefix_length new_prefix new_prefix_length =
    let path_length = length path in
    if new_prefix_length == 1
    then (let new_length = (path_length + 2 ^ 64 - old_prefix_length) % 2 ^ 64 in
        if new_length == 0
        then (1, slash ∷ [])
        else (new_length, take new_length (drop old_prefix_length path)))
    else if old_prefix_length == 1
    then (let new_length = new_prefix_length + path_length in
        if leb path_max new_length
        then (size_enametoolong, path)
        else if ltb 1 path_length
        then (new_length, take new_prefix_length new_prefix ++ path)
        else (new_prefix_length, take new_prefix_length new_prefix))
    else let new_length = (path_length + 2 ^ 64 - old_prefix_length + new_prefix_length) % 2 ^ 64 in
      if leb path_max new_length
      then (size_enametoolong, path)
      else (new_length, take new_prefix_length new_prefix ++ drop old_prefix_length path)
