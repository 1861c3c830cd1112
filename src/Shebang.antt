-- ===== src/Shebang.antt =====
-- `extract_shebang` of src/execve/shebang.c: the line "#!interpreter argument" of a script.
pub mod Line
use proot.Prelude.{
  ℕ, zero, suc, ◌+◌, ◌-◌, Bool, true, false, not, ◌&&◌, ◌||◌, Option, none, some, List, [], ◌∷◌,
  ◌++◌, length, get_or, ltb, ◌==◌, if◌then◌else◌, Errno, enoexec, Result, ok, err, ◌>>=◌,
}
use proot.Path.{CString}

-- A file that is read byte by byte: its bytes, and the error number of the read(2) behind them, or
-- `none` if that is the end of the file.
pub record Input : Type 0 where
  pub bytes : List ℕ
  pub failure : Option Errno

-- What was extracted: nothing, with the status 0, or the path of the interpreter and its argument.
pub data Shebang : Type 0 where
  not_a_script : Shebang
  script : CString → CString → Shebang

abbrev pub space : ℕ
space = b' '

abbrev pub tab : ℕ
tab = 9

abbrev pub newline : ℕ
newline = 10

abbrev pub carriage_return : ℕ
carriage_return = 13

abbrev pub is_blank : ℕ → Bool
is_blank c = (c == space) || (c == tab)

abbrev pub is_end_of_line : ℕ → Bool
is_end_of_line c = (c == newline) || (c == carriage_return)

-- The string in a buffer: the bytes in front of the first NUL.
abbrev pub up_to_nul : List ℕ → CString
up_to_nul [] = []
up_to_nul (c ∷ b) = if c == 0 then [] else c ∷ up_to_nul b

-- `buffer[i - 1] == '\0'`, where the bytes up to `i` are written.
abbrev pub last_is_nul : List ℕ → Bool
last_is_nul buffer = get_or buffer (length buffer - 1) 1 == 0

-- There is an argument if the previous byte was a space behind the path.
abbrev pub begins_argument : List ℕ → Bool
begins_argument buffer = ltb 1 (length buffer) && last_is_nul buffer

-- The byte that is written to `user_path[i]`.
abbrev pub path_byte : ℕ → ℕ
path_byte tmp = if is_blank tmp then 0 else tmp

-- The loop that removes trailing spaces, down to the byte at 1.
abbrev pub trim_step : ℕ → List ℕ → List ℕ
trim_step c [] = if is_blank c then [] else c ∷ []
trim_step c (d ∷ r) = c ∷ d ∷ r

abbrev pub trim_all : List ℕ → List ℕ
trim_all [] = []
trim_all (c ∷ b) = trim_step c (trim_all b)

unfoldable pub trim_blanks : List ℕ → List ℕ
trim_blanks [] = []
trim_blanks (c ∷ b) = c ∷ trim_all b

abbrev pub at_end {ℓ} : {A : Type ℓ} → Option Errno → A → Result A
at_end none a = ok a
at_end (some e) a = err e

module _ (binprm_buf_size : ℕ) (failure : Option Errno) where
  -- The do-while loop: the first byte that is no space, what follows it, and `current_length`.
  unfoldable pub skip_spaces : List ℕ → ℕ → Result (ℕ × List ℕ × ℕ)
  skip_spaces [] n = elim failure [ none ↦ err enoexec | some e ↦ err e ]
  skip_spaces (c ∷ rest) n =
      let again = skip_spaces rest (n + 1) in
      if is_blank c && ltb (n + 1) binprm_buf_size then again else ok (c, rest, n + 1)

  -- The loop behind the label `argument`; `tmp` is the byte at hand, and `rest` follows it.
  unfoldable pub slurp_argument : CString → ℕ → List ℕ → ℕ → List ℕ → Result Shebang
  slurp_argument path n buffer tmp [] =
      if not (ltb n binprm_buf_size)
      then ok (script path (up_to_nul buffer))
      else if is_end_of_line tmp
      then ok (script path (up_to_nul (trim_blanks buffer)))
      else at_end failure (script path [])
  slurp_argument path n buffer tmp (c ∷ rest) =
      let again = slurp_argument path (n + 1) (buffer ++ tmp ∷ []) c rest in
      if not (ltb n binprm_buf_size)
      then ok (script path (up_to_nul buffer))
      else if is_end_of_line tmp
      then ok (script path (up_to_nul (trim_blanks buffer)))
      else again

  -- The loop over the path of the interpreter. At the end of the file a NUL is put over the byte
  -- that was written last.
  unfoldable pub slurp_path : ℕ → List ℕ → ℕ → List ℕ → Result Shebang
  slurp_path n buffer tmp [] =
      if not (ltb n binprm_buf_size)
      then ok (script (up_to_nul buffer) [])
      else if is_end_of_line tmp
      then ok (script (up_to_nul buffer) [])
      else if not (is_blank tmp) && begins_argument buffer
      then slurp_argument (up_to_nul buffer) n [] tmp []
      else at_end failure (script (up_to_nul buffer) [])
  slurp_path n buffer tmp (c ∷ rest) =
      let again = slurp_path (n + 1) (buffer ++ path_byte tmp ∷ []) c rest in
      if not (ltb n binprm_buf_size)
      then ok (script (up_to_nul buffer) [])
      else if is_end_of_line tmp
      then ok (script (up_to_nul buffer) [])
      else if not (is_blank tmp) && begins_argument buffer
      then slurp_argument (up_to_nul buffer) n [] tmp (c ∷ rest)
      else again

  -- Behind the two bytes of the magic number.
  unfoldable pub read_line : List ℕ → Result Shebang
  read_line bytes = skip_spaces bytes 2 >>= λ s. slurp_path s.2 [] s.0 s.1

-- The test on the magic number.
unfoldable pub read_magic : ℕ → Option Errno → List ℕ → Result Shebang
read_magic binprm_buf_size failure [] = at_end failure not_a_script
read_magic binprm_buf_size failure (a ∷ []) = ok not_a_script
read_magic binprm_buf_size failure (a ∷ b ∷ bytes) =
    if not (a == b'#') || not (b == b'!')
    then ok not_a_script
    else read_line binprm_buf_size failure bytes

-- `file` is what open(2) gives. Of a file with a single byte the first read(2) is short.
unfoldable pub extract_shebang : ℕ → Result Input → Result Shebang
extract_shebang binprm_buf_size (err e) = err e
extract_shebang binprm_buf_size (ok file) = read_magic binprm_buf_size file.failure file.bytes
