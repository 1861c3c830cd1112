-- ===== src/Shebang/Line.antt =====
-- What `extract_shebang` of src/execve/shebang.c makes of the first line of a script.
use proot.Prelude.{
  ℕ, zero, suc, ◌+◌, ◌-◌, ◌<◌, ◌≡◌, refl, ◌∙◌, ◌⊎◌, inl, inr, true, false, List, [], ◌∷◌, ◌++◌,
  Option, none, length, get_or, arith, All, Errno, ok, All-append,
}
use mathlib.Core.List.{append_assoc}
use proot.Path.{IsCString}
use proot.Shebang.{
  script, is_blank, is_end_of_line, up_to_nul, last_is_nul, skip_spaces, slurp_path, path_byte,
  read_line, read_magic, extract_shebang, newline,
}

abbrev pub IsBlank : ℕ → Type 0
IsBlank c = is_blank c ≡ true

-- A byte that can stand in a name of the interpreter.
abbrev pub IsPlain : ℕ → Type 0
IsPlain c = (is_blank c ≡ false) × (is_end_of_line c ≡ false) × (0 < c)

-- A byte that can stand in an argument.
abbrev pub IsText : ℕ → Type 0
IsText c = (is_end_of_line c ≡ false) × (0 < c)

get_or-pos : (b : List ℕ) (i d : ℕ) → IsCString b → 0 < d → 0 < get_or b i d
get_or-pos [] i d h p = p
get_or-pos (c ∷ b) zero d h p = h.0
get_or-pos (c ∷ b) (suc i) d h p = get_or-pos b i d h.1 p

begins_argument-not : (b : List ℕ) → IsCString b → last_is_nul b ≡ false
begins_argument-not b h = let p = get_or-pos b (length b - 1) 1 h (omega arith) in ground arith

up_to_nul-all : (b r : List ℕ) → IsCString b → up_to_nul (b ++ 0 ∷ r) ≡ b
up_to_nul-all [] r h = refl
up_to_nul-all (c ∷ b) r h = ground (arith, up_to_nul-all b r h.1)

up_to_nul-same : (b : List ℕ) → IsCString b → up_to_nul b ≡ b
up_to_nul-same [] h = refl
up_to_nul-same (c ∷ b) h = ground (arith, up_to_nul-same b h.1)

Plain-IsCString : (l : List ℕ) → All IsPlain l → IsCString l
Plain-IsCString [] h = tt
Plain-IsCString (c ∷ l) h = (h.0.2, Plain-IsCString l h.1)

module _ (size : ℕ) (failure : Option Errno) where
  skip_spaces-blanks :
      (pre : List ℕ) (c : ℕ) (rest : List ℕ) (n : ℕ)
      → All IsBlank pre
      → is_blank c ≡ false
      → n + length pre < size
      → skip_spaces size failure (pre ++ c ∷ rest) n ≡ ok (c, rest, n + length pre + 1)
  unfolding skip_spaces
  skip_spaces-blanks [] c rest n h b fits = ground arith
  skip_spaces-blanks (d ∷ pre) c rest n h b fits =
      ground (arith, skip_spaces-blanks pre c rest (n + 1) h.1 b (omega arith))

  slurp_path-step :
      (n : ℕ) (buffer : List ℕ) (c d : ℕ) (rest : List ℕ)
      → n < size
      → is_end_of_line c ≡ false
      → (is_blank c ≡ true) ⊎ (last_is_nul buffer ≡ false)
      → slurp_path size failure n buffer c (d ∷ rest)
        ≡ slurp_path size failure (n + 1) (buffer ++ path_byte c ∷ []) d rest
  unfolding slurp_path
  slurp_path-step n buffer c d rest fits e (inl b) = ground arith
  slurp_path-step n buffer c d rest fits e (inr b) = ground arith

  slurp_path-name :
      (name : List ℕ) (c d : ℕ) (rest buffer : List ℕ) (n : ℕ)
      → All IsPlain (c ∷ name)
      → IsCString buffer
      → n + length name < size
      → slurp_path size failure n buffer c (name ++ d ∷ rest)
        ≡ slurp_path size failure (n + length name + 1) (buffer ++ c ∷ name) d rest
  slurp_path-name [] c d rest buffer n h b fits =
      let p : path_byte c ≡ c = ground arith in
      let e : n + 0 + 1 ≡ n + 1 = omega arith in
      slurp_path-step n buffer c d rest (omega arith) h.0.1 (inr (begins_argument-not buffer b))
      ∙ (rw (p, e) refl)
  slurp_path-name (e ∷ name) c d rest buffer n h b fits =
      let p : path_byte c ≡ c = ground arith in
      let q : n + 1 + length name + 1 ≡ n + length (e ∷ name) + 1 = ground arith in
      let again =
        slurp_path-name name e d rest (buffer ++ c ∷ []) (n + 1) h.1
          (All-append (λ x. 0 < x) buffer (c ∷ []) b (h.0.2, tt)) (omega arith) in
      slurp_path-step n buffer c e (name ++ d ∷ rest) (omega arith) h.0.1
        (inr (begins_argument-not buffer b))
      ∙ (rw (p) (rw (again) (rw (q, append_assoc buffer (c ∷ []) (e ∷ name)) refl)))

  slurp_path-newline :
      (n : ℕ) (buffer more : List ℕ)
      → IsCString buffer
      → n < size
      → slurp_path size failure n buffer newline more ≡ ok (script buffer [])
  unfolding slurp_path
  slurp_path-newline n buffer [] h fits = let p = up_to_nul-same buffer h in ground arith
  slurp_path-newline n buffer (c ∷ more) h fits = let p = up_to_nul-same buffer h in ground arith

-- A script whose first line is "#!", blanks and the path of an interpreter starts that interpreter
-- without an argument, if the line fits in the buffer of the kernel.
pub shebang-no_argument :
    (size : ℕ) (failure : Option Errno) (pre : List ℕ) (c : ℕ) (name more : List ℕ)
    → All IsBlank pre
    → All IsPlain (c ∷ name)
    → length pre + length name + 4 < size
    → extract_shebang size (
        ok (record {
          bytes = b'#' ∷ b'!' ∷ (pre ++ c ∷ (name ++ newline ∷ more));
          failure = failure;
        }))
      ≡ ok (script (c ∷ name) [])
unfolding extract_shebang read_magic read_line
shebang-no_argument size failure pre c name more h k fits =
    let skip =
      skip_spaces-blanks size failure pre c (name ++ newline ∷ more) 2 h k.0.0 (omega arith) in
    let walk =
      slurp_path-name size failure name c newline more [] (2 + length pre + 1) k tt (omega arith) in
    rw (skip) (
      walk
      ∙ (slurp_path-newline size failure (2 + length pre + 1 + length name + 1) (c ∷ name) more
          (Plain-IsCString (c ∷ name) k) (omega arith)))

slurp_path-end :
    (size : ℕ) (n : ℕ) (buffer : List ℕ) (c : ℕ)
    → IsCString buffer
    → IsPlain c
    → n < size
    → slurp_path size none n buffer c [] ≡ ok (script buffer [])
unfolding slurp_path
slurp_path-end size n buffer c h k fits =
    let p = up_to_nul-same buffer h in let q = begins_argument-not buffer h in ground arith

-- If the file ends behind the path of the interpreter, without a newline, and fits in the buffer of
-- the kernel, the path loses its last byte.
pub shebang-no_newline :
    (size : ℕ) (pre : List ℕ) (c : ℕ) (name : List ℕ) (last : ℕ)
    → All IsBlank pre
    → All IsPlain (c ∷ name)
    → IsPlain last
    → length pre + length name + 4 < size
    → extract_shebang size
        (ok (record { bytes = b'#' ∷ b'!' ∷ (pre ++ c ∷ (name ++ last ∷ [])); failure = none }))
      ≡ ok (script (c ∷ name) [])
unfolding extract_shebang read_line read_magic
shebang-no_newline size pre c name last h k l fits =
    let skip = skip_spaces-blanks size none pre c (name ++ last ∷ []) 2 h k.0.0 (omega arith) in
    let walk =
      slurp_path-name size none name c last [] [] (2 + length pre + 1) k tt (omega arith) in
    rw (skip) (
      walk
      ∙ slurp_path-end size (2 + length pre + 1 + length name + 1) (c ∷ name) last
          (Plain-IsCString (c ∷ name) k) l (omega arith))

abbrev IsNul : ℕ → Type 0
IsNul c = c ≡ 0

-- The last byte of a text.
abbrev pub last_byte : ℕ → List ℕ → ℕ
last_byte d [] = d
last_byte d (c ∷ text) = last_byte c text
