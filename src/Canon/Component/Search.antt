-- ===== src/Canon/Component/Search.antt =====
-- The two loops of `pop_component` of src/path/canon.c that search backwards for a separator.
use proot.Prelude.{
  ℕ, zero, suc, ◌+◌, ◌<◌, ◌≤◌, ◌≡◌, ◌≢◌, ap, ◌∙◌, ◌⊎◌, inl, inr, [], ◌∷◌, ◌++◌, length, arith, All,
}
use native.Mathlib.Decide.{dec_lt}
use proot.Path.{CString, slash, char_at}
use proot.Canon.{skip_separators, find_separator}

-- The name of a file: bytes that are not separators.
abbrev pub IsName : CString → Type 0
IsName = All (λ c. c ≢ slash)

pub char_at-behind : (p r : CString) (k i : ℕ) → k ≡ length p + i → char_at (p ++ r) k ≡ char_at r i
char_at-behind [] r k i e = ap (λ t. char_at r t) (let f : k ≡ i = omega arith in f)
char_at-behind (c ∷ p) r zero i e = absurd (omega arith)
char_at-behind (c ∷ p) r (suc k) i e = char_at-behind p r k i (omega arith)

pub name-char :
    (name z : CString) (i : ℕ) → IsName name → i < length name → char_at (name ++ z) i ≢ slash
name-char [] z i h k e = absurd (omega arith)
name-char (c ∷ name) z zero h k e = h.0 e
name-char (c ∷ name) z (suc i) h k e = name-char name z i h.1 (omega arith) e

pub separators-char :
    (z : CString) (i : ℕ) → All (λ c. c ≡ slash) z → i < length z → char_at z i ≡ slash
separators-char [] i h k = absurd (omega arith)
separators-char (c ∷ z) zero h k = h.0
separators-char (c ∷ z) (suc i) h k = separators-char z i h.1 (omega arith)

-- From inside the last name, the search stops at the separator in front of it, or at offset 1.
pub find_separator_lem :
    (path : CString) (t k : ℕ)
    → (t ≡ 1) ⊎ (char_at path t ≡ slash)
    → ((i : ℕ) → t < i → i ≤ k → char_at path i ≢ slash)
    → 1 ≤ t
    → t ≤ k
    → find_separator path k ≡ t
unfolding find_separator
find_separator_lem path t zero at_t none_between pos le = omega arith
find_separator_lem path t (suc k) at_t none_between pos le = elim (dec_lt t (suc k)) [
  | yes more ↦ ground (
    arith,
    none_between (suc k) more (omega arith),
    find_separator_lem path t k at_t (λ i b c. none_between i b (omega arith)) pos (omega arith),
  )
  | no same ↦
      let here : t ≡ suc k = omega arith in
      elim at_t [
        | inl one ↦ ground (arith, here, one)
        | inr found ↦ let f = rw here at found in ground (arith, here, f)
      ]
]

-- Behind the last name, the separators are skipped down to its last byte.
pub skip_separators_lem :
    (path : CString) (t k : ℕ)
    → char_at path t ≢ slash
    → ((i : ℕ) → t < i → i ≤ k → char_at path i ≡ slash)
    → 1 ≤ t
    → t ≤ k
    → skip_separators path k ≡ t
unfolding skip_separators
skip_separators_lem path t zero at_t all_between pos le = omega arith
skip_separators_lem path t (suc k) at_t all_between pos le = elim (dec_lt t (suc k)) [
  | yes more ↦ ground (
    arith,
    all_between (suc k) more (omega arith),
    skip_separators_lem path t k at_t (λ i b c. all_between i b (omega arith)) pos (omega arith),
  )
  | no same ↦
      let here : t ≡ suc k = omega arith in
      let stop : char_at path (suc k) ≢ slash = λ e. at_t (ap (char_at path) here ∙ e) in
      ground (arith, here, stop)
]

-- Of separators only, the first two are left.
pub skip_separators-all :
    (path : CString) (k : ℕ)
    → ((i : ℕ) → i ≤ suc k → char_at path i ≡ slash)
    → skip_separators path (suc k) ≡ 1
unfolding skip_separators
skip_separators-all path zero h = ground arith
skip_separators-all path (suc k) h =
    ground
      (arith, h (suc (suc k)) (omega arith), skip_separators-all path k (λ i b. h i (omega arith)))
