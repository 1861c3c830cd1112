-- ===== src/Mem/Read.antt =====
-- Reading the memory of a tracee: what is read are its bytes, by either way.
use proot.Prelude.{
  ℕ, zero, suc, ◌+◌, ◌*◌, ◌/◌, ◌%◌, ◌≤◌, ◌≡◌, refl, ap, sym, ◌∙◌, inl, inr, true, false, List, [],
  ◌∷◌, ◌++◌, none, some, take, ◌==◌, if◌then◌else◌, arith, ==_iff, Bool-cases, Option-cases, Result,
  ok, err, efault,
}
use proot.Mem.{Kernel, peek_words, read_words, read_data}

-- The bytes from an address on.
unfoldable pub bytes : (ℕ → ℕ) → ℕ → ℕ → List ℕ
bytes f a zero = []
bytes f a (suc n) = f a ∷ bytes f (a + 1) n

-- A memory behind bytes that are written from an address on.
unfoldable pub written : (ℕ → ℕ) → ℕ → List ℕ → ℕ → ℕ
written f d [] a = f a
written f d (b ∷ l) a = if a == d then b else written f (d + 1) l a

-- What the calls of the kernel do, `byte` telling the bytes of a memory: those that succeed read
-- and write what they say, and a write of several bytes that fails leaves all others. Addresses do
-- not wrap.
pub record IsFaithful {M : Type 0} (kernel : Kernel M) (byte : M → ℕ → ℕ) : Type 0 where
  pub reads :
      (m : M) (a n : ℕ) (l : List ℕ)
      → kernel.process_vm_readv m a n ≡ some l
      → l ≡ bytes (byte m) a n
  pub peeks : (m : M) (a : ℕ) (w : List ℕ) → kernel.peekdata m a ≡ some w → w ≡ bytes (byte m) a 8
  pub writes :
      (m : M) (a : ℕ) (l : List ℕ) (x : ℕ)
      → (kernel.process_vm_writev m a l).1 ≡ true
      → byte (kernel.process_vm_writev m a l).0 x ≡ written (byte m) a l x
  pub fails :
      (m : M) (a : ℕ) (l : List ℕ) (x : ℕ)
      → (kernel.process_vm_writev m a l).1 ≡ false
      → written (byte (kernel.process_vm_writev m a l).0) a l x ≡ written (byte m) a l x
  pub pokes :
      (m : M) (a : ℕ) (l : List ℕ) (x : ℕ)
      → (kernel.pokedata m a l).1 ≡ true
      → byte (kernel.pokedata m a l).0 x ≡ written (byte m) a l x

pub bytes-append : (f : ℕ → ℕ) (a k n : ℕ) → bytes f a k ++ bytes f (a + k) n ≡ bytes f a (k + n)
unfolding bytes
bytes-append f a zero n =
    let e : a + 0 ≡ a = omega arith in let e' : 0 + n ≡ n = omega arith in rw (e, e') refl
bytes-append f a (suc k) n =
    let e : a + suc k ≡ a + 1 + k = omega arith in
    let e' : suc k + n ≡ suc (k + n) = omega arith in rw (e, e', bytes-append f (a + 1) k n) refl

pub take-bytes : (f : ℕ → ℕ) (a k n : ℕ) → k ≤ n → take k (bytes f a n) ≡ bytes f a k
unfolding bytes
take-bytes f a zero n h = refl
take-bytes f a (suc k) zero h = let no : ⊥ = omega arith in elim no [ ]
take-bytes f a (suc k) (suc n) h = ap (λ l. f a ∷ l) (take-bytes f (a + 1) k n (omega arith))

module _ {M : Type 0} (kernel : Kernel M) (byte : M → ℕ → ℕ) (k : IsFaithful kernel byte) where
  peek_words-bytes :
      (m : M) (src full : ℕ) (l : List ℕ)
      → peek_words kernel m src full ≡ some l
      → l ≡ bytes (byte m) src (8 * full)
  unfolding peek_words bytes
  peek_words-bytes m src zero l h = cc (h)
  peek_words-bytes m src (suc full) l h = elim (Option-cases (kernel.peekdata m src)) [
    | inl e ↦ cc (rw (peek_words, e) at h)
    | inr (w, e) ↦ elim (Option-cases (peek_words kernel m (src + 8) full)) [
      | inl e' ↦ cc (rw (peek_words, e, e') at h)
      | inr (rest, e') ↦
          let same : w ++ rest ≡ l = cc (rw (peek_words, e, e') at h) in
          let count : 8 * suc full ≡ 8 + 8 * full = omega arith in
          rw (← same, count, k.peeks m src w e, peek_words-bytes m (src + 8) full rest e')
            (bytes-append (byte m) src 8 (8 * full))
    ]
  ]

  -- `read_data` that succeeds gives the bytes of the memory, by process_vm_readv(2) or by ptrace(2).
  pub read_data-bytes :
      (m : M) (src size : ℕ) (l : List ℕ)
      → read_data kernel m src size ≡ ok l
      → l ≡ bytes (byte m) src size
  unfolding read_data read_words
  read_data-bytes m src size l h = elim (Option-cases (kernel.process_vm_readv m src size)) [
    | inr (r, e) ↦
        let same : r ≡ l = cc (rw (read_data, e) at h) in sym same ∙ k.reads m src size r e
    | inl e ↦ elim (Option-cases (peek_words kernel m src (size / 8))) [
      | inl e' ↦ cc (rw (read_data, e, read_words, e') at h)
      | inr (words, e') ↦
          tail words (peek_words-bytes m src (size / 8) words e')
            (rw (read_data, e, read_words, e') at h)
    ]
  ]
    where
      tail :
          (words : List ℕ)
          → words ≡ bytes (byte m) src (8 * (size / 8))
          → (if size % 8 == 0
              then ok words
              else elim (kernel.peekdata m (src + 8 * (size / 8))) as (λ _. Result (List ℕ)) [
                | none ↦ err efault
                | some word ↦ ok (words ++ take (size % 8) word)
              ])
            ≡ ok l
          → l ≡ bytes (byte m) src size
      tail words w q = elim (Bool-cases (size % 8 == 0)) [
        | inl z ↦
            let same : words ≡ l = cc (rw z at q) in
            let count : 8 * (size / 8) ≡ size = omega (arith, (==_iff (size % 8) 0).0 z) in
            sym same ∙ w ∙ ap (bytes (byte m) src) count
        | inr z ↦ elim (Option-cases (kernel.peekdata m (src + 8 * (size / 8)))) [
          | inl p ↦ cc (rw (z, p) at q)
          | inr (word, p) ↦
              let same : words ++ take (size % 8) word ≡ l = cc (rw (z, p) at q) in
              let count : 8 * (size / 8) + size % 8 ≡ size = omega arith in
              rw
                (
                  ← same,
                  w,
                  k.peeks m (src + 8 * (size / 8)) word p,
                  take-bytes (byte m) (src + 8 * (size / 8)) (size % 8) 8 (omega arith),
                )
                (bytes-append (byte m) src (8 * (size / 8)) (size % 8)
                  ∙ ap (bytes (byte m) src) count)
        ]
      ]
