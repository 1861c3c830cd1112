-- ===== src/Mem/Text.antt =====
-- Reading a string from the memory of a tracee: the number of its bytes, by either way.
use Prim.Native.Nat.{min}
use proot.Prelude.{
  ℕ, zero, suc, ◌+◌, ◌-◌, ◌*◌, ◌/◌, ◌%◌, ◌≤◌, ◌<◌, ◌≡◌, refl, ap, sym, ◌∙◌, inl, inr, List, [], ◌∷◌,
  ◌++◌, Option, none, some, length, take, ◌==◌, if◌then◌else◌, arith, ltb, Bool-cases, Option-cases,
  Result-cases, Result, ok,
}
use proot.Mem.{Kernel, index_of_nul, string_words, string_chunks, read_string}
use proot.Mem.Read.{bytes, IsFaithful, bytes-append, take-bytes}

-- The number of bytes up to the first NUL, that included, or one more than all.
unfoldable pub up_to_terminator : List ℕ → ℕ
up_to_terminator [] = 1
up_to_terminator (b ∷ l) = if b == 0 then 1 else suc (up_to_terminator l)

index_lem :
    (l : List ℕ) (r : List ℕ)
    → up_to_terminator (l ++ r)
      ≡ elim (index_of_nul l) as (λ _. ℕ) [ none ↦ length l + up_to_terminator r | some j ↦ j + 1 ]
unfolding up_to_terminator index_of_nul
index_lem [] r = omega arith
index_lem (b ∷ l) r = elim (Bool-cases (b == 0)) [
  | inl z ↦ rw (index_of_nul, up_to_terminator, z) refl
  | inr z ↦ elim (Option-cases (index_of_nul l)) [
    | inl e ↦
        let s = index_lem l r in rw (index_of_nul, up_to_terminator, z, e, rw e at s) (omega arith)
    | inr (j, e) ↦
        let s = index_lem l r in rw (index_of_nul, up_to_terminator, z, e, rw e at s) (omega arith)
  ]
]

length-bytes : (f : ℕ → ℕ) (a n : ℕ) → length (bytes f a n) ≡ n
unfolding bytes
length-bytes f a zero = refl
length-bytes f a (suc n) = ap suc (length-bytes f (a + 1) n)

-- The bytes of a string in two parts, of which the first has a terminator or not.
found_lem :
    (f : ℕ → ℕ) (a k n j : ℕ)
    → index_of_nul (bytes f a k) ≡ some j
    → up_to_terminator (bytes f a (k + n)) ≡ j + 1
found_lem f a k n j e =
    ap up_to_terminator (sym (bytes-append f a k n))
    ∙ rw e at (index_lem (bytes f a k) (bytes f (a + k) n))

later_lem :
    (f : ℕ → ℕ) (a k n : ℕ)
    → index_of_nul (bytes f a k) ≡ none
    → up_to_terminator (bytes f a (k + n)) ≡ k + up_to_terminator (bytes f (a + k) n)
later_lem f a k n e =
    ap up_to_terminator (sym (bytes-append f a k n))
    ∙ rw e at (index_lem (bytes f a k) (bytes f (a + k) n))
    ∙ ap (λ c. c + up_to_terminator (bytes f (a + k) n)) (length-bytes f a k)

module _ {M : Type 0} (kernel : Kernel M) (byte : M → ℕ → ℕ) (k : IsFaithful kernel byte) where
  words_none :
      (m : M) (src trailing n : ℕ) (word : List ℕ)
      → trailing ≤ 8
      → word ≡ bytes (byte m) src 8
      → elim (index_of_nul (take trailing word)) as (λ _. Result ℕ) [
        | none ↦ ok (trailing + 1)
        | some j ↦ ok (j + 1)
      ]
        ≡ ok n
      → n ≡ up_to_terminator (bytes (byte m) src trailing)
  unfolding up_to_terminator bytes
  words_none m src trailing n word t w h =
      let same : take trailing word ≡ bytes (byte m) src trailing =
        ap (take trailing) w ∙ take-bytes (byte m) src trailing 8 t in
      let none_left : trailing + 0 ≡ trailing = omega arith in
      elim (Option-cases (index_of_nul (bytes (byte m) src trailing))) [
        | inl e ↦
            let q : trailing + 1 ≡ n = cc (rw (same, e) at h) in
            sym q
            ∙ sym (later_lem (byte m) src trailing 0 e)
            ∙ ap (λ c. up_to_terminator (bytes (byte m) src c)) none_left
        | inr (j, e) ↦
            let q : j + 1 ≡ n = cc (rw (same, e) at h) in
            sym q
            ∙ sym (found_lem (byte m) src trailing 0 j e)
            ∙ ap (λ c. up_to_terminator (bytes (byte m) src c)) none_left
      ]

  string_words-bytes :
      (m : M) (src full trailing n : ℕ)
      → trailing ≤ 8
      → string_words kernel m src full trailing ≡ ok n
      → n ≡ up_to_terminator (bytes (byte m) src (8 * full + trailing))
  unfolding string_words
  string_words-bytes m src zero trailing n t h = elim (Option-cases (kernel.peekdata m src)) [
    | inl p ↦ cc (rw (string_words, p) at h)
    | inr (word, p) ↦
        let count : 8 * 0 + trailing ≡ trailing = omega arith in
        rw count
          (words_none m src trailing n word t (k.peeks m src word p) (rw (string_words, p) at h))
  ]
  string_words-bytes m src (suc full) trailing n t h = elim (Option-cases (kernel.peekdata m src)) [
    | inl p ↦ cc (rw (string_words, p) at h)
    | inr (word, p) ↦
        let w = k.peeks m src word p in
        let count : 8 * suc full + trailing ≡ 8 + (8 * full + trailing) = omega arith in
        elim (Option-cases (index_of_nul word)) [
          | inr (j, e) ↦
              let q : j + 1 ≡ n = cc (rw (string_words, p, e) at h) in
              rw count (sym q ∙ sym (found_lem (byte m) src 8 (8 * full + trailing) j (rw w at e)))
          | inl e ↦ elim (Result-cases (string_words kernel m (src + 8) full trailing)) [
            | inl (x, r) ↦ cc (rw (string_words, p, e, r) at h)
            | inr (c, r) ↦
                let q : 8 + c ≡ n = cc (rw (string_words, p, e, r) at h) in
                rw count (
                  sym q
                  ∙ ap (λ d. 8 + d) (string_words-bytes m (src + 8) full trailing c t r)
                  ∙ sym (later_lem (byte m) src 8 (8 * full + trailing) (rw w at e)))
          ]
        ]
  ]

  string_chunks-bytes :
      (fuel : ℕ) (m : M) (chunk_size src offset max_size n : ℕ)
      → offset ≤ max_size
      → string_chunks kernel fuel m chunk_size src offset max_size ≡ some n
      → n ≡ offset + up_to_terminator (bytes (byte m) (src + offset) (max_size - offset))
  unfolding string_chunks
  string_chunks-bytes zero m chunk_size src offset max_size n o h = cc (h)
  string_chunks-bytes (suc fuel) m chunk_size src offset max_size n o h =
      let size = min (chunk_size - (src + offset) % chunk_size) (max_size - offset) in
      let fits : size ≤ max_size - offset = omega arith in
      let count : max_size - offset ≡ size + (max_size - offset - size) = omega arith in
      elim (Option-cases (kernel.process_vm_readv m (src + offset) size)) [
        | inl p ↦ cc (rw (string_chunks, p) at h)
        | inr (l, p) ↦
            let w = k.reads m (src + offset) size l p in
            elim (Option-cases (index_of_nul l)) [
              | inr (j, e) ↦
                  let q : offset + j + 1 ≡ n = cc (rw (string_chunks, p, e) at h) in
                  rw count (
                    omega (
                      arith,
                      q,
                      found_lem (byte m) (src + offset) size (max_size - offset - size) j
                          (rw w at e),
                    ))
              | inl e ↦ elim (Bool-cases (ltb (offset + size) max_size)) [
                | inr b ↦ cc (rw (string_chunks, p, e, b) at h)
                | inl b ↦
                    let ih =
                      string_chunks-bytes fuel m chunk_size src (offset + size) max_size n
                        (omega arith) (rw (string_chunks, p, e, b) at h) in
                    let later =
                      later_lem (byte m) (src + offset) size (max_size - offset - size)
                        (rw w at e) in
                    let place : src + (offset + size) ≡ src + offset + size = omega arith in
                    let left : max_size - (offset + size) ≡ max_size - offset - size =
                      omega arith in
                    rw (count, later) ((rw (place, left) at ih) ∙ omega arith)
              ]
            ]
      ]

  -- What `read_string` returns where it succeeds.
  read_string-bytes :
      (chunk_size : ℕ) (m : M) (src max_size n : ℕ)
      → read_string kernel chunk_size m src max_size ≡ ok n
      → n ≡ up_to_terminator (bytes (byte m) src max_size)
  unfolding read_string
  read_string-bytes chunk_size m src max_size n h =
      elim (Option-cases (string_chunks kernel (max_size + 1) m chunk_size src 0 max_size)) [
        | inr (c, e) ↦
            let q : c ≡ n = cc (rw (read_string, e) at h) in
            let place : src + 0 ≡ src = omega arith in
            let left : max_size - 0 ≡ max_size = omega arith in
            let all =
              string_chunks-bytes (max_size + 1) m chunk_size src 0 max_size c (omega arith) e in
            sym q ∙ (rw (place, left) at all) ∙ omega arith
        | inl e ↦
            let count : 8 * (max_size / 8) + max_size % 8 ≡ max_size = omega arith in
            string_words-bytes m src (max_size / 8) (max_size % 8) n (omega arith)
              (rw (read_string, e) at h)
            ∙ ap (λ c. up_to_terminator (bytes (byte m) src c)) count
      ]

  string_words-Total :
      (m : M) (src full trailing : ℕ)
      → ((a : ℕ) → src ≤ a → a ≤ src + 8 * full → (w : List ℕ) × (kernel.peekdata m a ≡ some w))
      → (n : ℕ) × (string_words kernel m src full trailing ≡ ok n)
  unfolding string_words
  string_words-Total m src zero trailing r =
      let (word, p) = r src (omega arith) (omega arith) in
      elim (Option-cases (index_of_nul (take trailing word))) [
        | inl e ↦ (trailing + 1, rw (string_words, p, e) refl)
        | inr (j, e) ↦ (j + 1, rw (string_words, p, e) refl)
      ]
  string_words-Total m src (suc full) trailing r =
      let (word, p) = r src (omega arith) (omega arith) in
      let (n, later) =
        string_words-Total m (src + 8) full trailing
          (λ a low high. r a (omega arith) (omega arith)) in
      elim (Option-cases (index_of_nul word)) [
        | inr (j, e) ↦ (j + 1, rw (string_words, p, e) refl)
        | inl e ↦ (8 + n, rw (string_words, p, e, later) refl)
      ]

  -- Where each word that begins at the address or at most `max_size` behind it can be read by
  -- ptrace(2), `read_string` succeeds, and returns the number of the bytes up to the first NUL among
  -- the `max_size` from the address on, that included, and one more than `max_size` where there is
  -- none, be it by chunks or by words.
  pub read_string-returns :
      (chunk_size : ℕ) (m : M) (src max_size : ℕ)
      → ((a : ℕ) → src ≤ a → a ≤ src + max_size → (w : List ℕ) × (kernel.peekdata m a ≡ some w))
      → read_string kernel chunk_size m src max_size
        ≡ ok (up_to_terminator (bytes (byte m) src max_size))
  unfolding read_string
  read_string-returns chunk_size m src max_size r =
      let words =
        string_words-Total m src (max_size / 8) (max_size % 8)
          (λ a low high. r a low (omega arith)) in
      elim (Option-cases (string_chunks kernel (max_size + 1) m chunk_size src 0 max_size)) [
        | inr (c, e) ↦
            let q : read_string kernel chunk_size m src max_size ≡ ok c =
              rw (read_string, e) refl in
            q ∙ ap ok (read_string-bytes chunk_size m src max_size c q)
        | inl e ↦
            let q : read_string kernel chunk_size m src max_size ≡ ok words.0 =
              rw (read_string, e, words.1) refl in
            q ∙ ap ok (read_string-bytes chunk_size m src max_size words.0 q)
      ]

-- The fuel of `read_string` is enough: with more of it, and a chunk size other than 0, the loop over
-- chunks gives the same.
string_chunks-fuel :
    {M : Type 0}
    → (kernel : Kernel M) (fuel extra : ℕ) (m : M) (chunk_size src offset max_size : ℕ)
    → 0 < chunk_size
    → max_size - offset < fuel
    → string_chunks kernel (fuel + extra) m chunk_size src offset max_size
      ≡ string_chunks kernel fuel m chunk_size src offset max_size
unfolding string_chunks
string_chunks-fuel kernel zero extra m chunk_size src offset max_size c f =
    let no : ⊥ = omega arith in elim no [ ]
string_chunks-fuel kernel (suc fuel) extra m chunk_size src offset max_size c f =
    let size = min (chunk_size - (src + offset) % chunk_size) (max_size - offset) in
    let more : suc fuel + extra ≡ suc (fuel + extra) = omega arith in
    let continued : (if ltb (offset + size) max_size
          then string_chunks kernel (fuel + extra) m chunk_size src (offset + size) max_size
          else none)
        ≡ (if ltb (offset + size) max_size
            then string_chunks kernel fuel m chunk_size src (offset + size) max_size
            else none) =
      elim (Bool-cases (ltb (offset + size) max_size)) [
        | inr b ↦ rw b refl
        | inl b ↦
            let part : (src + offset) % chunk_size < chunk_size = omega arith in
            let inside : offset + size < max_size = ground arith in
            let smaller : max_size - (offset + size) < fuel = omega arith in
            rw b (
              string_chunks-fuel kernel fuel extra m chunk_size src (offset + size) max_size c
                smaller)
      ] in
    rw more (
      ap
        (λ later. elim (kernel.process_vm_readv m (src + offset) size) as (λ _. Option ℕ) [
          | none ↦ none
          | some l ↦ elim (index_of_nul l) as (λ _. Option ℕ) [
            | some j ↦ some (offset + j + 1)
            | none ↦ later
          ]
        ])
        continued)
