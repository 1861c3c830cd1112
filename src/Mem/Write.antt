-- ===== src/Mem/Write.antt =====
-- Writing the memory of a tracee: exactly the bytes given are written, by either way, and are read
-- back.
use proot.Prelude.{
  ℕ, zero, suc, ◌+◌, ◌-◌, ◌≤◌, ◌<◌, ◌≡◌, refl, ap, sym, ◌∙◌, inl, inr, true, false, List, [], ◌∷◌,
  ◌++◌, length, drop, ◌==◌, if◌then◌else◌, arith, ==_iff, Bool-cases, Option-cases, ok,
}
use proot.Mem.{Kernel, poke_trailing, poke_words, write_data, read_data}
use proot.Mem.Read.{bytes, written, IsFaithful, read_data-bytes}

pub written_ext :
    (f g : ℕ → ℕ) (d : ℕ) (l : List ℕ) (x : ℕ)
    → ((y : ℕ) → f y ≡ g y)
    → written f d l x ≡ written g d l x
unfolding written
written_ext f g d [] x h = h x
written_ext f g d (b ∷ l) x h = ap (λ r. if x == d then b else r) (written_ext f g (d + 1) l x h)

-- A byte below the bytes that are written later.
written-below :
    (h : ℕ → ℕ) (b d e : ℕ) (l : List ℕ) (x : ℕ)
    → d < e
    → written (λ y. if y == d then b else h y) e l x ≡ (if x == d then b else written h e l x)
unfolding written
written-below h b d e [] x k = refl
written-below h b d e (c ∷ l) x k = elim (Bool-cases (x == e)) [
  | inl p ↦ let q = (==_iff x e).0 p in let no : (x == d) ≡ false = ground arith in rw (p, no) refl
  | inr p ↦ rw (p, written-below h b d (e + 1) l x (omega arith)) refl
]

pub written-append :
    (f : ℕ → ℕ) (d : ℕ) (l m : List ℕ) (x : ℕ)
    → written (written f d l) (d + length l) m x ≡ written f d (l ++ m) x
unfolding written
written-append f d [] m x =
    let e : d + 0 ≡ d = omega arith in rw e (written_ext (written f d []) f d m x (λ y. refl))
written-append f d (b ∷ l) m x =
    let e : d + suc (length l) ≡ d + 1 + length l = omega arith in
    rw e (
      written_ext (written f d (b ∷ l)) (λ y. if y == d then b else written f (d + 1) l y)
        (d + 1 + length l) m x (λ y. refl)
      ∙ written-below (written f (d + 1) l) b d (d + 1 + length l) m x (omega arith)
      ∙ ap (λ r. if x == d then b else r) (written-append f (d + 1) l m x))

written-beyond : (f : ℕ → ℕ) (d : ℕ) (l : List ℕ) (x : ℕ) → d + length l ≤ x → written f d l x ≡ f x
unfolding written
written-beyond f d [] x h = refl
written-beyond f d (b ∷ l) x h =
    let no : (x == d) ≡ false = ground arith in rw no (written-beyond f (d + 1) l x (omega arith))

-- Writing back what is there changes nothing.
written-bytes :
    (f g : ℕ → ℕ) (e n x : ℕ) → ((y : ℕ) → e ≤ y → g y ≡ f y) → written g e (bytes f e n) x ≡ g x
unfolding written bytes
written-bytes f g e zero x h = refl
written-bytes f g e (suc n) x h = elim (Bool-cases (x == e)) [
  | inl p ↦ let q = (==_iff x e).0 p in rw p (ap f (sym q) ∙ sym (h x (omega arith)))
  | inr p ↦ rw p (written-bytes f g (e + 1) n x (λ y k. h y (omega arith)))
]

drop-bytes : (f : ℕ → ℕ) (a k n : ℕ) → drop k (bytes f a (k + n)) ≡ bytes f (a + k) n
unfolding bytes
drop-bytes f a zero n =
    let e : a + 0 ≡ a = omega arith in let e' : 0 + n ≡ n = omega arith in rw (e, e') refl
drop-bytes f a (suc k) n =
    let e : a + suc k ≡ a + 1 + k = omega arith in
    let e' : suc k + n ≡ suc (k + n) = omega arith in rw (e, e') (drop-bytes f (a + 1) k n)

bytes_ext : (f g : ℕ → ℕ) (a n : ℕ) → ((y : ℕ) → a ≤ y → f y ≡ g y) → bytes f a n ≡ bytes g a n
unfolding bytes
bytes_ext f g a zero h = refl
bytes_ext f g a (suc n) h =
    rw (h a (omega arith), bytes_ext f g (a + 1) n (λ y k. h y (omega arith))) refl

bytes-written : (f : ℕ → ℕ) (d : ℕ) (l : List ℕ) → bytes (written f d l) d (length l) ≡ l
unfolding bytes written
bytes-written f d [] = refl
bytes-written f d (b ∷ l) =
    let yes : (d == d) ≡ true = ground arith in
    rw
      (
        yes,
        bytes_ext (written f d (b ∷ l)) (written f (d + 1) l) (d + 1) (length l)
            (λ y k. let no : (y == d) ≡ false = ground arith in rw (written, no) refl),
      )
      (ap (λ r. b ∷ r) (bytes-written f (d + 1) l))

module _ {M : Type 0} (kernel : Kernel M) (byte : M → ℕ → ℕ) (k : IsFaithful kernel byte) where
  poke_trailing-written :
      (m m' : M) (dest : ℕ) (l : List ℕ) (x : ℕ)
      → length l ≤ 8
      → poke_trailing kernel m dest l ≡ (m', ok tt)
      → byte m' x ≡ written (byte m) dest l x
  unfolding poke_trailing
  poke_trailing-written m m' dest l x short h = elim (Option-cases (kernel.peekdata m dest)) [
    | inl e ↦ cc (rw (poke_trailing, e) at h)
    | inr (word, e) ↦
        let rest = drop (length l) word in
        let poked = kernel.pokedata m dest (l ++ rest) in
        elim (Bool-cases poked.1) [
          | inr p ↦ cc (rw (poke_trailing, e, p) at h)
          | inl p ↦
              let same : poked.0 ≡ m' = cc (rw (poke_trailing, e, p) at h) in
              let count : 8 ≡ length l + (8 - length l) = omega arith in
              let back : rest ≡ bytes (byte m) (dest + length l) (8 - length l) =
                ap (drop (length l)) (k.peeks m dest word e ∙ ap (bytes (byte m) dest) count)
                ∙ drop-bytes (byte m) dest (length l) (8 - length l) in
              ap (λ s. byte s x) (sym same)
              ∙ k.pokes m dest (l ++ rest) x p
              ∙ sym (written-append (byte m) dest l rest x)
              ∙ ap (λ r. written (written (byte m) dest l) (dest + length l) r x) back
              ∙ written-bytes (byte m) (written (byte m) dest l) (dest + length l) (8 - length l) x
                  (λ y q. written-beyond (byte m) dest l y q)
        ]
  ]

  poke_words-written :
      (m m' : M) (dest : ℕ) (l : List ℕ) (x : ℕ)
      → poke_words kernel m dest l ≡ (m', ok tt)
      → byte m' x ≡ written (byte m) dest l x
  unfolding poke_words
  poke_words-written m m' dest [] x h = unfold written in cc (h)
  poke_words-written m m' dest (b0 ∷ b1 ∷ b2 ∷ b3 ∷ b4 ∷ b5 ∷ b6 ∷ b7 ∷ l) x h =
      let word = b0 ∷ b1 ∷ b2 ∷ b3 ∷ b4 ∷ b5 ∷ b6 ∷ b7 ∷ [] in
      let poked = kernel.pokedata m dest word in
      elim (Bool-cases poked.1) [
        | inr p ↦ cc (rw (poke_words, p) at h)
        | inl p ↦
            poke_words-written poked.0 m' (dest + 8) l x (rw (poke_words, p) at h)
            ∙ written_ext (byte poked.0) (written (byte m) dest word) (dest + 8) l x
                (λ y. k.pokes m dest word y p)
            ∙ written-append (byte m) dest word l x
      ]
  poke_words-written m m' dest l x h = poke_trailing-written m m' dest l x (omega arith) h

  -- Where `write_data` succeeds, exactly the bytes given are in the memory from the address on, and
  -- every other byte is as it was: by one call of process_vm_writev(2), or word by word behind a
  -- call that failed part of the way.
  pub write_data-written :
      (m m' : M) (dest : ℕ) (l : List ℕ) (x : ℕ)
      → write_data kernel m dest l ≡ (m', ok tt)
      → byte m' x ≡ written (byte m) dest l x
  unfolding write_data
  write_data-written m m' dest l x h =
      let first = kernel.process_vm_writev m dest l in
      elim (Bool-cases first.1) [
        | inl p ↦
            let same : first.0 ≡ m' = cc (rw (write_data, p) at h) in
            ap (λ s. byte s x) (sym same) ∙ k.writes m dest l x p
        | inr p ↦
            poke_words-written first.0 m' dest l x (rw (write_data, p) at h) ∙ k.fails m dest l x p
      ]

  -- What `write_data` wrote, `read_data` reads back from the same address, where both succeed,
  -- each by either way.
  pub read_data-write_data :
      (m m' : M) (a : ℕ) (l r : List ℕ)
      → write_data kernel m a l ≡ (m', ok tt)
      → read_data kernel m' a (length l) ≡ ok r
      → r ≡ l
  read_data-write_data m m' a l r h h' =
      read_data-bytes kernel byte k m' a (length l) r h'
      ∙ bytes_ext (byte m') (written (byte m) a l) a (length l)
          (λ y _. write_data-written m m' a l y h)
      ∙ bytes-written (byte m) a l
