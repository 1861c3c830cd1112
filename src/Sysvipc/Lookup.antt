-- ===== src/Sysvipc/Lookup.antt =====
-- The table of the IPC objects: an id is found again, ids go stale, and what the search for a slot
-- finds.
use proot.Prelude.{
  ℕ, zero, suc, ◌+◌, ◌-◌, ◌/◌, ◌%◌, ◌^◌, ◌<◌, ◌≤◌, ◌≡◌, ◌≢◌, refl, ap, ◌∙◌, ◌⊎◌, inl, inr, Bool,
  true, false, List, [], ◌∷◌, ◌++◌, Option, none, some, length, get_elem?, set, ◌==◌, if◌then◌else◌,
  arith, All, Bool-cases, ok, err, ltb, not, ◌&&◌, ◌||◌, einval, get_elem?-set_self, length-set,
}
use mathlib.Core.Path.{subst}
use proot.Sysvipc.{
  IpcObject, ipc_object_id, lookup_ipc_object, check_object, Slot, found, unused, nothing,
  find_slot,
}

-- An id that an index and a generation make, as long as the generation is not negative.
object_id_parts :
    (i g : ℕ)
    → i + 1 < 2 ^ 12
    → g < 2 ^ 15
    → (ipc_object_id i g % 2 ^ 12 ≡ i + 1) × ((ipc_object_id i g / 2 ^ 12) % 2 ^ 16 ≡ g)
unfolding ipc_object_id
object_id_parts i g h k = ground arith

pub get_elem?-some-lt {ℓ} :
    {A : Type ℓ} (l : List A) (i : ℕ) (a : A) → get_elem? l i ≡ some a → i < length l
get_elem?-some-lt [] i a h = cc (h)
get_elem?-some-lt (x ∷ l) zero a h = omega arith
get_elem?-some-lt (x ∷ l) (suc i) a h = omega (arith, get_elem?-some-lt l i a h)

pub All-get {ℓ κ} :
    {A : Type ℓ} (P : A → Type κ) (l : List A) (i : ℕ) (a : A)
    → All P l
    → get_elem? l i ≡ some a
    → P a
All-get P [] i a h e = cc (e)
All-get P (x ∷ l) zero a h e = subst P (cc (e)) h.0
All-get P (x ∷ l) (suc i) a h e = All-get P l i a h.1 e

pub get_elem?-last {ℓ} :
    {A : Type ℓ} (l : List A) (a : A) → get_elem? (l ++ a ∷ []) (length l) ≡ some a
get_elem?-last [] a = refl
get_elem?-last (x ∷ l) a = get_elem?-last l a

module _ {A : Type 0} ⦃o : IpcObject A⦄ where
  -- What a successful look-up says.
  pub lookup_ok :
      (id : ℕ) (l : List A) (i : ℕ) (s : A)
      → lookup_ipc_object id l ≡ ok (i, s)
      → (get_elem? l i ≡ some s) × (i + 1 ≡ id % 2 ^ 12) × (i < length l)
  unfolding lookup_ipc_object
  lookup_ok id l i s h = elim (Bool-cases ((id % 2 ^ 12 == 0) || ltb (length l) (id % 2 ^ 12))) [
    | inl e ↦ cc (rw e at h)
    | inr e ↦ go e (get_elem? l (id % 2 ^ 12 - 1)) refl (rw e at h)
  ]
    where
      go :
          ((id % 2 ^ 12 == 0) || ltb (length l) (id % 2 ^ 12)) ≡ false
          → (o : Option A) → get_elem? l (id % 2 ^ 12 - 1) ≡ o
          → check_object id (id % 2 ^ 12 - 1) o ≡ ok (i, s)
          → (get_elem? l i ≡ some s) × (i + 1 ≡ id % 2 ^ 12) × (i < length l)
      go z none e k = unfold check_object in cc (k)
      go z (some t) e k =
          let facts : (id % 2 ^ 12 - 1 ≡ i) × (t ≡ s) = unfold check_object in ground arith in
          (
            rw facts.0 at e ∙ ap some facts.1,
            ground arith,
            get_elem?-some-lt l i t (rw facts.0 at e),
          )

  -- An id gives back the object at its index exactly while that is valid and of its generation; the
  -- generations counted are those below 2 ^ 15.
  pub lookup-ipc_object_id :
      (l : List A) (i g : ℕ) (s : A)
      → i + 1 < 2 ^ 12
      → g < 2 ^ 15
      → get_elem? l i ≡ some s
      → lookup_ipc_object (ipc_object_id i g) l ≡ (
          if o.is_valid s && (ltb (o.generation_of s) (2 ^ 15) && (o.generation_of s == g))
          then ok (i, s)
          else err einval)
  unfolding lookup_ipc_object check_object
  lookup-ipc_object_id l i g s h k e =
      let parts = object_id_parts i g h k in
      let less = get_elem?-some-lt l i s e in
      let back : i + 1 - 1 ≡ i = omega arith in rw (parts.0, back, e, parts.1) (ground arith)

  -- An object of an earlier generation is not found: its id has gone stale.
  pub lookup-stale :
      (l : List A) (i g : ℕ) (s : A)
      → i + 1 < 2 ^ 12
      → g < 2 ^ 15
      → get_elem? l i ≡ some s
      → o.generation_of s ≢ g
      → lookup_ipc_object (ipc_object_id i g) l ≡ err einval
  lookup-stale l i g s h k e n = rw (lookup-ipc_object_id l i g s h k e) (ground arith)

  -- What the loop of `sysvipc_semget` finds, from an index on.
  abbrev pub Finds : ℕ → ℕ → Option ℕ → List A → Slot → Type 0
  Finds key index free l (found j) =
      (k : ℕ) × (s : A) × (j ≡ index + k)
      × (get_elem? l k ≡ some s)
      × (o.is_valid s ≡ true)
      × (o.key_of s ≡ key % 2 ^ 32)
  Finds key index free l (unused j) = (free ≡ some j) ⊎ ((index ≤ j) × (j < index + length l))
  Finds key index free l nothing = free ≡ none

  Finds-later :
      (key index : ℕ) (free : Option ℕ) (s : A) (l : List A) (r : Slot)
      → Finds key (index + 1) free l r
      → Finds key index free (s ∷ l) r
  Finds-later key index free s l (found j) f = (suc f.0, f.1, omega arith, f.3, f.4, f.5)
  Finds-later key index free s l (unused j) (inl f) = inl f
  Finds-later key index free s l (unused j) (inr f) = inr (omega arith)
  Finds-later key index free s l nothing f = f

  -- The slot at hand is the first unused one.
  Finds-here :
      (key index : ℕ) (s : A) (l : List A) (r : Slot)
      → Finds key (index + 1) (some index) l r
      → Finds key index none (s ∷ l) r
  Finds-here key index s l (found j) f = Finds-later key index none s l (found j) f
  Finds-here key index s l (unused j) (inl f) = inr (let e : index ≡ j = cc in omega arith)
  Finds-here key index s l (unused j) (inr f) = inr (omega arith)
  Finds-here key index s l nothing f = cc

  Finds-if :
      (key index : ℕ) (free : Option ℕ) (l : List A) (b : Bool) (i : ℕ) (r : Slot)
      → (b ≡ true → Finds key index free l (found i))
      → Finds key index free l r
      → Finds key index free l (if b then found i else r)
  Finds-if key index free l true i r h k = h refl
  Finds-if key index free l false i r h k = k

  pub find_slot-Finds :
      (key index : ℕ) (free : Option ℕ) (l : List A)
      → Finds key index free l (find_slot key index free l)
  unfolding find_slot
  find_slot-Finds key index none [] = refl
  find_slot-Finds key index (some i) [] = inl refl
  find_slot-Finds key index free (s ∷ l) =
      Finds-if key index free (s ∷ l)
        (o.is_valid s && (not (key == 0) && (o.key_of s == key % 2 ^ 32))) index _
        (λ e. (0, s, omega arith, refl, ground arith, ground arith))
        (other (o.is_valid s) free (λ f. find_slot-Finds key (index + 1) f l))
    where
      other :
          (v : Bool) (f : Option ℕ)
          → ((f : Option ℕ) → Finds key (index + 1) f l (find_slot key (index + 1) f l))
          → Finds key index f (s ∷ l) (
              find_slot key
                (index + 1)
                (if v then f else elim f [ none ↦ some index | some i ↦ some i ])
                l)
      other true f ih = Finds-later key index f s l _ (ih f)
      other false none ih = Finds-here key index s l _ (ih (some index))
      other false (some i) ih = Finds-later key index (some i) s l _ (ih (some i))

  pub lookup_valid :
      (l : List A) (i : ℕ) (s : A)
      → i + 1 < 2 ^ 12
      → o.generation_of s < 2 ^ 15
      → o.is_valid s ≡ true
      → get_elem? l i ≡ some s
      → lookup_ipc_object (ipc_object_id i (o.generation_of s)) l ≡ ok (i, s)
  lookup_valid l i s h g v e =
      rw (lookup-ipc_object_id l i (o.generation_of s) s h g e) (ground arith)

  pub lookup-set_invalid :
      (id : ℕ) (l : List A) (i : ℕ) (t : A)
      → i + 1 ≡ id % 2 ^ 12
      → i < length l
      → o.is_valid t ≡ false
      → lookup_ipc_object id (set l i t) ≡ err einval
  unfolding lookup_ipc_object check_object
  lookup-set_invalid id l i t e b v =
      let back : id % 2 ^ 12 - 1 ≡ i = omega arith in
      rw (back, get_elem?-set_self l i t b) (ground arith)

  -- A look-up that succeeds passes the check of its object.
  pub checked :
      (id : ℕ) (l : List A) (i : ℕ) (s : A)
      → lookup_ipc_object id l ≡ ok (i, s)
      → check_object id i (some s) ≡ ok (i, s)
  unfolding lookup_ipc_object
  checked id l i s h =
      let facts = lookup_ok id l i s h in
      let back : id % 2 ^ 12 - 1 ≡ i = omega arith in
      let inside : ((id % 2 ^ 12 == 0) || ltb (length l) (id % 2 ^ 12)) ≡ false = ground arith in
      rw (inside, back, facts.0) at h

  -- An object that is changed, and keeps its generation and stays valid, is found where it was.
  pub lookup-set_same :
      (id : ℕ) (l : List A) (i : ℕ) (s t : A)
      → lookup_ipc_object id l ≡ ok (i, s)
      → o.is_valid t ≡ o.is_valid s
      → o.generation_of t ≡ o.generation_of s
      → lookup_ipc_object id (set l i t) ≡ ok (i, t)
  unfolding lookup_ipc_object
  lookup-set_same id l i s t h v g =
      let facts = lookup_ok id l i s h in
      let back : id % 2 ^ 12 - 1 ≡ i = omega arith in
      let found : check_object id i (some s) ≡ ok (i, s) = checked id l i s h in
      rw (back, get_elem?-set_self l i t facts.2, length-set l i t)
        (unfold check_object in ground arith)
