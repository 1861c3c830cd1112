-- ===== src/Sem/Ids.antt =====
-- The ids of semaphores: what `sysvipc_semget` returns is found again, and ids go stale.
use proot.Prelude.{
  ℕ, zero, suc, ◌%◌, ◌^◌, ◌<◌, ◌≤◌, ◌≡◌, refl, inl, inr, true, List, [], ◌∷◌, ◌++◌, none, some,
  length, set, ◌==◌, arith, All, Bool-cases, ok, ltb, ◌||◌, get_elem?-set_self,
}
use proot.Sysvipc.Lookup.{
  Finds, find_slot-Finds, lookup_valid, get_elem?-last, get_elem?-some-lt, All-get,
}
use proot.Sem.{
  max_sems, semaphore_object, Semaphore, semget, get_slot, get_found, set_up, max_nsems,
}
use proot.Sysvipc.{
  ipc_object_id, lookup_ipc_object, Slot, found, unused, nothing, find_slot, generation_at,
}

-- A semaphore that a call of `sysvipc_semget` has to give: valid, with the key, and large enough.
abbrev Given : ℕ → ℕ → ℕ → List Semaphore → Type 0
Given key nsems id l =
    (i : ℕ) × (s : Semaphore) × (lookup_ipc_object id l ≡ ok (i, s))
    × (s.valid ≡ true)
    × (s.key ≡ key % 2 ^ 32)
    × (nsems ≤ s.nsems)

abbrev pub InRange : Semaphore → Type 0
InRange s = s.generation < 2 ^ 15

generation-lt : (l : List Semaphore) (i : ℕ) → All InRange l → generation_at l i < 2 ^ 15
generation-lt [] i h = omega arith
generation-lt (s ∷ l) zero h = h.0
generation-lt (s ∷ l) (suc i) h = generation-lt l i h.1

semget_success :
    (l : List Semaphore) (key nsems semflg : ℕ) (r : ℕ × List Semaphore)
    → semget l key nsems semflg ≡ ok r
    → get_slot l key nsems semflg (find_slot key 0 none l) ≡ ok r
unfolding semget
semget_success l key nsems semflg r h = elim (Bool-cases ((nsems == 0) || ltb max_nsems nsems)) [
  | inl e ↦ cc (rw e at h)
  | inr e ↦ rw e at h
]

module _ (l l' : List Semaphore) (key nsems semflg id : ℕ) (short : length l ≤ max_sems)
    (range : All InRange l) where
  -- The facts that a success of each branch gives.
  found_success :
      (j : ℕ) (s : Semaphore)
      → get_found l nsems semflg j (some s) ≡ ok (id, l')
      → (ipc_object_id j s.generation ≡ id) × (l ≡ l') × (nsems ≤ s.nsems)
  unfolding get_found
  found_success j s h = ground arith

  unused_success :
      (j : ℕ)
      → get_slot l key nsems semflg (unused j) ≡ ok (id, l')
      → (ipc_object_id j (generation_at l j) ≡ id)
        × (set l j (set_up key nsems (generation_at l j)) ≡ l')
  unfolding get_slot
  unused_success j h = ground arith

  nothing_success :
      get_slot l key nsems semflg nothing ≡ ok (id, l')
      → (ipc_object_id (length l) 0 ≡ id)
        × (l ++ set_up key nsems 0 ∷ [] ≡ l')
        × (length l < max_sems)
  unfolding get_slot
  nothing_success h = ground arith

  slot-Given :
      (r : Slot)
      → Finds key 0 none l r
      → get_slot l key nsems semflg r ≡ ok (id, l')
      → Given key nsems id l'
  slot-Given (found j) (k, s, at, e, v, q) h =
      let same : k ≡ j = omega arith in
      let e' = rw same at e in
      let out = found_success j s (unfold get_slot in rw e' at h) in
      let less = get_elem?-some-lt l j s e' in
      (
        j,
        s,
        rw (← out.0, ← out.1)
            (lookup_valid l j s (omega arith) (All-get InRange l j s range e') v e'),
        v,
        q,
        out.2,
      )
  slot-Given (unused j) (inl f) h = cc (f)
  slot-Given (unused j) (inr f) h =
      let out = unused_success j h in
      let s = set_up key nsems (generation_at l j) in
      (
        j,
        s,
        rw (← out.0, ← out.1)
            (lookup_valid _ j s (omega arith) (generation-lt l j range) refl
              (get_elem?-set_self l j s (omega arith))),
        refl,
        refl,
        omega arith,
      )
  slot-Given nothing f h =
      let out = nothing_success h in
      let s = set_up key nsems 0 in
      (
        length l,
        s,
        rw (← out.0, ← out.1)
            (lookup_valid _ (length l) s (omega arith) (omega arith) refl (get_elem?-last l s)),
        refl,
        refl,
        omega arith,
      )

-- While no generation has reached 2 ^ 15, a successful `sysvipc_semget` returns an id by which the
-- look-up finds a valid semaphore with the key and with at least as many values as were asked for.
pub semget-lookup :
    (l l' : List Semaphore) (key nsems semflg id : ℕ)
    → length l ≤ max_sems
    → All InRange l
    → semget l key nsems semflg ≡ ok (id, l')
    → (i : ℕ) × (s : Semaphore) × (lookup_ipc_object id l' ≡ ok (i, s))
      × (s.valid ≡ true)
      × (s.key ≡ key % 2 ^ 32)
      × (nsems ≤ s.nsems)
semget-lookup l l' key nsems semflg id short range h =
    slot-Given l l' key nsems semflg id short range (find_slot key 0 none l)
      (find_slot-Finds key 0 none l) (semget_success l key nsems semflg (id, l') h)
