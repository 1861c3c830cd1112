-- ===== src/Msg/Ids.antt =====
-- The ids of message queues: what `sysvipc_msgget` returns is found again, up to 4094 queues.
use proot.Prelude.{
  ℕ, zero, suc, ◌+◌, ◌%◌, ◌^◌, ◌<◌, ◌≡◌, refl, inl, inr, true, List, [], ◌∷◌, ◌++◌, none, some,
  length, get_elem?, set, arith, All, ok, err, einval, get_elem?-set_self,
}
use proot.Sysvipc.{
  has_flag, ipc_creat, ipc_object_id, lookup_ipc_object, generation_at, Slot, found, unused,
  nothing, find_slot,
}
use proot.Sysvipc.Lookup.{
  Finds, find_slot-Finds, lookup_valid, get_elem?-last, get_elem?-some-lt, All-get,
}
use proot.Msg.{Queue, queue_object, set_up_queue, queue_slot, msgget}

abbrev pub InRange : Queue → Type 0
InRange q = q.generation < 2 ^ 15

generation-lt : (l : List Queue) (i : ℕ) → All InRange l → generation_at l i < 2 ^ 15
generation-lt [] i h = omega arith
generation-lt (q ∷ l) zero h = h.0
generation-lt (q ∷ l) (suc i) h = generation-lt l i h.1

generation_at-get :
    (l : List Queue) (i : ℕ) (q : Queue) → get_elem? l i ≡ some q → generation_at l i ≡ q.generation
generation_at-get l i q e = rw (generation_at, e) refl

module _ (l l' : List Queue) (queue_id msgflg id : ℕ) (short : length l + 1 < 2 ^ 12)
    (range : All InRange l) where
  -- A queue that a call of `sysvipc_msgget` has to give.
  abbrev Given : Type 0
  Given =
      (i : ℕ) × (q : Queue) × (lookup_ipc_object id l' ≡ ok (i, q))
      × (q.valid ≡ true)
      × (q.key ≡ queue_id % 2 ^ 32)

  found_success :
      (j : ℕ)
      → queue_slot l queue_id msgflg (found j) ≡ ok (id, l')
      → (ipc_object_id j (generation_at l j) ≡ id) × (l ≡ l')
  unfolding queue_slot
  found_success j h = ground arith

  unused_success :
      (j : ℕ)
      → queue_slot l queue_id msgflg (unused j) ≡ ok (id, l')
      → (ipc_object_id j (generation_at l j) ≡ id)
        × (set l j (set_up_queue queue_id (generation_at l j)) ≡ l')
  unfolding queue_slot
  unused_success j h = ground arith

  nothing_success :
      queue_slot l queue_id msgflg nothing ≡ ok (id, l')
      → (ipc_object_id (length l) 0 ≡ id) × (l ++ set_up_queue queue_id 0 ∷ [] ≡ l')
  unfolding queue_slot
  nothing_success h = ground arith

  slot-Given :
      (r : Slot) → Finds queue_id 0 none l r → queue_slot l queue_id msgflg r ≡ ok (id, l') → Given
  slot-Given (found j) (k, q, at, e, v, key) h =
      let same : k ≡ j = omega arith in
      let e' = rw same at e in
      let out = found_success j h in
      let less = get_elem?-some-lt l j q e' in
      (
        j,
        q,
        rw (← out.0, ← out.1, generation_at-get l j q e')
            (lookup_valid l j q (omega arith) (All-get InRange l j q range e') v e'),
        v,
        key,
      )
  slot-Given (unused j) (inl f) h = cc (f)
  slot-Given (unused j) (inr f) h =
      let out = unused_success j h in
      let q = set_up_queue queue_id (generation_at l j) in
      (
        j,
        q,
        rw (← out.0, ← out.1)
            (lookup_valid _ j q (omega arith) (generation-lt l j range) refl
              (get_elem?-set_self l j q (omega arith))),
        refl,
        refl,
      )
  slot-Given nothing f h =
      let out = nothing_success h in
      let q = set_up_queue queue_id 0 in
      (
        length l,
        q,
        rw (← out.0, ← out.1)
            (lookup_valid _ (length l) q short (omega arith) refl (get_elem?-last l q)),
        refl,
        refl,
      )

-- With fewer than 4095 queues of which no generation has reached 2 ^ 15, a successful
-- `sysvipc_msgget` returns an id by which the look-up finds a valid queue with the key.
pub msgget-lookup :
    (l l' : List Queue) (queue_id msgflg id : ℕ)
    → length l + 1 < 2 ^ 12
    → All InRange l
    → msgget l queue_id msgflg ≡ ok (id, l')
    → (i : ℕ) × (q : Queue) × (lookup_ipc_object id l' ≡ ok (i, q))
      × (q.valid ≡ true)
      × (q.key ≡ queue_id % 2 ^ 32)
unfolding msgget
msgget-lookup l l' queue_id msgflg id short range h =
    slot-Given l l' queue_id msgflg id short range (find_slot queue_id 0 none l)
      (find_slot-Finds queue_id 0 none l) h

-- Where 4095 queues are in use and none has the key, `sysvipc_msgget` makes another one, and the id
-- that it returns is refused by the look-up.
pub msgget-too_many :
    (l : List Queue) (queue_id msgflg : ℕ)
    → length l + 1 ≡ 2 ^ 12
    → find_slot queue_id 0 none l ≡ nothing
    → has_flag msgflg ipc_creat ≡ true
    → (id : ℕ) × (l' : List Queue) × (msgget l queue_id msgflg ≡ ok (id, l'))
      × (lookup_ipc_object id l' ≡ err einval)
unfolding msgget queue_slot
msgget-too_many l queue_id msgflg n f c = (
  ipc_object_id (length l) 0,
  l ++ set_up_queue queue_id 0 ∷ [],
  rw f (ground arith),
  refused (l ++ set_up_queue queue_id 0 ∷ []),
)
  where
    last : length l ≡ 4095
    last = omega arith

    id_lem : ipc_object_id 4095 0 ≡ 2 ^ 12
    id_lem = unfold ipc_object_id in refl

    refused : (m : List Queue) → lookup_ipc_object (ipc_object_id (length l) 0) m ≡ err einval
    refused m = rw (last, id_lem) (unfold lookup_ipc_object in refl)
