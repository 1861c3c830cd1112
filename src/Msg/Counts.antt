-- ===== src/Msg/Counts.antt =====
-- The invariant of the message queues, and that every operation on them keeps it.
use proot.Prelude.{
  ℕ, zero, suc, ◌+◌, ◌≤◌, ◌≡◌, refl, sym, inl, inr, true, List, [], ◌∷◌, ◌++◌, Option, none, some,
  length, get_elem?, arith, All, All-append, Bool-cases, Result, ok, err,
}
use proot.Sysvipc.{has_flag, ipc_nowait, Config}
use proot.Msg.{Item, Queue, queue_object, Memory, max_msg_size, msg_copy}
use proot.Msg.Receive.{
  deliver_sized, queue_after, remove_at, remove_item, delivered_size, after_writes, msg_deliver,
  bad_arguments, receive, receive_found, find_item, do_msgrcv,
}
use proot.Msg.Calls.{append_item}

-- An item has the bytes of its text, and no more of them than a message may have.
abbrev pub IsWhole : Item → Type 0
IsWhole x = (x.mtext_length ≡ length x.mtext) × (x.mtext_length ≤ max_msg_size)

unfoldable pub total : List Item → ℕ
total [] = 0
total (x ∷ l) = x.mtext_length + total l

-- The counters of a valid queue are those of its items.
pub record IsCounted (q : Queue) : Type 0 where
  pub qnum : q.valid ≡ true → q.stats.msg_qnum ≡ length q.items
  pub cbytes : q.valid ≡ true → q.stats.msg_cbytes ≡ total q.items
  pub whole : All IsWhole q.items

total-append : (l m : List Item) → total (l ++ m) ≡ total l + total m
unfolding total
total-append [] m = omega arith
total-append (x ∷ l) m = omega (arith, total-append l m)

length-append_one : (l : List Item) (x : Item) → length (l ++ x ∷ []) ≡ length l + 1
length-append_one [] x = refl
length-append_one (y ∷ l) x = omega (arith, length-append_one l x)

pub append_item-IsCounted :
    (q : Queue) (pid time : ℕ) (item : Item)
    → IsCounted q
    → IsWhole item
    → IsCounted (append_item q pid time item)
unfolding append_item
append_item-IsCounted q pid time item h w = record {
  qnum = λ v. rw (h.qnum v) (sym (length-append_one q.items item));
  cbytes = λ v. rw (h.cbytes v, total-append q.items (item ∷ [])) (unfold total in omega arith);
  whole = All-append IsWhole q.items (item ∷ []) h.whole (w, tt);
}

-- What taking the item at an index changes.
remove_at-counts :
    (l : List Item) (i : ℕ) (x : Item)
    → get_elem? l i ≡ some x
    → (length (remove_at i l) + 1 ≡ length l) × (total (remove_at i l) + x.mtext_length ≡ total l)
unfolding remove_at total
remove_at-counts [] i x e = cc (e)
remove_at-counts (y ∷ l) zero x e =
    let same : y ≡ x = cc (e) in (omega arith, rw same (omega arith))
remove_at-counts (y ∷ l) (suc i) x e =
    let rest = remove_at-counts l i x e in (omega arith, omega arith)

All-remove_at : (l : List Item) (i : ℕ) → All IsWhole l → All IsWhole (remove_at i l)
unfolding remove_at
All-remove_at [] i h = tt
All-remove_at (y ∷ l) zero h = h.1
All-remove_at (y ∷ l) (suc i) h = (h.0, All-remove_at l i h.1)

remove_item-IsCounted :
    (q : Queue) (i : ℕ) (x : Item)
    → get_elem? q.items i ≡ some x
    → IsCounted q
    → IsCounted (remove_item i x q)
unfolding remove_item
remove_item-IsCounted q i x e h =
    let counts = remove_at-counts q.items i x e in
    record {
      qnum = λ v. rw (h.qnum v) (omega arith);
      cbytes = λ v. rw (h.cbytes v) (omega arith);
      whole = All-remove_at q.items i h.whole;
    }

module _ {M : Type 0} (mem : Memory M) (time : ℕ) where
  -- A delivery leaves the items and their counters.
  written-same :
      (c : Config) (q : Queue) (n : ℕ) (w : M × Result (Unit {0}))
      → ((after_writes c q time n w).1.items ≡ q.items)
        × (IsCounted q → IsCounted (after_writes c q time n w).1)
  written-same c q n (m, ok _) =
      (refl, (λ h. record { qnum = h.qnum; cbytes = h.cbytes; whole = h.whole }))
  written-same c q n (m, err e) = (refl, (λ h. h))

  sized-same :
      (c : Config) (q : Queue) (x : Item) (m : M) (r : Result ℕ)
      → ((deliver_sized mem time c q x m r).1.items ≡ q.items)
        × (IsCounted q → IsCounted (deliver_sized mem time c q x m r).1)
  unfolding deliver_sized
  sized-same c q x m (err e) = (refl, (λ h. h))
  sized-same c q x m (ok n) = written-same c q n _

  queue_after-IsCounted :
      (c : Config) (i : ℕ) (x : Item) (q : Queue) (r : Result ℕ)
      → get_elem? q.items i ≡ some x
      → IsCounted q
      → IsCounted (queue_after c i x q r)
  queue_after-IsCounted c i x q (err e) at h = h
  queue_after-IsCounted c i x q (ok n) at h =
      elim (Bool-cases (has_flag c.msgrcv_msgflg msg_copy)) [
        | inl e ↦ rw e h
        | inr e ↦ rw e (remove_item-IsCounted q i x at h)
      ]

  found-IsCounted :
      (c : Config) (q : Queue) (i : ℕ) (o : Option Item) (m : M)
      → get_elem? q.items i ≡ o
      → IsCounted q
      → IsCounted (receive_found mem time c q i o m).queue
  unfolding receive_found msg_deliver
  found-IsCounted c q i none m e h = h
  found-IsCounted c q i (some x) m e h =
      let same = sized-same c q x m (delivered_size c x) in
      queue_after-IsCounted c i x _ _ (rw same.0 e) (same.1 h)

  receive-IsCounted :
      (c : Config) (index : ℕ) (q : Queue) (o : Option ℕ) (m : M)
      → IsCounted q
      → IsCounted (receive mem time c index q o m).queue
  unfolding receive
  receive-IsCounted c index q (some i) m h = found-IsCounted c q i (get_elem? q.items i) m refl h
  receive-IsCounted c index q none m h = elim (Bool-cases (has_flag c.msgrcv_msgflg ipc_nowait)) [
    | inl e ↦ rw e h
    | inr e ↦ rw e h
  ]

  pub do_msgrcv-IsCounted :
      (c : Config) (index : ℕ) (q : Queue) (m : M)
      → IsCounted q
      → IsCounted (do_msgrcv mem time c index q m).queue
  unfolding do_msgrcv
  do_msgrcv-IsCounted c index q m h = elim (Bool-cases (bad_arguments c)) [
    | inl e ↦ rw e h
    | inr e ↦ rw e (receive-IsCounted c index q (find_item c q.items) m h)
  ]
