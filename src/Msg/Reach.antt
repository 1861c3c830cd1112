-- ===== src/Msg/Reach.antt =====
-- Sequences of calls on the message queues: their counters stay right.
use proot.Prelude.{
  Result-cases, bind-ok, unless-ok, einval, All-set_any, ℕ, ◌+◌, ◌≡◌, refl, ap, sym, inl, inr, List,
  [], ◌∷◌, ◌++◌, Option, none, some, length, get_elem?, set, arith, All, All-append, Bool-cases,
  Result, ok, ltb, ◌==◌,
}
use proot.Sysvipc.{
  ℤ, Config, lookup_ipc_object, and_then, found, unused, nothing, Slot, find_slot, wake_all,
  without_ipc_64, generation_at,
}
use proot.Sysvipc.Lookup.{lookup_ok, All-get}
use proot.Msg.{
  Item, Queue, queue_object, Memory, Ipc, max_msg_size, msgget, queue_slot, set_up_queue,
  receives_on,
}
use proot.Msg.Receive.{
  retry_queue, store, do_msgrcv, msgrcv, msgrcv_retry, end_retry, Received, is_retry, is_eagain,
  is_not_waiting,
}
use proot.Msg.Calls.{
  do_msgctl, append_item, msgsnd, read_item, wake_receiver, msgctl, removed_queue, bad_type,
}
use proot.Msg.Counts.{IsWhole, IsCounted, append_item-IsCounted, do_msgrcv-IsCounted, total}

lookup-IsCounted :
    (id : ℕ) (l : List Queue) (i : ℕ) (q : Queue)
    → All IsCounted l
    → lookup_ipc_object id l ≡ ok (i, q)
    → IsCounted q
lookup-IsCounted id l i q h e = All-get IsCounted l i q h (lookup_ok id l i q e).0

set_up_queue-IsCounted : (key g : ℕ) → IsCounted (set_up_queue key g)
set_up_queue-IsCounted key g = record {
  qnum = λ _. refl;
  cbytes = λ _. unfold total in refl;
  whole = tt;
}

removed_queue-IsCounted : (q : Queue) → IsCounted (removed_queue q)
removed_queue-IsCounted q = record { qnum = λ v. cc (v); cbytes = λ v. cc (v); whole = tt }

slot-IsCounted :
    (l l' : List Queue) (queue_id msgflg id : ℕ) (r : Slot)
    → All IsCounted l
    → queue_slot l queue_id msgflg r ≡ ok (id, l')
    → All IsCounted l'
unfolding queue_slot
slot-IsCounted l l' queue_id msgflg id (found i) h e =
    let same : l ≡ l' = ground arith in rw (← same) h
slot-IsCounted l l' queue_id msgflg id (unused i) h e =
    let q = set_up_queue queue_id (generation_at l i) in
    let same : set l i q ≡ l' = ground arith in
    rw (← same) (All-set_any IsCounted l i q h (set_up_queue-IsCounted queue_id _))
slot-IsCounted l l' queue_id msgflg id nothing h e =
    let q = set_up_queue queue_id 0 in
    let same : l ++ q ∷ [] ≡ l' = ground arith in
    rw (← same) (All-append IsCounted l (q ∷ []) h (set_up_queue-IsCounted queue_id 0, tt))

end_retry-IsCounted :
    {M : Type 0} (mem : Memory M) (time : ℕ) (r : Received M)
    → IsCounted r.queue
    → IsCounted (end_retry mem time r).queue
unfolding end_retry
end_retry-IsCounted mem time r h = elim (Bool-cases (is_not_waiting r.config.wait_reason)) [
  | inl e ↦ rw (end_retry, e) h
  | inr e ↦ rw (end_retry, e) h
]

-- Reading gives as many bytes as were asked for.
abbrev pub ReadsWhole : {M : Type 0} → Memory M → Type 0
ReadsWhole {M} mem =
    (m : M) (pid address n : ℕ) (l : List ℕ) → mem.read_bytes m pid address n ≡ ok l → length l ≡ n

module _ {M : Type 0} (mem : Memory M) (reads : ReadsWhole mem) where
  read_item-IsWhole :
      (m : M) (pid msgp msgsz : ℕ) (x : Item) → read_item mem m pid msgp msgsz ≡ ok x → IsWhole x
  unfolding read_item
  read_item-IsWhole m pid msgp msgsz x h =
      let short = unless-ok (ltb max_msg_size msgsz) einval _ x h in
      let typed = bind-ok (mem.read_long m pid msgp) _ x short.1 in
      let good = unless-ok (bad_type typed.0) einval _ x typed.2 in
      let text = bind-ok (mem.read_bytes m pid (msgp + 8) msgsz) _ x good.1 in
      let n = reads m pid (msgp + 8) msgsz text.0 text.1 in
      let same : record { mtype = typed.0; mtext = text.0; mtext_length = msgsz } ≡ x =
        cc (text.2) in
      rw (← same) (sym n, ground arith)

-- How the queues of a name-space come to be: system calls of its tracees in any order, retries, and
-- whatever leaves the queues as they are.
pub data Step {M : Type 0} (mem : Memory M) : Ipc M → Ipc M → Type 0 where
  get :
      (ipc : Ipc M) (queue_id msgflg id : ℕ) (l : List Queue)
      → msgget ipc.queues queue_id msgflg ≡ ok (id, l)
      → Step mem ipc (record ipc { queues = l })
  send :
      (ipc ipc' : Ipc M) (r : Result ℕ) (time pid id msgp msgsz : ℕ)
      → msgsnd mem time ipc pid id msgp msgsz ≡ some (r, ipc')
      → Step mem ipc ipc'
  receive_call :
      (ipc : Ipc M) (c : Config) (time id msgp msgsz : ℕ) (msgtyp : ℤ) (msgflg : ℕ)
      → Step mem ipc (msgrcv mem time ipc c id msgp msgsz msgtyp msgflg).1
  retry :
      (ipc ipc' : Ipc M) (r : Result ℕ) (time : ℕ) (c : Config)
      → msgrcv_retry mem time ipc c ≡ some (r, ipc')
      → Step mem ipc ipc'
  control :
      (ipc ipc' : Ipc M) (r : Result ℕ) (pid id cmd buf : ℕ)
      → msgctl mem ipc pid id cmd buf ≡ some (r, ipc')
      → Step mem ipc ipc'
  elsewhere : (ipc ipc' : Ipc M) → ipc'.queues ≡ ipc.queues → Step mem ipc ipc'

pub data Reach {M : Type 0} (mem : Memory M) (ipc : Ipc M) : Ipc M → Type 0 where
  here : Reach mem ipc ipc
  next : {ipc' ipc'' : Ipc M} → Reach mem ipc ipc' → Step mem ipc' ipc'' → Reach mem ipc ipc''

module _ {M : Type 0} (mem : Memory M) (reads : ReadsWhole mem) (ipc ipc' : Ipc M)
    (h : All IsCounted ipc.queues) where
  same-AllCounted : ipc ≡ ipc' → All IsCounted ipc'.queues
  same-AllCounted e = rw (← e) h

  send-AllCounted :
      (r : Result ℕ) (time pid id msgp msgsz : ℕ)
      → msgsnd mem time ipc pid id msgp msgsz ≡ some (r, ipc')
      → All IsCounted ipc'.queues
  unfolding msgsnd
  send-AllCounted r time pid id msgp msgsz e =
      elim (Result-cases (lookup_ipc_object id ipc.queues)) [
        | inl (x, k) ↦ same-AllCounted (cc (rw (msgsnd, k) at e))
        | inr ((i, q), k) ↦ elim (Result-cases (read_item mem ipc.memory pid msgp msgsz)) [
          | inl (x, k') ↦ same-AllCounted (cc (rw (msgsnd, k, k') at e))
          | inr (item, k') ↦
              sent i q item k k' (wake_receiver i item ipc.configs) (rw (msgsnd, k, k') at e)
        ]
      ]
    where
      sent :
          (i : ℕ) (q : Queue) (item : Item)
          → lookup_ipc_object id ipc.queues ≡ ok (i, q)
          → read_item mem ipc.memory pid msgp msgsz ≡ ok item
          → (o : Option (List Config))
          → and_then {B = Result ℕ × Ipc M} o (λ l. some (
            ok 0,
            record ipc { queues = set ipc.queues i (append_item q pid time item); configs = l },
          ))
            ≡ some (r, ipc')
          → All IsCounted ipc'.queues
      sent i q item k k' none e' = cc (e')
      sent i q item k k' (some l) e' =
          let same : set ipc.queues i (append_item q pid time item) ≡ ipc'.queues = ground arith in
          rw (← same) (
            All-set_any IsCounted ipc.queues i (append_item q pid time item) h (
              append_item-IsCounted q pid time item (lookup-IsCounted id ipc.queues i q h k)
                (read_item-IsWhole mem reads ipc.memory pid msgp msgsz item k')))

  retry_queue-AllCounted :
      (r : Result ℕ) (time : ℕ) (c : Config) (o : Option Queue)
      → get_elem? ipc.queues c.waiting_object_index ≡ o
      → retry_queue mem time ipc c o ≡ some (r, ipc')
      → All IsCounted ipc'.queues
  unfolding retry_queue
  retry_queue-AllCounted r time c none k e = cc (e)
  retry_queue-AllCounted r time c (some q) k e = elim (Bool-cases q.valid) [
    | inr v ↦ cc (rw (retry_queue, v) at e)
    | inl v ↦
        let got = end_retry mem time (do_msgrcv mem time c c.waiting_object_index q ipc.memory) in
        let same : set ipc.queues c.waiting_object_index got.queue ≡ ipc'.queues =
          let e' : some (got.status, store mem time ipc c.waiting_object_index got)
              ≡ some (r, ipc') =
            simp (retry_queue, v) at e in
          ap (λ (o' : Option (Result ℕ × Ipc M)). elim o' [ none ↦ [] | some p ↦ p.1.queues ]) e' in
        rw (← same) (
          All-set_any IsCounted ipc.queues c.waiting_object_index got.queue h (
            end_retry-IsCounted mem time _ (
              do_msgrcv-IsCounted mem time c c.waiting_object_index q ipc.memory
                (All-get IsCounted ipc.queues c.waiting_object_index q h k))))
  ]

  retry-AllCounted :
      (r : Result ℕ) (time : ℕ) (c : Config)
      → msgrcv_retry mem time ipc c ≡ some (r, ipc')
      → All IsCounted ipc'.queues
  unfolding msgrcv_retry
  retry-AllCounted r time c e = elim (Bool-cases (is_retry c.chain_state)) [
    | inr k ↦ cc (rw (msgrcv_retry, k) at e)
    | inl k ↦ elim (Bool-cases (is_eagain c.status_after_wait)) [
      | inr k' ↦ let same : ipc.queues ≡ ipc'.queues = ground arith in rw (← same) h
      | inl k' ↦
          retry_queue-AllCounted r time c (get_elem? ipc.queues c.waiting_object_index) refl
            (rw (msgrcv_retry, k, k') at e)
    ]
  ]

  do_msgctl-AllCounted :
      (r : Result ℕ) (pid i : ℕ) (q : Queue) (command buf : ℕ) (o : Option (List Config))
      → wake_all (receives_on i) ipc.configs ≡ o
      → do_msgctl mem ipc pid i q command buf ≡ some (r, ipc')
      → All IsCounted ipc'.queues
  unfolding do_msgctl
  do_msgctl-AllCounted r pid i q command buf o k e = elim (Bool-cases (command == 0)) [
    | inr z ↦ let same : ipc.queues ≡ ipc'.queues = ground arith in rw (← same) h
    | inl z ↦ removed o (rw (do_msgctl, z, k) at e)
  ]
    where
      removed :
          (o : Option (List Config))
          → and_then {B = Result ℕ × Ipc M} o (λ l.
            some (ok 0, record ipc { queues = set ipc.queues i (removed_queue q); configs = l }))
            ≡ some (r, ipc')
          → All IsCounted ipc'.queues
      removed none e' = cc (e')
      removed (some l) e' =
          let same : set ipc.queues i (removed_queue q) ≡ ipc'.queues = ground arith in
          rw (← same)
            (All-set_any IsCounted ipc.queues i (removed_queue q) h (removed_queue-IsCounted q))

  control-AllCounted :
      (r : Result ℕ) (pid id cmd buf : ℕ)
      → msgctl mem ipc pid id cmd buf ≡ some (r, ipc')
      → All IsCounted ipc'.queues
  unfolding msgctl
  control-AllCounted r pid id cmd buf e = elim (Result-cases (lookup_ipc_object id ipc.queues)) [
    | inl (x, k) ↦ same-AllCounted (cc (rw (msgctl, k) at e))
    | inr ((i, q), k) ↦
        do_msgctl-AllCounted r pid i q (without_ipc_64 cmd) buf _ refl (rw (msgctl, k) at e)
  ]

module _ {M : Type 0} (mem : Memory M) (ipc : Ipc M) (h : All IsCounted ipc.queues) where
  receive-AllCounted :
      (c : Config) (time id msgp msgsz : ℕ) (msgtyp : ℤ) (msgflg : ℕ)
      → All IsCounted (msgrcv mem time ipc c id msgp msgsz msgtyp msgflg).1.queues
  unfolding msgrcv
  receive-AllCounted c time id msgp msgsz msgtyp msgflg =
      elim (Result-cases (lookup_ipc_object id ipc.queues)) [
        | inl (x, k) ↦ rw (msgrcv, k) h
        | inr ((i, q), k) ↦
            rw (msgrcv, k)
              (All-set_any IsCounted ipc.queues i _ h (
                do_msgrcv-IsCounted mem time _ i q ipc.memory
                  (lookup-IsCounted id ipc.queues i q h k)))
      ]

Step-AllCounted :
    {M : Type 0} (mem : Memory M) {ipc ipc' : Ipc M}
    → ReadsWhole mem
    → Step mem ipc ipc'
    → All IsCounted ipc.queues
    → All IsCounted ipc'.queues
Step-AllCounted mem reads (get ipc queue_id msgflg id l e) h =
    slot-IsCounted ipc.queues l queue_id msgflg id (find_slot queue_id 0 none ipc.queues) h
      (unfold msgget in e)
Step-AllCounted mem reads (send ipc ipc' r time pid id msgp msgsz e) h =
    send-AllCounted mem reads ipc ipc' h r time pid id msgp msgsz e
Step-AllCounted mem reads (receive_call ipc c time id msgp msgsz msgtyp msgflg) h =
    receive-AllCounted mem ipc h c time id msgp msgsz msgtyp msgflg
Step-AllCounted mem reads (retry ipc ipc' r time c e) h =
    retry-AllCounted mem reads ipc ipc' h r time c e
Step-AllCounted mem reads (control ipc ipc' r pid id cmd buf e) h =
    control-AllCounted mem reads ipc ipc' h r pid id cmd buf e
Step-AllCounted mem reads (elsewhere ipc ipc' e) h = rw e h

-- Where reading the memory of a tracee gives as many bytes as asked for, and the counters of the
-- queues are right at first: after any sequence of system calls by any tracees, retries included,
-- each valid queue has the number of its messages in msg_qnum and the sum of their lengths in
-- msg_cbytes, and each message has the bytes that its length says, at most the maximum.
pub Reach-AllCounted :
    {M : Type 0} (mem : Memory M) {ipc ipc' : Ipc M}
    → ReadsWhole mem
    → All IsCounted ipc.queues
    → Reach mem ipc ipc'
    → All IsCounted ipc'.queues
Reach-AllCounted mem reads h here = h
Reach-AllCounted mem reads h (next r s) =
    Step-AllCounted mem reads s (Reach-AllCounted mem reads h r)
