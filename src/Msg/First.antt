-- ===== src/Msg/First.antt =====
-- Receiving: the first message that matches is taken, and what is sent is received.
use proot.Prelude.{
  e2big, ℕ, ◌+◌, ◌-◌, ◌≤◌, ◌≡◌, refl, ap, sym, ◌∙◌, true, false, List, [], ◌∷◌, ◌++◌, Option, none,
  some, length, get_elem?, set, take, arith, All, Result, ok, err,
}
use proot.Sysvipc.{ℤ, has_flag, ipc_nowait, Config, wait_queue_recv, lookup_ipc_object, and_then}
use proot.Sysvipc.Lookup.{lookup-set_same}
use proot.Msg.{Item, Queue, queue_object, Memory, Ipc, msg_copy}
use proot.Msg.Receive.{
  deliver_sized, takes, find_match, find_item, remove_at, remove_item, delivered_size, msg_deliver,
  bad_arguments, and_write, do_msgrcv, receive, receive_found, msgrcv,
}
use proot.Msg.Calls.{append_item, msgsnd, read_item, wake_receiver}

-- No item of the list is one that the tracee waits for.
abbrev pub NoneTaken : Config → List Item → Type 0
NoneTaken c l = All (λ x. takes c x ≡ false) l

pub find_match-first :
    (c : Config) (before after : List Item) (item : Item)
    → NoneTaken c before
    → takes c item ≡ true
    → find_match c (before ++ item ∷ after) ≡ some (length before)
unfolding find_match
find_match-first c [] after item n t = rw t refl
find_match-first c (x ∷ l) after item n t =
    rw (n.0, find_match-first c l after item n.1 t) (ap some (omega arith))

pub find_match-none : (c : Config) (l : List Item) → NoneTaken c l → find_match c l ≡ none
unfolding find_match
find_match-none c [] n = refl
find_match-none c (x ∷ l) n = rw (n.0, find_match-none c l n.1) refl

get_elem?-middle :
    (before after : List Item) (item : Item)
    → get_elem? (before ++ item ∷ after) (length before) ≡ some item
get_elem?-middle [] after item = refl
get_elem?-middle (x ∷ l) after item = get_elem?-middle l after item

pub append_nil : (l : List Item) → l ++ [] ≡ l
append_nil [] = refl
append_nil (x ∷ l) = ap (λ r. x ∷ r) (append_nil l)

remove_at-middle :
    (before after : List Item) (item : Item)
    → remove_at (length before) (before ++ item ∷ after) ≡ before ++ after
unfolding remove_at
remove_at-middle [] after item = refl
remove_at-middle (x ∷ l) after item = ap (λ r. x ∷ r) (remove_at-middle l after item)

-- The memory after the type and the first bytes of the text have been written without an error.
pub record Writes {M : Type 0} (mem : Memory M) (c : Config) (item : Item) (n : ℕ) (m m' : M)
    : Type 0 where
  pub middle : M
  pub type_written : mem.write_long m c.pid c.msgrcv_msgp item.mtype ≡ (middle, ok tt)
  pub text_written :
      mem.write_bytes middle c.pid (c.msgrcv_msgp + 8) (take n item.mtext) ≡ (m', ok tt)

-- What a queue is behind a message taken from it.
abbrev pub taken : Config → ℕ → Queue → List Item → Item → Queue
taken c time q rest item = record q {
  items = rest;
  stats = record q.stats {
    msg_lrpid = c.pid;
    msg_rtime = time;
    msg_qnum = q.stats.msg_qnum - 1;
    msg_cbytes = q.stats.msg_cbytes - item.mtext_length;
  };
}

and_write-ok :
    {M : Type 0} (w : M × Result (Unit {0})) (f : M → M × Result (Unit {0})) (m : M)
    (r : M × Result (Unit {0}))
    → w ≡ (m, ok tt)
    → f m ≡ r
    → and_write w f ≡ r
and_write-ok w f m r e h = ap (λ (v : _ × Result (Unit {0})). and_write v f) e ∙ h

module _ {M : Type 0} (mem : Memory M) (time : ℕ) where
  deliver-written :
      (c : Config) (q : Queue) (item : Item) (n : ℕ) (m m' : M)
      → delivered_size c item ≡ ok n
      → Writes mem c item n m m'
      → msg_deliver mem time c q item m
        ≡ (m', record q { stats = record q.stats { msg_lrpid = c.pid; msg_rtime = time } }, ok n)
  unfolding msg_deliver deliver_sized
  deliver-written c q item n m m' s w =
      let written =
        and_write-ok (mem.write_long m c.pid c.msgrcv_msgp item.mtype)
          (λ o. mem.write_bytes o c.pid (c.msgrcv_msgp + 8) (take n item.mtext)) w.middle
          (m', ok tt) w.type_written w.text_written in
      rw (msg_deliver, s, deliver_sized, written) refl

  found-written :
      (c : Config) (q : Queue) (before after : List Item) (item : Item) (n : ℕ) (m m' : M)
      → has_flag c.msgrcv_msgflg msg_copy ≡ false
      → q.items ≡ before ++ item ∷ after
      → delivered_size c item ≡ ok n
      → Writes mem c item n m m'
      → receive_found mem time c q (length before) (some item) m ≡ record {
        status = ok n;
        config = c;
        queue = taken c time q (before ++ after) item;
        memory = m';
      }
  unfolding receive_found remove_item
  found-written c q before after item n m m' y e s w =
      let rest : remove_at (length before) q.items ≡ before ++ after =
        rw e (remove_at-middle before after item) in
      simp (receive_found, deliver-written c q item n m m' s w, y, remove_item, rest)

  -- Without MSG_COPY, and where the arguments are valid, `sysvipc_do_msgrcv` delivers the first
  -- message that matches, if that is not too long for the buffer or may be cut and the buffer is
  -- written, and takes exactly that message from the queue.
  pub do_msgrcv-first :
      (c : Config) (index : ℕ) (q : Queue) (before after : List Item) (item : Item) (n : ℕ)
      (m m' : M)
      → bad_arguments c ≡ false
      → has_flag c.msgrcv_msgflg msg_copy ≡ false
      → q.items ≡ before ++ item ∷ after
      → NoneTaken c before
      → takes c item ≡ true
      → delivered_size c item ≡ ok n
      → Writes mem c item n m m'
      → do_msgrcv mem time c index q m ≡ record {
        status = ok n;
        config = c;
        queue = taken c time q (before ++ after) item;
        memory = m';
      }
  unfolding do_msgrcv receive
  do_msgrcv-first c index q before after item n m m' b y e p t s w =
      let at : find_item c q.items ≡ some (length before) =
        unfold find_item in rw (y, e) (find_match-first c before after item p t) in
      let here : get_elem? q.items (length before) ≡ some item =
        rw e (get_elem?-middle before after item) in
      rw (do_msgrcv, b, at, receive, here) (found-written c q before after item n m m' y e s w)

  -- A message that is too long, and may not be cut, stays in the queue.
  pub do_msgrcv-too_big :
      (c : Config) (index : ℕ) (q : Queue) (before after : List Item) (item : Item) (m : M)
      → bad_arguments c ≡ false
      → has_flag c.msgrcv_msgflg msg_copy ≡ false
      → q.items ≡ before ++ item ∷ after
      → NoneTaken c before
      → takes c item ≡ true
      → delivered_size c item ≡ err e2big
      → do_msgrcv mem time c index q m
        ≡ record { status = err e2big; config = c; queue = q; memory = m }
  unfolding do_msgrcv receive receive_found msg_deliver deliver_sized
  do_msgrcv-too_big c index q before after item m b y e p t s =
      let at : find_item c q.items ≡ some (length before) =
        unfold find_item in rw (y, e) (find_match-first c before after item p t) in
      let here : get_elem? q.items (length before) ≡ some item =
        rw e (get_elem?-middle before after item) in
      rw (do_msgrcv, b, at, receive, here, receive_found, msg_deliver, s, deliver_sized) refl

  -- Without a matching message a valid request without MSG_COPY and IPC_NOWAIT leaves its tracee
  -- waiting for the queue.
  pub do_msgrcv-waits :
      (c : Config) (index : ℕ) (q : Queue) (m : M)
      → bad_arguments c ≡ false
      → has_flag c.msgrcv_msgflg msg_copy ≡ false
      → has_flag c.msgrcv_msgflg ipc_nowait ≡ false
      → NoneTaken c q.items
      → do_msgrcv mem time c index q m ≡ record {
        status = ok 0;
        config = record c { wait_reason = wait_queue_recv; waiting_object_index = index };
        queue = q;
        memory = m;
      }
  unfolding do_msgrcv receive
  do_msgrcv-waits c index q m b y w p =
      let at : find_item c q.items ≡ none =
        unfold find_item in rw y (find_match-none c q.items p) in
      rw (do_msgrcv, b, at, receive, w) refl

-- What a call of msgrcv(2) asks for.
abbrev pub asking : Config → ℕ → ℕ → ℤ → ℕ → Config
asking c msgp msgsz msgtyp msgflg = record c {
  msgrcv_msgp = msgp;
  msgrcv_msgsz = msgsz;
  msgrcv_msgtyp = msgtyp;
  msgrcv_msgflg = msgflg;
}

-- What a successful `sysvipc_msgsnd` does, apart from waking a tracee.
pub msgsnd_success :
    {M : Type 0} (mem : Memory M) (time : ℕ) (ipc ipc' : Ipc M) (pid id msgp msgsz i : ℕ)
    (q : Queue) (item : Item)
    → lookup_ipc_object id ipc.queues ≡ ok (i, q)
    → read_item mem ipc.memory pid msgp msgsz ≡ ok item
    → msgsnd mem time ipc pid id msgp msgsz ≡ some (ok 0, ipc')
    → (lookup_ipc_object id ipc'.queues ≡ ok (i, append_item q pid time item))
      × (ipc'.memory ≡ ipc.memory)
unfolding msgsnd
msgsnd_success {M} mem time ipc ipc' pid id msgp msgsz i q item e r h =
    go (wake_receiver i item ipc.configs) (rw (msgsnd, e, r) at h)
  where
    sent : Queue
    sent = append_item q pid time item

    go :
        (o : Option (List Config))
        → and_then {B = Result ℕ × Ipc M} o
            (λ l. some (ok 0, record ipc { queues = set ipc.queues i sent; configs = l }))
          ≡ some (ok 0, ipc')
        → (lookup_ipc_object id ipc'.queues ≡ ok (i, sent)) × (ipc'.memory ≡ ipc.memory)
    go none k = cc (k)
    go (some l) k =
        let same : record ipc { queues = set ipc.queues i sent; configs = l } ≡ ipc' = cc (k) in
        (
          ap (λ (j : Ipc M). lookup_ipc_object id j.queues) (sym same)
              ∙ lookup-set_same id ipc.queues i q sent e (unfold append_item in refl)
                  (unfold append_item in refl),
          ap (λ (j : Ipc M). j.memory) (sym same),
        )

-- What one tracee sends, another receives: where the queue had no message that matches, the new one
-- matches, the arguments are valid and without MSG_COPY, the text fits and the buffer is written,
-- the msgrcv(2) behind a msgsnd(2) returns the length of the text, has written its bytes, and
-- leaves the messages in the queue as they were before the two.
pub msgsnd-msgrcv :
    {M : Type 0} (mem : Memory M) (time : ℕ) (ipc ipc' : Ipc M) (pid id msgp msgsz i : ℕ)
    (q : Queue) (item : Item) (c : Config) (buf size : ℕ) (msgtyp : ℤ) (msgflg : ℕ) (m : M)
    → lookup_ipc_object id ipc.queues ≡ ok (i, q)
    → read_item mem ipc.memory pid msgp msgsz ≡ ok item
    → msgsnd mem time ipc pid id msgp msgsz ≡ some (ok 0, ipc')
    → bad_arguments (asking c buf size msgtyp msgflg) ≡ false
    → has_flag msgflg msg_copy ≡ false
    → NoneTaken (asking c buf size msgtyp msgflg) q.items
    → takes (asking c buf size msgtyp msgflg) item ≡ true
    → item.mtext_length ≤ size
    → Writes mem (asking c buf size msgtyp msgflg) item item.mtext_length ipc.memory m
    → ((msgrcv mem time ipc' c id buf size msgtyp msgflg).0 ≡ ok item.mtext_length)
      × ((msgrcv mem time ipc' c id buf size msgtyp msgflg).1.memory ≡ m)
      × ((got : Queue) × (got.items ≡ q.items)
          × ((msgrcv mem time ipc' c id buf size msgtyp msgflg).1.queues ≡ set ipc'.queues i got))
unfolding msgrcv
msgsnd-msgrcv mem time ipc ipc' pid id msgp msgsz i q item c buf size msgtyp msgflg m e r h b y p t
      f w =
    let c' = asking c buf size msgtyp msgflg in
    let out = msgsnd_success mem time ipc ipc' pid id msgp msgsz i q item e r h in
    let fits : delivered_size c' item ≡ ok item.mtext_length =
      unfold delivered_size in ground arith in
    let got =
      do_msgrcv-first mem time c' i (append_item q pid time item) q.items [] item item.mtext_length
        ipc.memory m b y (unfold append_item in refl) p t fits w in
    (
      rw (msgrcv, out.0, out.1, got) refl,
      rw (msgrcv, out.0, out.1, got) refl,
      (
        taken c' time (append_item q pid time item) (q.items ++ []) item,
        append_nil q.items,
        rw (msgrcv, out.0, out.1, got) refl,
      ),
    )
