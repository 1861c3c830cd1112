-- ===== src/Msg/Receive.antt =====
-- src/extension/sysvipc/sysvipc_msg.c: delivering a message, msgrcv(2) and its retry.
use proot.Prelude.{
  ℕ, zero, suc, ◌+◌, ◌-◌, ◌/◌, ◌%◌, ◌^◌, Bool, true, false, not, ◌&&◌, ◌||◌, Option, none, some,
  List, [], ◌∷◌, length, get_elem?, set, take, ltb, leb, ◌==◌, if◌then◌else◌, e2big, eagain, enomsg,
  eintr, einval, Result, ok, err,
}
use proot.Sysvipc.{
  ℤ, pos, negsuc, has_flag, ipc_nowait, Config, WaitReason, not_waiting, wait_queue_recv,
  not_chained, ChainState, msgrcv_retry_state, lookup_ipc_object, update_config,
}
use proot.Msg.{
  Item, Stats, Queue, queue_object, Memory, Ipc, msg_noerror, msg_except, msg_copy, msg_match,
}

-- How much of a message is delivered.
unfoldable pub delivered_size : Config → Item → Result ℕ
delivered_size c msg =
    if ltb c.msgrcv_msgsz msg.mtext_length
    then (if has_flag c.msgrcv_msgflg msg_noerror then ok c.msgrcv_msgsz else err e2big)
    else ok msg.mtext_length

-- A write behind one that has succeeded.
abbrev pub and_write :
    {M : Type 0} → M × Result (Unit {0}) → (M → M × Result (Unit {0})) → M × Result (Unit {0})
and_write (m, ok _) f = f m
and_write (m, err e) f = (m, err e)

abbrev delivered_stats : Stats → ℕ → ℕ → Stats
delivered_stats s pid time = record s { msg_lrpid = pid; msg_rtime = time }

-- The flags other than IPC_NOWAIT, MSG_NOERROR, MSG_EXCEPT and MSG_COPY.
abbrev pub other_flags : ℕ → Bool
other_flags msgflg = not (msgflg % 2 ^ 11 == 0) || not (msgflg / 2 ^ 15 == 0)

-- The checks of the arguments in `sysvipc_do_msgrcv`. `msgrcv_msgsz` is cut to an `int` first.
unfoldable pub bad_arguments : Config → Bool
bad_arguments c =
    leb (2 ^ 31) (c.msgrcv_msgsz % 2 ^ 32)
    || other_flags c.msgrcv_msgflg
    || (has_flag c.msgrcv_msgflg msg_copy
        && (not (has_flag c.msgrcv_msgflg ipc_nowait) || has_flag c.msgrcv_msgflg msg_except))

-- The loop for MSG_COPY: the item whose index is the type that was asked for.
unfoldable pub find_index : ℤ → List Item → Option ℕ
find_index (negsuc n) items = none
find_index (pos n) items = if ltb n (length items) then some n else none

abbrev pub takes : Config → Item → Bool
takes c item = msg_match item.mtype c.msgrcv_msgtyp c.msgrcv_msgflg

abbrev pub one_later : Option ℕ → Option ℕ
one_later none = none
one_later (some i) = some (i + 1)

-- The other loop: the index of the first item that matches.
unfoldable pub find_match : Config → List Item → Option ℕ
find_match c [] = none
find_match c (item ∷ l) =
    let later = one_later (find_match c l) in if takes c item then some 0 else later

unfoldable pub find_item : Config → List Item → Option ℕ
find_item c items =
    if has_flag c.msgrcv_msgflg msg_copy
    then find_index c.msgrcv_msgtyp items
    else find_match c items

-- STAILQ_REMOVE of the item at an index.
unfoldable pub remove_at : ℕ → List Item → List Item
remove_at i [] = []
remove_at zero (x ∷ l) = l
remove_at (suc i) (x ∷ l) = x ∷ remove_at i l

unfoldable pub remove_item : ℕ → Item → Queue → Queue
remove_item i item q = record q {
  items = remove_at i q.items;
  stats = record q.stats {
    msg_qnum = q.stats.msg_qnum - 1;
    msg_cbytes = q.stats.msg_cbytes - item.mtext_length;
  };
}

-- What receiving gives: the result, and the caller's configuration, the queue and the memory.
pub record Received (M : Type 0) : Type 0 where
  pub status : Result ℕ
  pub config : Config
  pub queue : Queue
  pub memory : M

abbrev pub is_not_waiting : WaitReason → Bool
is_not_waiting not_waiting = true
is_not_waiting _ = false

abbrev pub is_retry : ChainState → Bool
is_retry msgrcv_retry_state = true
is_retry _ = false

abbrev pub is_eagain : Result ℕ → Bool
is_eagain (err eagain) = true
is_eagain _ = false

abbrev pub after_writes :
    {M : Type 0} → Config → Queue → ℕ → ℕ → M × Result (Unit {0}) → M × Queue × Result ℕ
after_writes c q time msgsz (m, ok _) =
    (m, record q { stats = delivered_stats q.stats c.pid time }, ok msgsz)
after_writes c q time msgsz (m, err e) = (m, q, err e)

-- What receiving an item leaves of the queue.
abbrev pub queue_after : Config → ℕ → Item → Queue → Result ℕ → Queue
queue_after c i item q (err e) = q
queue_after c i item q (ok _) =
    if has_flag c.msgrcv_msgflg msg_copy then q else remove_item i item q

module _ {M : Type 0} (mem : Memory M) (time : ℕ) where
  unfoldable pub deliver_sized : Config → Queue → Item → M → Result ℕ → M × Queue × Result ℕ
  deliver_sized c q msg m (err e) = (m, q, err e)
  deliver_sized c q msg m (ok msgsz) = after_writes c q time msgsz (
      and_write (mem.write_long m c.pid c.msgrcv_msgp msg.mtype)
        λ n. mem.write_bytes n c.pid (c.msgrcv_msgp + 8) (take msgsz msg.mtext))

  -- `sysvipc_msg_deliver`
  unfoldable pub msg_deliver : Config → Queue → Item → M → M × Queue × Result ℕ
  unfolding deliver_sized
  msg_deliver c q msg m = deliver_sized c q msg m (delivered_size c msg)

  unfoldable pub receive_found : Config → Queue → ℕ → Option Item → M → Received M
  receive_found c q i none m = record { status = err einval; config = c; queue = q; memory = m }
  receive_found c q i (some item) m =
      let d = msg_deliver c q item m in
      record { status = d.2; config = c; queue = queue_after c i item d.1 d.2; memory = d.0 }

  unfoldable pub receive : Config → ℕ → Queue → Option ℕ → M → Received M
  unfolding receive_found
  receive c index q none m =
      if has_flag c.msgrcv_msgflg ipc_nowait
      then record { status = err enomsg; config = c; queue = q; memory = m }
      else record {
        status = ok 0;
        config = record c { wait_reason = wait_queue_recv; waiting_object_index = index };
        queue = q;
        memory = m;
      }
  receive c index q (some i) m = receive_found c q i (get_elem? q.items i) m

  -- `sysvipc_do_msgrcv`
  unfoldable pub do_msgrcv : Config → ℕ → Queue → M → Received M
  do_msgrcv c index q m =
      if bad_arguments c
      then record { status = err einval; config = c; queue = q; memory = m }
      else receive c index q (find_item c q.items) m

  -- What a call by the tracee of `c` leaves in the name-space.
  abbrev pub store : Ipc M → ℕ → Received M → Ipc M
  store ipc index r = record {
    queues = set ipc.queues index r.queue;
    configs = update_config r.config.pid (λ _. r.config) ipc.configs;
    memory = r.memory;
  }

  -- `sysvipc_msgrcv`, called by the tracee of `c`; the type and the flags are cut to an `int`.
  unfoldable pub msgrcv : Ipc M → Config → ℕ → ℕ → ℕ → ℤ → ℕ → Result ℕ × Ipc M
  msgrcv ipc c id msgp msgsz msgtyp msgflg = elim (lookup_ipc_object id ipc.queues) [
    | err e ↦ (err e, ipc)
    | ok (index, q) ↦
        let asking = record c {
          msgrcv_msgp = msgp;
          msgrcv_msgsz = msgsz;
          msgrcv_msgtyp = msgtyp;
          msgrcv_msgflg = msgflg;
        } in
        let r = do_msgrcv asking index q ipc.memory in (r.status, store ipc index r)
  ]

  -- A retry that asks to wait again is interrupted instead.
  unfoldable pub end_retry : Received M → Received M
  end_retry r =
      let c = record r.config { chain_state = not_chained } in
      if is_not_waiting r.config.wait_reason
      then record r { config = c }
      else record r { status = err eintr; config = record c { wait_reason = not_waiting } }

  unfoldable pub retry_queue : Ipc M → Config → Option Queue → Option (Result ℕ × Ipc M)
  retry_queue ipc c none = none
  retry_queue ipc c (some q) =
      if not q.valid
      then none
      else let r = end_retry (do_msgrcv c c.waiting_object_index q ipc.memory) in
        some (r.status, store ipc c.waiting_object_index r)

  -- `sysvipc_msgrcv_retry`; `none` is a failed assertion.
  unfoldable pub msgrcv_retry : Ipc M → Config → Option (Result ℕ × Ipc M)
  unfolding retry_queue
  msgrcv_retry ipc c =
      if not (is_retry c.chain_state)
      then none
      else if not (is_eagain c.status_after_wait)
      then some (
        c.status_after_wait,
        record ipc {
          configs = update_config c.pid (λ d. record d { chain_state = not_chained }) ipc.configs;
        },
      )
      else retry_queue ipc c (get_elem? ipc.queues c.waiting_object_index)
