-- ===== src/Examples/Messages.antt =====
-- Concrete inputs for the theorems on src/extension/sysvipc/sysvipc_msg.c.
use proot.Prelude.{
  zero, suc, ℕ, ◌+◌, ◌^◌, ◌≡◌, refl, inl, true, false, some, none, List, [], ◌∷◌, ◌++◌, All, arith,
  einval, eagain, e2big, ok, err, set, get_elem?, replicate, length-replicate, Bool,
}
use proot.Sysvipc.{
  pos, Config, wait_queue_recv, not_waiting, entered_ppoll, wstate_not_waiting, not_chained,
  msgrcv_retry_state, lookup_ipc_object, check_object, ipc_object_id, find_slot, WaitState,
  update_config, nothing,
}
use proot.Sysvipc.Wake.{Removed, AllTwo}
use proot.Msg.{
  queue_slot, Item, Queue, queue_object, Memory, Ipc, msgget, set_up_queue, receives_on, msg_match,
  to_int,
}
use proot.Msg.Receive.{bad_arguments, delivered_size, takes, do_msgrcv, msgrcv, msgrcv_retry}
use proot.Msg.Calls.{msgsnd, read_item, append_item, wake_receiver, msgctl}
use proot.Msg.Ids.{msgget-too_many}
use proot.Msg.First.{NoneTaken, Writes, taken, do_msgrcv-first, msgsnd-msgrcv}
use proot.Msg.Counts.{IsCounted, total}
use proot.Msg.Reach.{ReadsWhole, here, next, send, receive_call, Reach-AllCounted}
use proot.Msg.Wakeup.{retrying, msgsnd-delivers, msgctl-rmid, msgrcv_retry-too_big}

-- A memory that is a log of what was written; each long read is 5, and each byte 7.
abbrev pub log : Memory (List ℕ)
log = record {
  read_long = λ m pid a. ok 5;
  read_bytes = λ m pid a n. ok (replicate n 7);
  write_long = λ m pid a v. (v ∷ m, ok tt);
  write_bytes = λ m pid a l. (l ++ m, ok tt);
  write_stats = λ m pid a s. (m, ok tt);
}

log-ReadsWhole : ReadsWhole log
log-ReadsWhole m pid a n l h =
    let same : replicate n 7 ≡ l = cc (h) in rw (← same) (length-replicate n 7)

-- A message of type 3 with two bytes.
abbrev three : Item
three = record { mtype = 3; mtext = 1 ∷ 2 ∷ []; mtext_length = 2 }

-- What is read from the log.
abbrev pub five : Item
five = record { mtype = 5; mtext = 7 ∷ 7 ∷ []; mtext_length = 2 }

abbrev empty_queue : Queue
empty_queue = set_up_queue 9 1

abbrev pub one_queue : Queue
one_queue = record {
  key = 9;
  generation = 1;
  valid = true;
  items = three ∷ [];
  stats = record {
    msg_qnum = 1;
    msg_cbytes = 2;
    msg_qbytes = 65536;
    msg_lspid = 4;
    msg_lrpid = 0;
    msg_stime = 1;
    msg_rtime = 0;
  };
}

abbrev pub queue_id : ℕ
queue_id = 1 + 2 ^ 12

-- A tracee that waits for a message of the type 5.
abbrev pub receiver : Config
receiver = record {
  pid = 20;
  wait_reason = wait_queue_recv;
  wait_state = entered_ppoll;
  chain_state = not_chained;
  status_after_wait = ok 0;
  waiting_object_index = 0;
  msgrcv_msgp = 100;
  msgrcv_msgsz = 16;
  msgrcv_msgtyp = pos 5;
  msgrcv_msgflg = 0;
  semop_sops = [];
  sigstopped = false;
}

abbrev pub sender : Config
sender = record receiver { pid = 10; wait_reason = not_waiting; wait_state = wstate_not_waiting }

abbrev one_ipc : Ipc (List ℕ)
one_ipc = record { queues = one_queue ∷ []; configs = sender ∷ receiver ∷ []; memory = [] }

queue-lookup : lookup_ipc_object queue_id (one_queue ∷ []) ≡ ok (0, one_queue)
unfolding lookup_ipc_object check_object
queue-lookup = refl

queue-get : msgget (empty_queue ∷ []) 9 0 ≡ ok (queue_id, empty_queue ∷ [])
unfolding msgget find_slot ipc_object_id queue_slot
queue-get = refl

receiver-takes : takes receiver five ≡ true
unfolding msg_match to_int
receiver-takes = refl

receiver-NoneTaken : NoneTaken receiver (three ∷ [])
unfolding msg_match to_int
receiver-NoneTaken = (refl, tt)

five-Writes : Writes log receiver five 2 [] (7 ∷ 7 ∷ 5 ∷ [])
five-Writes = record { middle = 5 ∷ []; type_written = refl; text_written = refl }

receiver-valid : bad_arguments receiver ≡ false
unfolding bad_arguments
receiver-valid = refl

five-fits : delivered_size receiver five ≡ ok 2
unfolding delivered_size
five-fits = refl

five-read : read_item log [] 10 200 2 ≡ ok five
unfolding read_item
five-read = refl

abbrev both_queue : Queue
both_queue = record one_queue { items = three ∷ five ∷ [] }

do_msgrcv_example : do_msgrcv log 8 receiver 0 both_queue [] ≡ record {
  status = ok 2;
  config = receiver;
  queue = taken receiver 8 both_queue (three ∷ []) five;
  memory = 7 ∷ 7 ∷ 5 ∷ [];
}
do_msgrcv_example =
    do_msgrcv-first log 8 receiver 0 both_queue (three ∷ []) [] five 2 [] (7 ∷ 7 ∷ 5 ∷ [])
      receiver-valid refl refl receiver-NoneTaken receiver-takes five-fits five-Writes

-- The name-space behind the message that `sender` sends, without one that waits.
abbrev sent_ipc : Ipc (List ℕ)
sent_ipc = record {
  queues = append_item one_queue 10 8 five ∷ [];
  configs = sender ∷ [];
  memory = [];
}

five-sent :
    msgsnd log 8 (record one_ipc { configs = sender ∷ [] }) 10 queue_id 200 2
    ≡ some (ok 0, sent_ipc)
unfolding msgsnd wake_receiver read_item lookup_ipc_object check_object append_item
five-sent = refl

msgsnd-msgrcv_example :
    ((msgrcv log 8 sent_ipc receiver queue_id 100 16 (pos 5) 0).0 ≡ ok 2)
    × ((msgrcv log 8 sent_ipc receiver queue_id 100 16 (pos 5) 0).1.memory ≡ 7 ∷ 7 ∷ 5 ∷ [])
    × ((got : Queue) × (got.items ≡ three ∷ [])
        × ((msgrcv log 8 sent_ipc receiver queue_id 100 16 (pos 5) 0).1.queues
            ≡ set sent_ipc.queues 0 got))
msgsnd-msgrcv_example =
    msgsnd-msgrcv log 8 (record one_ipc { configs = sender ∷ [] }) sent_ipc 10 queue_id 200 2 0
      one_queue five receiver 100 16 (pos 5) 0 (7 ∷ 7 ∷ 5 ∷ []) queue-lookup five-read five-sent
      receiver-valid refl receiver-NoneTaken receiver-takes (omega arith) five-Writes

msgsnd-delivers_example :
    (s : WaitState) × (b : Bool) × (ipc' : Ipc (List ℕ)) × (msgsnd log 8 one_ipc 10 queue_id 200 2
      ≡ some (ok 0, ipc'))
    × (ipc'.configs ≡ sender ∷ retrying receiver s b ∷ [])
    × ((ipc'' : Ipc (List ℕ)) × (got : Queue) × (msgrcv_retry log 9 ipc' (retrying receiver s b)
          ≡ some (ok 2, ipc''))
        × (get_elem? ipc''.queues 0 ≡ some got)
        × (got.items ≡ three ∷ [])
        × (ipc''.memory ≡ 7 ∷ 7 ∷ 5 ∷ []))
msgsnd-delivers_example =
    msgsnd-delivers log 8 9 one_ipc 10 queue_id 200 2 0 2 one_queue five (sender ∷ []) [] receiver
      (7 ∷ 7 ∷ 5 ∷ []) queue-lookup five-read refl (refl, tt) refl receiver-takes (λ _. inl refl)
      receiver-valid refl receiver-NoneTaken five-fits five-Writes

msgctl-rmid_example :
    (ipc' : Ipc (List ℕ)) × (msgctl log one_ipc 10 queue_id 0 0 ≡ some (ok 0, ipc'))
    × AllTwo (Removed (receives_on 0)) (sender ∷ receiver ∷ []) ipc'.configs
    × (lookup_ipc_object queue_id ipc'.queues ≡ err einval)
    × ((time : ℕ) (c : Config)
        → c.waiting_object_index ≡ 0
        → c.status_after_wait ≡ err eagain
        → msgrcv_retry log time ipc' c ≡ none)
msgctl-rmid_example =
    msgctl-rmid log one_ipc 10 queue_id 0 0 0 one_queue queue-lookup refl
      ((λ h. cc (h)), ((λ h. inl refl), tt))

-- One that was woken, with a buffer of one byte.
abbrev small : Config
small = record receiver {
  wait_reason = not_waiting;
  chain_state = msgrcv_retry_state;
  status_after_wait = err eagain;
  msgrcv_msgsz = 1;
  msgrcv_msgtyp = pos 3;
}

small-takes : takes small three ≡ true
unfolding msg_match to_int
small-takes = refl

small-valid : bad_arguments small ≡ false
unfolding bad_arguments
small-valid = refl

small-big : delivered_size small three ≡ err e2big
unfolding delivered_size
small-big = refl

msgrcv_retry-too_big_example :
    msgrcv_retry log 8 one_ipc small
    ≡ some (
      err e2big,
      record {
        queues = one_queue ∷ [];
        configs =
            update_config 20 (λ _. record small { chain_state = not_chained }) one_ipc.configs;
        memory = [];
      },
    )
msgrcv_retry-too_big_example =
    msgrcv_retry-too_big log 8 one_ipc small one_queue [] [] three refl refl refl refl refl
      small-valid refl refl tt small-takes small-big

one-IsCounted : All IsCounted (one_queue ∷ [])
unfolding total
one-IsCounted =
    (record { qnum = λ _. refl; cbytes = λ _. refl; whole = ((refl, omega arith), tt) }, tt)

Reach-AllCounted_example :
    All IsCounted (msgrcv log 8 sent_ipc receiver queue_id 100 16 (pos 5) 0).1.queues
Reach-AllCounted_example =
    Reach-AllCounted log {ipc = record one_ipc { configs = sender ∷ [] }} log-ReadsWhole
      one-IsCounted
      (next (next here (send _ sent_ipc (ok 0) 8 10 queue_id 200 2 five-sent))
        (receive_call sent_ipc receiver 8 queue_id 100 16 (pos 5) 0))

full-nothing : (n index : ℕ) → find_slot 5 index none (replicate n one_queue) ≡ nothing
unfolding find_slot
full-nothing zero index = refl
full-nothing (suc n) index = full-nothing n (index + 1)

msgget-too_many_example :
    (id : ℕ) × (l : List Queue) × (msgget (replicate 4095 one_queue) 5 (2 ^ 9) ≡ ok (id, l))
    × (lookup_ipc_object id l ≡ err einval)
msgget-too_many_example =
    msgget-too_many (replicate 4095 one_queue) 5 (2 ^ 9)
      (omega (arith, length-replicate 4095 one_queue)) (full-nothing 4095 0) refl
