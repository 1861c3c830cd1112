-- ===== src/Msg/Calls.antt =====
-- src/extension/sysvipc/sysvipc_msg.c: msgsnd(2) and msgctl(2).
use proot.Prelude.{
  ℕ, ◌+◌, ◌%◌, ◌^◌, Bool, false, ◌&&◌, ◌||◌, Option, some, List, [], ◌∷◌, ◌++◌, set, ltb, leb, ◌==◌,
  if◌then◌else◌, eagain, einval, Result, ok, err, ◌>>=◌,
}
use proot.Sysvipc.{
  Config, msgrcv_retry_state, lookup_ipc_object, wake_tracee, wake_all, and_then, without_ipc_64,
}
use proot.Msg.{Item, Queue, queue_object, Memory, Ipc, max_msg_size, receives_on}
use proot.Msg.Receive.{takes}

-- The loop of `sysvipc_msgsnd`: the first tracee that waits for such a message is woken, and is to
-- try again. `none` is a failed assertion.
unfoldable pub wake_receiver : ℕ → Item → List Config → Option (List Config)
wake_receiver index item [] = some []
wake_receiver index item (c ∷ l) =
    let later = and_then (wake_receiver index item l) λ m. some (c ∷ m) in
    if receives_on index c && takes c item
    then (and_then (wake_tracee (record c { chain_state = msgrcv_retry_state }) (err eagain))
        λ d. some (d ∷ l))
    else later

unfoldable pub append_item : Queue → ℕ → ℕ → Item → Queue
append_item q pid time item = record q {
  items = q.items ++ item ∷ [];
  stats = record q.stats {
    msg_lspid = pid;
    msg_stime = time;
    msg_qnum = q.stats.msg_qnum + 1;
    msg_cbytes = q.stats.msg_cbytes + item.mtext_length;
  };
}

-- The arguments of msgsnd(2): a type below 1, which is negative or 0, is refused.
abbrev pub bad_type : ℕ → Bool
bad_type mtype = (mtype == 0) || leb (2 ^ 63) mtype

abbrev pub removed_queue : Queue → Queue
removed_queue q = record q { valid = false; generation = (q.generation + 1) % 2 ^ 16; items = [] }

module _ {M : Type 0} (mem : Memory M) where
  -- The item that `sysvipc_msgsnd` reads from the memory of its tracee.
  unfoldable pub read_item : M → ℕ → ℕ → ℕ → Result Item
  read_item m pid msgp msgsz =
      if ltb max_msg_size msgsz
      then err einval
      else (mem.read_long m pid msgp >>= λ mtype.
          if bad_type mtype
          then err einval
          else (mem.read_bytes m pid (msgp + 8) msgsz >>= λ mtext.
              ok (record { mtype = mtype; mtext = mtext; mtext_length = msgsz })))

  -- `sysvipc_msgsnd`, called by the tracee `pid` at a time.
  unfoldable pub msgsnd : ℕ → Ipc M → ℕ → ℕ → ℕ → ℕ → Option (Result ℕ × Ipc M)
  msgsnd time ipc pid id msgp msgsz = elim (lookup_ipc_object id ipc.queues) [
    | err e ↦ some (err e, ipc)
    | ok (index, q) ↦ elim (read_item ipc.memory pid msgp msgsz) [
      | err e ↦ some (err e, ipc)
      | ok item ↦ and_then (wake_receiver index item ipc.configs) λ l. some (
        ok 0,
        record ipc { queues = set ipc.queues index (append_item q pid time item); configs = l },
      )
    ]
  ]

  unfoldable pub do_msgctl : Ipc M → ℕ → ℕ → Queue → ℕ → ℕ → Option (Result ℕ × Ipc M)
  do_msgctl ipc pid index q command buf =
      if command == 0
      then (and_then (wake_all (receives_on index) ipc.configs) λ l.
          some (ok 0, record ipc { queues = set ipc.queues index (removed_queue q); configs = l }))
      else if command == 2
      then (let w = mem.write_stats ipc.memory pid buf q.stats in
          some (elim w.1 [ ok _ ↦ ok 0 | err e ↦ err e ], record ipc { memory = w.0 }))
      else some (err einval, ipc)

  -- `sysvipc_msgctl`; the command 0 is IPC_RMID, and 2 is IPC_STAT.
  unfoldable pub msgctl : Ipc M → ℕ → ℕ → ℕ → ℕ → Option (Result ℕ × Ipc M)
  unfolding do_msgctl
  msgctl ipc pid id cmd buf = elim (lookup_ipc_object id ipc.queues) [
    | err e ↦ some (err e, ipc)
    | ok (index, q) ↦ do_msgctl ipc pid index q (without_ipc_64 cmd) buf
  ]
