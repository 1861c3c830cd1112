-- ===== src/Msg.antt =====
-- src/extension/sysvipc/sysvipc_msg.c, the data: the message queues of one IPC name-space, msgget(2)
-- and the test of a message's type.
pub mod Receive
pub mod Calls
pub mod Ids
pub mod First
pub mod Counts
pub mod Reach
pub mod Wakeup
use proot.Prelude.{
  ℕ, ◌+◌, ◌-◌, ◌*◌, ◌%◌, ◌^◌, Bool, true, false, not, ◌&&◌, ◌||◌, Option, none, some, List, [], ◌∷◌,
  ◌++◌, length, get_elem?, set, ltb, leb, ◌==◌, if◌then◌else◌, enoent, eexist, einval, Result, ok,
  err,
}
use proot.Sysvipc.{
  ℤ, pos, negsuc, has_flag, ipc_creat, ipc_excl, Config, WaitReason, wait_queue_recv, IpcObject,
  ipc_object_id, Slot, found, unused, nothing, find_slot, generation_at,
}

abbrev pub max_msg_size : ℕ
max_msg_size = 0xFFFF

-- The flags of msgrcv(2), by the number of their bit.
abbrev pub msg_noerror : ℕ
msg_noerror = 12

abbrev pub msg_except : ℕ
msg_except = 13

abbrev pub msg_copy : ℕ
msg_copy = 14

-- `struct SysVIpcMsgQueueItem`; `mtype` is a positive number of 63 bits.
pub record Item : Type 0 where
  pub mtype : ℕ
  pub mtext : List ℕ
  pub mtext_length : ℕ

-- The fields of `struct msqid_ds` that are written. The counters do not wrap: they are bounded by the
-- memory that the items take.
pub record Stats : Type 0 where
  pub msg_qnum : ℕ
  pub msg_cbytes : ℕ
  pub msg_qbytes : ℕ
  pub msg_lspid : ℕ
  pub msg_lrpid : ℕ
  pub msg_stime : ℕ
  pub msg_rtime : ℕ

-- `struct SysVIpcMsgQueue`
pub record Queue : Type 0 where
  pub key : ℕ
  pub generation : ℕ
  pub valid : Bool
  pub items : List Item
  pub stats : Stats

instance abbrev pub queue_object : IpcObject Queue
queue_object = record {
  key_of = λ q. q.key;
  generation_of = λ q. q.generation;
  is_valid = λ q. q.valid;
}

-- Reading and writing the memory of a tracee, in a state `M` that holds the memories of all. The
-- tracee is told by its process id; what a write that fails leaves behind is up to the state.
pub record Memory (M : Type 0) : Type 0 where
  pub read_long : M → ℕ → ℕ → Result ℕ
  pub read_bytes : M → ℕ → ℕ → ℕ → Result (List ℕ)
  pub write_long : M → ℕ → ℕ → ℕ → M × Result (Unit {0})
  pub write_bytes : M → ℕ → ℕ → List ℕ → M × Result (Unit {0})
  pub write_stats : M → ℕ → ℕ → Stats → M × Result (Unit {0})

-- The queues of `struct SysVIpcNamespace`, the tracees of the name-space in their order, and their
-- memory.
pub record Ipc (M : Type 0) : Type 0 where
  pub queues : List Queue
  pub configs : List Config
  pub memory : M

abbrev fresh_stats : Stats
fresh_stats = record {
  msg_qnum = 0;
  msg_cbytes = 0;
  msg_qbytes = 1024 * 64;
  msg_lspid = 0;
  msg_lrpid = 0;
  msg_stime = 0;
  msg_rtime = 0;
}

-- A queue that is set up in a slot: its generation stays.
abbrev pub set_up_queue : ℕ → ℕ → Queue
set_up_queue queue_id generation = record {
  key = queue_id % 2 ^ 32;
  generation = generation;
  valid = true;
  items = [];
  stats = fresh_stats;
}

unfoldable pub queue_slot : List Queue → ℕ → ℕ → Slot → Result (ℕ × List Queue)
queue_slot l queue_id msgflg (found i) =
    if has_flag msgflg ipc_creat && has_flag msgflg ipc_excl
    then err eexist
    else ok (ipc_object_id i (generation_at l i), l)
queue_slot l queue_id msgflg (unused i) =
    if not (has_flag msgflg ipc_creat)
    then err enoent
    else ok
        (ipc_object_id i (generation_at l i), set l i (set_up_queue queue_id (generation_at l i)))
queue_slot l queue_id msgflg nothing =
    if not (has_flag msgflg ipc_creat)
    then err enoent
    else ok (ipc_object_id (length l) 0, l ++ set_up_queue queue_id 0 ∷ [])

-- `sysvipc_msgget`: the id that is returned, and the new queues.
unfoldable pub msgget : List Queue → ℕ → ℕ → Result (ℕ × List Queue)
unfolding queue_slot
msgget l queue_id msgflg = queue_slot l queue_id msgflg (find_slot queue_id 0 none l)

-- The number that a C `int` takes from a pattern of more bits.
unfoldable pub to_int : ℕ → ℤ
to_int n = let low = n % 2 ^ 32 in if ltb low (2 ^ 31) then pos low else negsuc (2 ^ 32 - 1 - low)

-- The filter is 0, is the type, or is negative with the type at most its absolute value. (In C the
-- absolute value of the least `int` is not defined; here it is 2 ^ 31.)
abbrev pub type_matches : ℤ → ℤ → Bool
type_matches (pos t) (pos f) = (f == 0) || (t == f)
type_matches (negsuc t) (pos f) = f == 0
type_matches (pos t) (negsuc f) = leb t (f + 1)
type_matches (negsuc t) (negsuc f) = true

-- `sysvipc_msg_match`; the type of the message is cut to an `int` by the call.
unfoldable pub msg_match : ℕ → ℤ → ℕ → Bool
unfolding to_int
msg_match mtype receiver_filter receiver_flag =
    let matched = type_matches (to_int mtype) receiver_filter in
    if has_flag receiver_flag msg_except then not matched else matched

abbrev pub is_msgrcv : WaitReason → Bool
is_msgrcv wait_queue_recv = true
is_msgrcv _ = false

abbrev pub receives_on : ℕ → Config → Bool
receives_on index c = is_msgrcv c.wait_reason && (c.waiting_object_index == index)
