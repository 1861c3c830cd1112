-- ===== src/Sysvipc.antt =====
-- src/extension/sysvipc/sysvipc_internal.h and sysvipc_wake_tracee of sysvipc.c: what the message
-- queues and the semaphores share, the table of the IPC objects and the tracees that wait.
pub mod Lookup
pub mod Wake
use Prim.Native.Nat.{bit_or}
use proot.Prelude.{
  ℕ, zero, suc, ◌+◌, ◌-◌, ◌*◌, ◌/◌, ◌%◌, ◌^◌, Bool, true, false, not, ◌&&◌, ◌||◌, Option, none,
  some, List, [], ◌∷◌, length, get_elem?, ltb, ◌==◌, if◌then◌else◌, Errno, einval, eidrm, Result,
  ok, err,
}

-- A signed integer; `negsuc n` is -(n + 1).
pub data ℤ : Type 0 where
  pos : ℕ → ℤ
  negsuc : ℕ → ℤ

-- Whether the flag 2 ^ k is set.
abbrev pub has_flag : ℕ → ℕ → Bool
has_flag flags k = (flags / 2 ^ k) % 2 == 1

abbrev pub ipc_creat : ℕ
ipc_creat = 9

abbrev pub ipc_excl : ℕ
ipc_excl = 10

abbrev pub ipc_nowait : ℕ
ipc_nowait = 11

-- `struct SysVIpcSembuf`; `sem_flg` is the pattern of its bits.
pub record Sembuf : Type 0 where
  pub sem_num : ℕ
  pub sem_op : ℤ
  pub sem_flg : ℕ

pub data WaitReason : Type 0 where
  not_waiting wait_queue_recv wait_semop wait_shmat_helper_busy : WaitReason

pub data WaitState : Type 0 where
  wstate_not_waiting restarted_into_ppoll_canceled restarted_into_ppoll : WaitState
  entered_ppoll signaled_ppoll entered_getpid : WaitState

pub data ChainState : Type 0 where
  not_chained single shmat_socket shmat_connect shmat_recvmsg shmat_mmap msgrcv_retry_state :
      ChainState

-- `struct SysVIpcConfig` of one tracee, without what only shared memory uses. `sigstopped` tells
-- that SIGSTOP was sent to the tracee, and is to be ignored. `msgrcv_msgflg` is a pattern of bits.
pub record Config : Type 0 where
  pub pid : ℕ
  pub wait_reason : WaitReason
  pub wait_state : WaitState
  pub chain_state : ChainState
  pub status_after_wait : Result ℕ
  pub waiting_object_index : ℕ
  pub msgrcv_msgp : ℕ
  pub msgrcv_msgsz : ℕ
  pub msgrcv_msgtyp : ℤ
  pub msgrcv_msgflg : ℕ
  pub semop_sops : List Sembuf
  pub sigstopped : Bool

-- What the objects of all kinds have; `key_of` and `generation_of` are patterns of 32 and of 16 bits.
pub record IpcObject (A : Type 0) : Type 0 where
  pub key_of : A → ℕ
  pub generation_of : A → ℕ
  pub is_valid : A → Bool

-- The signed value of a 16-bit pattern, as a pattern of 32 bits.
abbrev pub sign_extend : ℕ → ℕ
sign_extend g = if ltb g (2 ^ 15) then g else g + 2 ^ 32 - 2 ^ 16

-- `(index + 1) | (generation << 12)`; the bits are disjoint while the first is below 2 ^ 12.
unfoldable pub ipc_object_id : ℕ → ℕ → ℕ
ipc_object_id index generation =
    (if ltb (index + 1) (2 ^ 12)
      then index + 1 + sign_extend generation * 2 ^ 12
      else bit_or (index + 1) (sign_extend generation * 2 ^ 12))
    % 2 ^ 32

-- The generation, a signed number, equals the 16 bits of the id.
abbrev pub same_generation : ℕ → ℕ → Bool
same_generation generation id = ltb generation (2 ^ 15) && (generation == (id / 2 ^ 12) % 2 ^ 16)

-- A slot of a table of objects.
pub data Slot : Type 0 where
  found : ℕ → Slot
  unused : ℕ → Slot
  nothing : Slot

abbrev first_unused : Option ℕ → Slot
first_unused none = nothing
first_unused (some i) = unused i

module _ {A : Type 0} ⦃o : IpcObject A⦄ where
  unfoldable pub check_object : ℕ → ℕ → Option A → Result (ℕ × A)
  check_object id index none = err einval
  check_object id index (some s) =
      if not (o.is_valid s) || not (same_generation (o.generation_of s) id)
      then err einval
      else ok (index, s)

  -- LOOKUP_IPC_OBJECT: the index of the object, and the object.
  unfoldable pub lookup_ipc_object : ℕ → List A → Result (ℕ × A)
  unfolding check_object
  lookup_ipc_object id objects =
      let object_index = id % 2 ^ 12 in
      if (object_index == 0) || ltb (length objects) object_index
      then err einval
      else check_object id (object_index - 1) (get_elem? objects (object_index - 1))

  -- The loop that `sysvipc_semget` and `sysvipc_msgget` begin with, from an index on: the object with
  -- the key, or else the first unused slot.
  unfoldable pub find_slot : ℕ → ℕ → Option ℕ → List A → Slot
  find_slot key index free [] = first_unused free
  find_slot key index free (s ∷ l) =
      let later =
        find_slot key (index + 1)
          (if o.is_valid s then free else elim free [ none ↦ some index | some i ↦ some i ]) l in
      if o.is_valid s && (not (key == 0) && (o.key_of s == key % 2 ^ 32))
      then found index
      else later

  abbrev pub generation_at : List A → ℕ → ℕ
  generation_at l i = elim (get_elem? l i) [ none ↦ 0 | some s ↦ o.generation_of s ]

-- `sysvipc_wake_tracee`; `none` is a failed assertion.
unfoldable pub wake_tracee : Config → Result ℕ → Option Config
wake_tracee c status =
    let woken = record c { wait_reason = not_waiting; status_after_wait = status } in
    elim c.wait_reason [
      | not_waiting ↦ none
      | _ ↦ elim c.wait_state [
        | entered_ppoll ↦ some (record woken { wait_state = signaled_ppoll; sigstopped = true })
        | restarted_into_ppoll ↦ some (record woken { wait_state = restarted_into_ppoll_canceled })
        | _ ↦ none
      ]
    ]

abbrev pub and_then {ℓ κ} : {A : Type ℓ} {B : Type κ} → Option A → (A → Option B) → Option B
and_then none f = none
and_then (some a) f = f a

-- The configuration of the calling tracee is changed in its place.
unfoldable pub update_config : ℕ → (Config → Config) → List Config → List Config
update_config me f [] = []
update_config me f (c ∷ l) = (if c.pid == me then f c else c) ∷ update_config me f l

-- The loop of IPC_RMID over the waiting tracees.
unfoldable pub wake_all : (Config → Bool) → List Config → Option (List Config)
wake_all waits [] = some []
wake_all waits (c ∷ l) =
    and_then (if waits c then wake_tracee c (err eidrm) else some c)
      λ d. and_then (wake_all waits l) λ m. some (d ∷ m)

abbrev pub status_of : Result (Unit {0}) → Result ℕ
status_of (ok _) = ok 0
status_of (err e) = err e

abbrev pub without_ipc_64 : ℕ → ℕ
without_ipc_64 cmd = if has_flag cmd 8 then cmd - 2 ^ 8 else cmd
