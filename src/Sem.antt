-- ===== src/Sem.antt =====
-- src/extension/sysvipc/sysvipc_sem.c, with the parts of sysvipc_internal.h, sysvipc_sys.h and
-- sysvipc.c on which it rests: System V semaphores of one IPC name-space, and the tracees in it.
pub mod Asserts
pub mod Values
pub mod Ids
pub mod Waiters
pub mod Sound
use proot.Prelude.{
  ℕ, zero, suc, ◌+◌, ◌-◌, ◌*◌, ◌/◌, ◌%◌, ◌^◌, Bool, true, false, not, ◌&&◌, ◌||◌, Option, none,
  some, List, [], ◌∷◌, ◌++◌, length, get_or, get_elem?, set, replicate, ltb, leb, ◌==◌,
  if◌then◌else◌, Errno, e2big, enoent, eagain, eexist, einval, efbig, enospc, erange, eidrm, Result,
  ok, err, ◌>>=◌,
}
use proot.Sysvipc.{
  ℤ, pos, negsuc, has_flag, ipc_creat, ipc_excl, ipc_nowait, Sembuf, WaitReason, not_waiting,
  wait_semop, Config, IpcObject, ipc_object_id, check_object, lookup_ipc_object, Slot, found,
  unused, nothing, find_slot, generation_at, wake_tracee, and_then, update_config, wake_all,
  status_of, without_ipc_64,
}

abbrev pub max_sems : ℕ
max_sems = 512

abbrev pub max_nsems : ℕ
max_nsems = 512

abbrev pub max_nsops : ℕ
max_nsops = 512

abbrev pub max_semval : ℕ
max_semval = 0x7000

-- `struct SysVIpcSemaphore`; `key` and `generation` are patterns of 32 and of 16 bits.
pub record Semaphore : Type 0 where
  pub key : ℕ
  pub generation : ℕ
  pub valid : Bool
  pub sems : List ℕ
  pub nsems : ℕ

-- The semaphores of `struct SysVIpcNamespace`, and the tracees of the name-space in their order.
pub record Ipc : Type 0 where
  pub semaphores : List Semaphore
  pub configs : List Config

instance abbrev pub semaphore_object : IpcObject Semaphore
semaphore_object = record {
  key_of = λ s. s.key;
  generation_of = λ s. s.generation;
  is_valid = λ s. s.valid;
}

-- A semaphore that is set up in a slot: its generation stays.
abbrev pub set_up : ℕ → ℕ → ℕ → Semaphore
set_up semaphore_id nsems generation = record {
  key = semaphore_id % 2 ^ 32;
  generation = generation;
  valid = true;
  sems = replicate nsems 0;
  nsems = nsems;
}

get_found : List Semaphore → ℕ → ℕ → ℕ → Option Semaphore → Result (ℕ × List Semaphore)
get_found l nsems semflg i none = err einval
get_found l nsems semflg i (some s) =
    if has_flag semflg ipc_creat && has_flag semflg ipc_excl
    then err eexist
    else if ltb s.nsems nsems
    then err einval
    else ok (ipc_object_id i s.generation, l)

get_slot : List Semaphore → ℕ → ℕ → ℕ → Slot → Result (ℕ × List Semaphore)
unfolding get_found
get_slot l semaphore_id nsems semflg (found i) = get_found l nsems semflg i (get_elem? l i)
get_slot l semaphore_id nsems semflg (unused i) =
    if not (has_flag semflg ipc_creat)
    then err enoent
    else ok (
      ipc_object_id i (generation_at l i),
      set l i (set_up semaphore_id nsems (generation_at l i)),
    )
get_slot l semaphore_id nsems semflg nothing =
    if not (has_flag semflg ipc_creat)
    then err enoent
    else if leb max_sems (length l)
    then err enospc
    else ok (ipc_object_id (length l) 0, l ++ set_up semaphore_id nsems 0 ∷ [])

-- The id that is returned, and the new semaphores. `nsems` is a pattern of 32 bits: a negative one
-- is refused as one above the maximum is.
unfoldable pub semget : List Semaphore → ℕ → ℕ → ℕ → Result (ℕ × List Semaphore)
unfolding get_slot find_slot
semget l semaphore_id nsems semflg =
    if (nsems == 0) || ltb max_nsems nsems
    then err einval
    else get_slot l semaphore_id nsems semflg (find_slot semaphore_id 0 none l)

-- What `sysvipc_sem_check` returns: 1 with the type of the wait, an error, or 0 with the new values.
pub data Check : Type 0 where
  waits_for_zero waits_for_increase : Check
  fails : Errno → Check
  done : List ℕ → Check

-- `new_sems[sem_num] + op`, if that is not negative.
abbrev pub plus : ℕ → ℤ → Option ℕ
plus v (pos n) = some (v + n)
plus v (negsuc n) = if leb (n + 1) v then some (v - (n + 1)) else none

unfoldable pub is_zero_op : ℤ → Bool
is_zero_op (pos n) = n == 0
is_zero_op (negsuc n) = false

-- One round of the loop over the operations; `again` is the rest of it.
unfoldable pub check_op : Sembuf → List ℕ → (List ℕ → Check) → Check
unfolding is_zero_op
check_op o sems again =
    let v = get_or sems o.sem_num 0 in
    if is_zero_op o.sem_op
    then (if not (v == 0)
        then (if has_flag o.sem_flg ipc_nowait then fails eagain else waits_for_zero)
        else again sems)
    else elim (plus v o.sem_op) [
      | none ↦ if has_flag o.sem_flg ipc_nowait then fails eagain else waits_for_increase
      | some n ↦ if ltb max_semval n then fails erange else again (set sems o.sem_num n)
    ]

unfoldable pub sem_check : List Sembuf → List ℕ → Check
sem_check [] sems = done sems
sem_check (o ∷ sops) sems = check_op o sems (λ s. sem_check sops s)

abbrev pub is_semop : WaitReason → Bool
is_semop wait_semop = true
is_semop _ = false

abbrev pub waits_on : ℕ → Config → Bool
waits_on index c = is_semop c.wait_reason && (c.waiting_object_index == index)

-- A waiting tracee after a check of its operations, and the values of the semaphores.
unfoldable pub settle : Config → List ℕ → Check → Option (Config × List ℕ)
settle c sems waits_for_zero = some (c, sems)
settle c sems waits_for_increase = some (c, sems)
settle c sems (fails e) =
    and_then (wake_tracee (record c { semop_sops = [] }) (err e)) λ d. some (d, sems)
settle c sems (done new) =
    and_then (wake_tracee (record c { semop_sops = [] }) (ok 0)) λ d. some (d, new)

-- `sysvipc_sem_check` of a tracee that waits, behind its assertion.
unfoldable pub check_waiting : Config → List ℕ → Option Check
check_waiting c sems = if is_semop c.wait_reason then some (sem_check c.semop_sops sems) else none

unfoldable pub retry_one : ℕ → ℕ → Config → List ℕ → Option (Config × List ℕ)
retry_one me index c sems =
    if not (c.pid == me) && waits_on index c
    then and_then (check_waiting c sems) (λ k. settle c sems k)
    else some (c, sems)

-- The loop of `sysvipc_semop` over the other tracees.
unfoldable pub retry_others : ℕ → ℕ → List Config → List ℕ → Option (List Config × List ℕ)
retry_others me index [] sems = some ([], sems)
retry_others me index (c ∷ l) sems =
    and_then (retry_one me index c sems)
      λ p. and_then (retry_others me index l p.1) λ q. some (p.0 ∷ q.0, q.1)

abbrev pub begin_semop : ℕ → List Sembuf → Config → Config
begin_semop index sops c = record c {
  wait_reason = wait_semop;
  waiting_object_index = index;
  semop_sops = sops;
}

abbrev pub end_semop : Config → Config
end_semop c = record c { wait_reason = not_waiting; semop_sops = [] }

abbrev pub values_after : Check → List ℕ → List ℕ
values_after (done new) sems = new
values_after _ sems = sems

-- The assertion on the configuration of the calling tracee that it waits for a semaphore.
unfoldable pub asserts_semop : ℕ → List Config → Bool
asserts_semop me [] = true
asserts_semop me (c ∷ l) = (not (c.pid == me) || is_semop c.wait_reason) && asserts_semop me l

-- The end of `sysvipc_semop`: a call that waits returns 0 and leaves its tracee waiting, behind the
-- assertion that it does.
unfoldable pub finish_semop : ℕ → Check → List Config → Option (Result ℕ × List Config)
finish_semop me waits_for_zero l = if asserts_semop me l then some (ok 0, l) else none
finish_semop me waits_for_increase l = if asserts_semop me l then some (ok 0, l) else none
finish_semop me (fails e) l = some (err e, update_config me end_semop l)
finish_semop me (done new) l = some (ok 0, update_config me end_semop l)

-- `sysvipc_semop` behind its checks. `none` is a failed assertion, the first one that of
-- `sysvipc_sem_check` on the calling tracee.
unfoldable pub do_semop : Ipc → ℕ → ℕ → Semaphore → List Sembuf → Option (Result ℕ × Ipc)
do_semop ipc me index s sops =
    let configs = update_config me (begin_semop index sops) ipc.configs in
    let this = sem_check sops s.sems in
    if not (asserts_semop me configs)
    then none
    else (and_then (retry_others me index configs (values_after this s.sems)) λ p.
        and_then (finish_semop me this p.0) λ r. some (
          r.0,
          record { semaphores = set ipc.semaphores index (record s { sems = p.1 }); configs = r.1 },
        ))

abbrev pub all_below : ℕ → List Sembuf → Bool
all_below n [] = true
all_below n (o ∷ l) = ltb o.sem_num n && all_below n l

-- `sops` is what reading them from the memory of the tracee gives.
unfoldable pub semop : Ipc → ℕ → ℕ → ℕ → Result (List Sembuf) → Option (Result ℕ × Ipc)
semop ipc me id nsops sops = elim (lookup_ipc_object id ipc.semaphores) [
  | err e ↦ some (err e, ipc)
  | ok (index, s) ↦
      if ltb max_nsops nsops
      then some (err e2big, ipc)
      else if nsops == 0
      then some (err einval, ipc)
      else elim sops [
        | err e ↦ some (err e, ipc)
        | ok l ↦
            if not (all_below s.nsems l) then some (err efbig, ipc) else do_semop ipc me index s l
      ]
]

-- `sysvipc_semop_timedout`
unfoldable pub semop_timedout : Ipc → ℕ → Ipc
semop_timedout ipc me = record ipc { configs = update_config me end_semop ipc.configs }

-- `struct SysVIpcSeminfo`, the fields that are not 0.
pub record Seminfo : Type 0 where
  pub semmni : ℕ
  pub semmns : ℕ
  pub semmsl : ℕ
  pub semopm : ℕ
  pub semvmx : ℕ
  pub semusz : ℕ
  pub semaem : ℕ

sum_nsems : List Semaphore → ℕ
sum_nsems [] = 0
sum_nsems (s ∷ l) = s.nsems + sum_nsems l

unfoldable pub seminfo : Bool → List Semaphore → Seminfo
unfolding sum_nsems
seminfo usage l = record {
  semmni = max_sems;
  semmns = max_sems * max_nsems;
  semmsl = max_nsems;
  semopm = max_nsops;
  semvmx = max_semval;
  semusz = if usage then length l else 0;
  semaem = if usage then sum_nsems l else 0;
}

-- The commands of `sysvipc_semctl`, told by `cmd & ~SYSVIPC_IPC_64`. Of `sem_info` the whole
-- command is kept, for it is compared again.
pub data Command : Type 0 where
  getval setval getall rmid : Command
  info : Bool → Command
  unknown : Command

unfoldable pub command_of : ℕ → Command
command_of cmd =
    let c = without_ipc_64 cmd in
    if c == 12
    then getval
    else if c == 16
    then setval
    else if c == 13
    then getall
    else if c == 0
    then rmid
    else if c == 3
    then info (cmd == 19)
    else if c == 19
    then info (cmd == 19)
    else unknown

-- Writing to the memory of the tracee: the semaphores' values, or the limits.
pub record Memory : Type 0 where
  pub write_values : List ℕ → Result (Unit {0})
  pub write_info : Seminfo → Result (Unit {0})

unfoldable pub remove : Ipc → ℕ → Semaphore → Option (Result ℕ × Ipc)
remove ipc index s = and_then (wake_all (waits_on index) ipc.configs) λ l. some (
  ok 0,
  record {
    semaphores =
        set ipc.semaphores index
          (record s { valid = false; generation = (s.generation + 1) % 2 ^ 16; sems = [] });
    configs = l;
  },
)

unfoldable pub do_semctl : Memory → Ipc → ℕ → Semaphore → ℕ → ℕ → Command → Option (Result ℕ × Ipc)
do_semctl m ipc index s semnum cmdarg getval =
    some (if leb s.nsems semnum then err einval else ok (get_or s.sems semnum 0), ipc)
do_semctl m ipc index s semnum cmdarg setval =
    if ltb max_semval cmdarg
    then some (err erange, ipc)
    else if leb s.nsems semnum
    then some (err einval, ipc)
    else some (
      ok 0,
      record ipc {
        semaphores = set ipc.semaphores index (record s { sems = set s.sems semnum cmdarg });
      },
    )
do_semctl m ipc index s semnum cmdarg getall = some (status_of (m.write_values s.sems), ipc)
do_semctl m ipc index s semnum cmdarg rmid = remove ipc index s
do_semctl m ipc index s semnum cmdarg (info usage) =
    some (status_of (m.write_info (seminfo usage ipc.semaphores)), ipc)
do_semctl m ipc index s semnum cmdarg unknown = some (err einval, ipc)

-- `semnum` is a pattern of 32 bits: a negative one is refused as one that is too large.
unfoldable pub semctl : Memory → Ipc → ℕ → ℕ → ℕ → ℕ → Option (Result ℕ × Ipc)
semctl m ipc id semnum cmd cmdarg = elim (lookup_ipc_object id ipc.semaphores) [
  | err e ↦ some (err e, ipc)
  | ok (index, s) ↦ do_semctl m ipc index s semnum cmdarg (command_of cmd)
]
