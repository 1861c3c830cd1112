-- ===== src/Examples/Semaphores.antt =====
-- Concrete inputs for the theorems on src/extension/sysvipc/sysvipc_sem.c.
use proot.Prelude.{
  ℕ, ◌+◌, ◌≤◌, ◌^◌, ◌≡◌, refl, inl, true, false, some, List, [], ◌∷◌, All, arith, einval, ok, err,
}
use proot.Sem.{
  waits_on, semaphore_object, Semaphore, Ipc, Memory, semget, sem_check, done, semctl, command_of,
  rmid, setval, do_semctl, check_op,
}
use proot.Sysvipc.{
  not_chained, pos, negsuc, Sembuf, Config, wait_semop, not_waiting, entered_ppoll,
  wstate_not_waiting, lookup_ipc_object, ipc_object_id, check_object,
}
use proot.Sem.Ids.{semget-lookup}
use proot.Sysvipc.Lookup.{lookup-ipc_object_id}
use proot.Sem.Values.{Effect, sem_check-Effect}
use proot.Sem.Waiters.{semctl-rmid}
use proot.Sysvipc.Wake.{CanWake, Removed, AllTwo}
use proot.Sem.Sound.{IsSound, here, next, control, Reach-IsSound}

-- Two values, the second of them 3.
abbrev pair_semaphore : Semaphore
pair_semaphore = record { key = 7; generation = 1; valid = true; sems = 0 ∷ 3 ∷ []; nsems = 2 }

abbrev pair_id : ℕ
pair_id = 1 + 2 ^ 12

-- A tracee that waits for the second value to become 0.
abbrev waiter : Config
waiter = record {
  pid = 20;
  wait_reason = wait_semop;
  wait_state = entered_ppoll;
  chain_state = not_chained;
  status_after_wait = ok 0;
  waiting_object_index = 0;
  msgrcv_msgp = 0;
  msgrcv_msgsz = 0;
  msgrcv_msgtyp = pos 0;
  msgrcv_msgflg = 0;
  semop_sops = record { sem_num = 1; sem_op = pos 0; sem_flg = 0 } ∷ [];
  sigstopped = false;
}

abbrev caller : Config
caller = record {
  pid = 10;
  wait_reason = not_waiting;
  wait_state = wstate_not_waiting;
  chain_state = not_chained;
  status_after_wait = ok 0;
  waiting_object_index = 0;
  msgrcv_msgp = 0;
  msgrcv_msgsz = 0;
  msgrcv_msgtyp = pos 0;
  msgrcv_msgflg = 0;
  semop_sops = [];
  sigstopped = false;
}

abbrev ipc : Ipc
ipc = record { semaphores = pair_semaphore ∷ []; configs = caller ∷ waiter ∷ [] }

abbrev memory : Memory
memory = record { write_values = λ _. ok tt; write_info = λ _. ok tt }

abbrev take_two : List Sembuf
take_two = record { sem_num = 1; sem_op = negsuc 1; sem_flg = 0 } ∷ []

lookup_example :
    lookup_ipc_object (ipc_object_id 0 1) (pair_semaphore ∷ []) ≡ ok (0, pair_semaphore)
lookup_example =
    lookup-ipc_object_id (pair_semaphore ∷ []) 0 1 pair_semaphore (omega arith) (omega arith) refl

pair-lookup : lookup_ipc_object pair_id (pair_semaphore ∷ []) ≡ ok (0, pair_semaphore)
unfolding lookup_ipc_object check_object
pair-lookup = refl

pair-get : semget (pair_semaphore ∷ []) 7 2 0 ≡ ok (pair_id, pair_semaphore ∷ [])
unfolding semget ipc_object_id
pair-get = refl

semget_example :
    (i : ℕ) × (s : Semaphore) × (lookup_ipc_object pair_id (pair_semaphore ∷ []) ≡ ok (i, s))
    × (s.valid ≡ true)
    × (s.key ≡ 7)
    × (2 ≤ s.nsems)
semget_example =
    semget-lookup (pair_semaphore ∷ []) (pair_semaphore ∷ []) 7 2 0 pair_id (omega arith)
      (omega arith, tt) pair-get

pair-check : sem_check take_two (0 ∷ 3 ∷ []) ≡ done (0 ∷ 1 ∷ [])
unfolding sem_check check_op
pair-check = refl

sem_check_example : Effect take_two (0 ∷ 3 ∷ []) (0 ∷ 1 ∷ [])
sem_check_example = sem_check-Effect take_two (0 ∷ 3 ∷ []) (0 ∷ 1 ∷ []) pair-check

All-CanWake : All CanWake (caller ∷ waiter ∷ [])
All-CanWake = ((λ e. cc), ((λ e. inl refl), tt))

command-rmid : command_of 0 ≡ rmid
unfolding command_of
command-rmid = refl

command-setval : command_of 16 ≡ setval
unfolding command_of
command-setval = refl

semctl-rmid_example :
    (ipc' : Ipc) × (semctl memory ipc pair_id 0 0 0 ≡ some (ok 0, ipc'))
    × AllTwo (Removed (waits_on 0)) (caller ∷ waiter ∷ []) ipc'.configs
    × (lookup_ipc_object pair_id ipc'.semaphores ≡ err einval)
semctl-rmid_example =
    semctl-rmid memory ipc pair_id 0 0 0 0 pair_semaphore pair-lookup command-rmid All-CanWake

abbrev after_setval : Ipc
after_setval = record ipc { semaphores = record pair_semaphore { sems = 0 ∷ 0 ∷ [] } ∷ [] }

pair-setval : semctl memory ipc pair_id 1 16 0 ≡ some (ok 0, after_setval)
unfolding semctl lookup_ipc_object check_object command_of do_semctl
pair-setval = refl

ipc-IsSound : IsSound ipc.semaphores
ipc-IsSound = record {
  each = (record { size = λ _. refl; bounds = omega arith; few = omega arith }, tt);
  count = omega arith;
}

Reach-IsSound_example : IsSound after_setval.semaphores
Reach-IsSound_example =
    Reach-IsSound (next here (control memory ipc after_setval pair_id 1 16 0 (ok 0) pair-setval))
      ipc-IsSound
