-- ===== src/Examples/Waits.antt =====
-- Concrete inputs for the theorems on src/extension/sysvipc/sysvipc.c.
use proot.Prelude.{ℕ, ◌≡◌, refl, ◌⊎◌, true, false, some, List, [], ◌∷◌, All, ok}
use proot.Sysvipc.{
  restarted_into_ppoll, signaled_ppoll, entered_getpid, lookup_ipc_object, check_object,
  wake_tracee, update_config,
}
use proot.Sem.{Memory as SemMemory}
use proot.Msg.{msg_match, to_int}
use proot.Msg.Calls.{append_item, msgsnd, read_item, wake_receiver}
use proot.Msg.Wakeup.{retrying}
use proot.Wait.{
  State, msgsnd_call, Reply, run_getpid, syscall_common, handle, finish_call, finish_reply,
  finish_by, enter_start, exit_start,
}
use proot.Wait.Wakes.{IsConsistent}
use proot.Wait.Dispatch.{IsOf}
use proot.Wait.Reach.{here, next, syscall, Reach-IsConsistent}
use proot.Wait.Progress.{Total, Gone, can_enter, can_exit, syscall_common-Total, events-Total}
use proot.Examples.Messages.{log, sender, receiver, one_queue, queue_id, five}

abbrev no_memory : SemMemory
no_memory = record { write_values = λ _. ok tt; write_info = λ _. ok tt }

-- One tracee waits for a message, and another sends it.
abbrev before : State (List ℕ)
before = record {
  semaphores = [];
  queues = one_queue ∷ [];
  configs = sender ∷ receiver ∷ [];
  memory = [];
}

abbrev after : State (List ℕ)
after = record before {
  queues = append_item one_queue 10 8 five ∷ [];
  configs =
      record sender { wait_state = entered_getpid } ∷ retrying receiver signaled_ppoll true ∷ [];
}

before-IsConsistent : All IsConsistent before.configs
before-IsConsistent = (
  record { waits = refl; retries = λ r. cc (r); simple = refl },
  (record { waits = refl; retries = λ r. cc (r); simple = refl }, tt),
)

sender-IsOf : IsOf sender before.configs
sender-IsOf = record { there = refl; alone = ((λ _. refl), ((λ e. cc (e)), tt)) }

before-after :
    syscall_common no_memory log 8 false (msgsnd_call queue_id 200 2) before sender
    ≡ some (run_getpid, after)
unfolding syscall_common handle finish_call finish_reply finish_by msgsnd read_item wake_receiver
    append_item lookup_ipc_object check_object wake_tracee update_config msg_match to_int
before-after = refl

Reach-IsConsistent_example : All IsConsistent after.configs
Reach-IsConsistent_example =
    Reach-IsConsistent no_memory log {st = before} {st' = after} before-IsConsistent (
      next here (
        syscall before after 8 false (msgsnd_call queue_id 200 2) sender run_getpid sender-IsOf refl
          before-after))

syscall_common-Total_example :
    (p : Reply × State (List ℕ)) × (syscall_common no_memory log 8 false
        (msgsnd_call queue_id 200 2)
        before
        sender
      ≡ some p)
syscall_common-Total_example =
    syscall_common-Total no_memory log 8 before sender false (msgsnd_call queue_id 200 2)
      sender-IsOf refl before-IsConsistent

events-Total_example :
    (can_enter receiver.wait_state ≡ true
      → Total (enter_start no_memory log 8 true before receiver)
        ⊎ (Gone before receiver ⊎ ((receiver.wait_state ≡ restarted_into_ppoll) × (true ≡ false))))
    × (can_exit receiver.wait_state ≡ true
        → Total (exit_start no_memory log 8 true before receiver) ⊎ Gone before receiver)
events-Total_example =
    events-Total no_memory log 8 before receiver true true before-IsConsistent.1.0
