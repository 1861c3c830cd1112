-- ===== src/Wait.antt =====
-- src/extension/sysvipc/sysvipc.c: the dispatch of the system calls on semaphores and message queues,
-- and how a tracee waits, in ppoll(2), until another one wakes it.
pub mod Wakes
pub mod Handlers
pub mod Messages
pub mod Dispatch
pub mod Events
pub mod Reach
pub mod Progress
use proot.Prelude.{
  ℕ, Bool, true, false, not, Option, none, some, List, [], ◌∷◌, ◌==◌, if◌then◌else◌, Errno, eintr,
  Result, ok, err,
}
use proot.Sysvipc.{
  ℤ, Sembuf, Config, WaitReason, not_waiting, wait_semop, WaitState, wstate_not_waiting,
  restarted_into_ppoll_canceled, restarted_into_ppoll, entered_ppoll, signaled_ppoll,
  entered_getpid, ChainState, not_chained, single, shmat_socket, and_then, update_config,
}
use proot.Sem.{Ipc as SemIpc, Memory as SemMemory, Semaphore, semget, semop, semctl, end_semop}
use proot.Msg.{Ipc as MsgIpc, Memory as MsgMemory, Queue, msgget}
use proot.Msg.Receive.{msgrcv, msgrcv_retry, is_not_waiting, is_retry}
use proot.Msg.Calls.{msgsnd, msgctl}

-- A name-space, its tracees, and their memory.
pub record State (M : Type 0) : Type 0 where
  pub semaphores : List Semaphore
  pub queues : List Queue
  pub configs : List Config
  pub memory : M

-- The system calls of `filtered_sysnums`, without those on shared memory; their arguments are those of
-- the handlers.
pub data Call : Type 0 where
  msgget_call : ℕ → ℕ → Call
  msgsnd_call : ℕ → ℕ → ℕ → Call
  msgrcv_call : ℕ → ℕ → ℕ → ℤ → ℕ → Call
  msgctl_call : ℕ → ℕ → ℕ → Call
  semget_call : ℕ → ℕ → ℕ → Call
  semop_call : ℕ → ℕ → Result (List Sembuf) → Call
  semtimedop_call : ℕ → ℕ → Result (List Sembuf) → ℕ → Call
  semctl_call : ℕ → ℕ → ℕ → ℕ → Call

abbrev pub timeout_of : Call → ℕ
timeout_of (semtimedop_call _ _ _ timeout) = timeout
timeout_of _ = 0

module _ {M : Type 0} where
  abbrev pub sem_ipc : State M → SemIpc
  sem_ipc st = record { semaphores = st.semaphores; configs = st.configs }

  abbrev pub after_sem : State M → SemIpc → State M
  after_sem st ipc = record st { semaphores = ipc.semaphores; configs = ipc.configs }

  abbrev pub msg_ipc : State M → MsgIpc M
  msg_ipc st = record { queues = st.queues; configs = st.configs; memory = st.memory }

  abbrev pub after_msg : State M → MsgIpc M → State M
  after_msg st ipc = record st { queues = ipc.queues; configs = ipc.configs; memory = ipc.memory }

  abbrev pub from_sem : State M → Option (Result ℕ × SemIpc) → Option (Result ℕ × State M)
  from_sem st none = none
  from_sem st (some (r, ipc)) = some (r, after_sem st ipc)

  abbrev pub from_msg : State M → Option (Result ℕ × MsgIpc M) → Option (Result ℕ × State M)
  from_msg st none = none
  from_msg st (some (r, ipc)) = some (r, after_msg st ipc)

  abbrev pub got_semaphores : State M → Result (ℕ × List Semaphore) → Result ℕ × State M
  got_semaphores st (err e) = (err e, st)
  got_semaphores st (ok (id, l)) = (ok id, record st { semaphores = l })

  abbrev pub got_queues : State M → Result (ℕ × List Queue) → Result ℕ × State M
  got_queues st (err e) = (err e, st)
  got_queues st (ok (id, l)) = (ok id, record st { queues = l })

-- `sysvipc_get_config` of the tracee with a process id
abbrev pub get_config : ℕ → List Config → Option Config
get_config me [] = none
get_config me (c ∷ l) = if c.pid == me then some c else get_config me l

-- The configuration that is found; a handler removes none from the list.
abbrev pub caller : Config → Option Config → Config
caller c none = c
caller c (some d) = d

-- What is done to the system call of the tracee, and what its handler returns then.
pub data Reply : Type 0 where
  -- The chained call goes on in place of this one; from SIGSYS it is restarted.
  run_chain : Bool → Reply
  -- ppoll(2) with a timeout in place of this one; from SIGSYS it is restarted.
  run_ppoll : ℕ → Bool → Reply
  -- getpid(2) in place of this one, whose result is replaced at its exit.
  run_getpid : Reply
  -- The result is set at once, behind SIGSYS.
  set_result : Result ℕ → Reply
  -- ppoll(2) that has been restarted runs now.
  keep_ppoll : Reply
  -- No system call runs; the result is poked.
  void_call : Result ℕ → Reply
  -- The result is poked.
  poke_result : Result ℕ → Reply
  -- The result of ppoll(2) stays, or is EINTR.
  interrupted : Bool → Reply
  -- Nothing is done.
  untouched : Reply

-- What the end of `sysvipc_syscall_common` does to the configuration of the calling tracee, by the
-- state of its chain.
unfoldable pub finish_by : Bool → Result ℕ → ChainState → Config → Config
finish_by from_sigsys status single c = record c { chain_state = not_chained }
finish_by from_sigsys status not_chained c =
    if not (is_not_waiting c.wait_reason)
    then record c { wait_state = if from_sigsys then restarted_into_ppoll else entered_ppoll }
    else if from_sigsys
    then c
    else record c { status_after_wait = status; wait_state = entered_getpid }
finish_by from_sigsys status _ c = c

abbrev pub finish_config : Bool → Result ℕ → Config → Config
finish_config from_sigsys status c = finish_by from_sigsys status c.chain_state c

-- The reply of `sysvipc_syscall_common`; `none` is the assertion on the state of the chain.
unfoldable pub finish_reply : Bool → ℕ → Result ℕ → ChainState → Config → Option Reply
finish_reply from_sigsys timeout status single c = some (run_chain from_sigsys)
finish_reply from_sigsys timeout status shmat_socket c = some (run_chain from_sigsys)
finish_reply from_sigsys timeout status not_chained c = some (
    if not (is_not_waiting c.wait_reason)
    then run_ppoll timeout from_sigsys
    else if from_sigsys
    then set_result status
    else run_getpid)
finish_reply from_sigsys timeout status _ c = none

abbrev pub is_idle : WaitState → Bool
is_idle wstate_not_waiting = true
is_idle _ = false

abbrev pub stop_waiting : Config → Config
stop_waiting c = record c { wait_state = wstate_not_waiting }

-- What the exit of ppoll(2) does to a tracee that nothing has woken, by its reason to wait.
unfoldable pub give_up_by : WaitReason → Config → Config
give_up_by wait_semop c = stop_waiting (end_semop c)
give_up_by _ c = stop_waiting (record c { wait_reason = not_waiting })

abbrev pub give_up : Config → Config
give_up c = give_up_by c.wait_reason c

-- The end of `sysvipc_syscall_common`, behind the handler.
unfoldable pub finish_call :
    {M : Type 0} → Bool → ℕ → Config → Result ℕ × State M → Option (Reply × State M)
finish_call from_sigsys timeout c p =
    let d = caller c (get_config c.pid p.1.configs) in
    and_then (finish_reply from_sigsys timeout p.0 d.chain_state d) λ reply. some (
      reply,
      record p.1 { configs = update_config c.pid (finish_config from_sigsys p.0) p.1.configs },
    )

module _ {M : Type 0} (sem_memory : SemMemory) (memory : MsgMemory M) (time : ℕ) where
  -- The switch of `sysvipc_syscall_common`, for the tracee of `c`.
  unfoldable pub handle : Call → State M → Config → Option (Result ℕ × State M)
  handle (msgget_call queue_id msgflg) st c =
      some (got_queues st (msgget st.queues queue_id msgflg))
  handle (msgsnd_call id msgp msgsz) st c =
      from_msg st (msgsnd memory time (msg_ipc st) c.pid id msgp msgsz)
  handle (msgrcv_call id msgp msgsz msgtyp msgflg) st c =
      from_msg st (some (msgrcv memory time (msg_ipc st) c id msgp msgsz msgtyp msgflg))
  handle (msgctl_call id cmd buf) st c = from_msg st (msgctl memory (msg_ipc st) c.pid id cmd buf)
  handle (semget_call semaphore_id nsems semflg) st c =
      some (got_semaphores st (semget st.semaphores semaphore_id nsems semflg))
  handle (semop_call id nsops sops) st c = from_sem st (semop (sem_ipc st) c.pid id nsops sops)
  handle (semtimedop_call id nsops sops timeout) st c =
      from_sem st (semop (sem_ipc st) c.pid id nsops sops)
  handle (semctl_call id semnum cmd cmdarg) st c =
      from_sem st (semctl sem_memory (sem_ipc st) id semnum cmd cmdarg)

  -- `sysvipc_syscall_common`. `none` is a failed assertion, the first one that the tracee of `c` does
  -- not wait.
  unfoldable pub syscall_common : Bool → Call → State M → Config → Option (Reply × State M)
  syscall_common from_sigsys call st c =
      if not (is_idle c.wait_state)
      then none
      else (and_then (handle call st c) λ p. finish_call from_sigsys (timeout_of call) c p)

  -- The status that a tracee was woken with, or what its retry of msgrcv(2) gives; the wait is over.
  unfoldable pub wait_over : State M → Config → Option (Result ℕ × State M)
  wait_over st c =
      if is_retry c.chain_state
      then (and_then (msgrcv_retry memory time (msg_ipc st) (stop_waiting c)) λ p. some (
        p.0,
        after_msg st (record p.1 { configs = update_config c.pid stop_waiting p.1.configs }),
      ))
      else some
          (c.status_after_wait, record st { configs = update_config c.pid stop_waiting st.configs })

  -- `in_ppoll` tells that the system call is ppoll(2).
  unfoldable pub enter_by : Bool → WaitState → State M → Config → Option (Reply × State M)
  enter_by in_ppoll restarted_into_ppoll st c =
      if not in_ppoll
      then none
      else some (
        keep_ppoll,
        record st {
          configs = update_config c.pid (λ d. record d { wait_state = entered_ppoll }) st.configs;
        },
      )
  enter_by in_ppoll restarted_into_ppoll_canceled st c =
      and_then (wait_over st c) λ p. some (void_call p.0, p.1)
  enter_by in_ppoll _ st c = none

  -- SYSCALL_ENTER_START for a tracee that waits: its ppoll(2) begins, or was canceled before. Another
  -- state of the wait, or another system call that begins, is a failed assertion.
  abbrev pub enter_start : Bool → State M → Config → Option (Reply × State M)
  enter_start in_ppoll st c = enter_by in_ppoll c.wait_state st c

  unfoldable pub exit_by : Bool → WaitState → State M → Config → Option (Reply × State M)
  exit_by kept wstate_not_waiting st c = some (untouched, st)
  exit_by kept entered_ppoll st c =
      if is_not_waiting c.wait_reason
      then none
      else if not (is_not_waiting (give_up c).wait_reason)
      then none
      else some (interrupted kept, record st { configs = update_config c.pid give_up st.configs })
  exit_by kept signaled_ppoll st c =
      if not (is_not_waiting c.wait_reason)
      then none
      else (and_then (wait_over st c) λ p. some (poke_result p.0, p.1))
  exit_by kept entered_getpid st c =
      if not (is_not_waiting c.wait_reason)
      then none
      else (and_then (wait_over st c) λ p. some (poke_result p.0, p.1))
  exit_by kept _ st c = none

  -- SYSCALL_EXIT_START, where no chain of shared memory is under way; `kept` tells that the result of
  -- ppoll(2) is EFAULT or EINTR.
  abbrev pub exit_start : Bool → State M → Config → Option (Reply × State M)
  exit_start kept st c = exit_by kept c.wait_state st c
