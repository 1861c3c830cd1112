-- ===== src/Wait/Progress.antt =====
-- The assertions of the wait machine: which of them can fail, and when.
use proot.Prelude.{
  ℕ, ◌≡◌, ◌≢◌, refl, ap, sym, ◌∙◌, ◌⊎◌, inl, inr, Bool, true, false, not, ◌&&◌, List, [], ◌∷◌,
  Option, none, some, ◌==◌, arith, All, Bool-cases, Option-cases, ==_iff, Result, err, Result-cases,
  get_elem?, eagain, leb, ltb,
}
use proot.Sysvipc.{
  Config, wstate_not_waiting, restarted_into_ppoll, restarted_into_ppoll_canceled, entered_ppoll,
  signaled_ppoll, entered_getpid, WaitState, ChainState, not_chained, msgrcv_retry_state,
  lookup_ipc_object, and_then, without_ipc_64,
}
use proot.Sysvipc.Wake.{CanWake, wake_tracee-Woken, wake_all-Removed}
use proot.Sem.{
  Memory as SemMemory, Ipc as SemIpc, semaphore_object, Semaphore, semctl, do_semctl, remove,
  Command, rmid, setval, command_of, waits_on, max_semval,
}
use proot.Sem.Waiters.{waits_on-is_waiting, semop-total}
use proot.Msg.{Item, Queue, queue_object, Memory as MsgMemory, Ipc as MsgIpc, receives_on}
use proot.Msg.Receive.{is_retry, is_eagain, is_not_waiting, takes, msgrcv_retry, retry_queue}
use proot.Msg.Calls.{msgsnd, read_item, wake_receiver, msgctl, do_msgctl}
use proot.Msg.Wakeup.{receives_on-is_waiting}
use proot.Wait.{
  is_idle, void_call, poke_result, State, Call, msgget_call, msgsnd_call, msgrcv_call, msgctl_call,
  semget_call, semop_call, semtimedop_call, semctl_call, timeout_of, sem_ipc, msg_ipc, handle,
  finish_reply, finish_call, syscall_common, wait_over, enter_by, exit_by, enter_start, exit_start,
  Reply, get_config, caller, get_config,
}
use proot.Wait.Wakes.{
  gave_up, IsConsistent, IsConsistent-CanWake, polls, Behind, All-map, idle-not_chained,
}
use proot.Wait.Dispatch.{IsOf, get_config-All, All-Before, handle-Behind, is_waiting-not}

abbrev pub Total {ℓ} : {A : Type ℓ} → Option A → Type ℓ
Total {A} o = (a : A) × (o ≡ some a)

wake_receiver-Total :
    (index : ℕ) (item : Item) (l : List Config) → All CanWake l → Total (wake_receiver index item l)
unfolding wake_receiver
wake_receiver-Total index item [] h = ([], refl)
wake_receiver-Total index item (c ∷ l) h = elim (Bool-cases (receives_on index c && takes c item)) [
  | inl w ↦
      let asked = record c { chain_state = msgrcv_retry_state } in
      let woken =
        wake_tracee-Woken asked (err eagain) (receives_on-is_waiting index c (ground arith)) h.0 in
      (woken.0 ∷ l, rw (w, woken.1) refl)
  | inr w ↦ let rest = wake_receiver-Total index item l h.1 in (c ∷ rest.0, rw (w, rest.1) refl)
]

module _ {M : Type 0} (mem : MsgMemory M) (ipc : MsgIpc M) (h : All CanWake ipc.configs) where
  msgsnd-Total : (time pid id msgp msgsz : ℕ) → Total (msgsnd mem time ipc pid id msgp msgsz)
  unfolding msgsnd
  msgsnd-Total time pid id msgp msgsz = elim (Result-cases (lookup_ipc_object id ipc.queues)) [
    | inl (x, k) ↦ rw (msgsnd, k) (_, refl)
    | inr ((i, q), k) ↦ elim (Result-cases (read_item mem ipc.memory pid msgp msgsz)) [
      | inl (x, k') ↦ rw (msgsnd, k, k') (_, refl)
      | inr (item, k') ↦
          let woken = wake_receiver-Total i item ipc.configs h in
          rw (msgsnd, k, k', woken.1) (_, refl)
    ]
  ]

  do_msgctl-Total :
      (pid i : ℕ) (q : Queue) (command buf : ℕ) → Total (do_msgctl mem ipc pid i q command buf)
  unfolding do_msgctl
  do_msgctl-Total pid i q command buf = elim (Bool-cases (command == 0)) [
    | inl z ↦
        let woken = wake_all-Removed (receives_on i) ipc.configs (receives_on-is_waiting i) h in
        rw (do_msgctl, z, woken.1) (_, refl)
    | inr z ↦ elim (Bool-cases (command == 2)) [
      | inl y ↦ rw (do_msgctl, z, y) (_, refl)
      | inr y ↦ rw (do_msgctl, z, y) (_, refl)
    ]
  ]

  msgctl-Total : (pid id cmd buf : ℕ) → Total (msgctl mem ipc pid id cmd buf)
  unfolding msgctl
  msgctl-Total pid id cmd buf = elim (Result-cases (lookup_ipc_object id ipc.queues)) [
    | inl (x, k) ↦ rw (msgctl, k) (_, refl)
    | inr ((i, q), k) ↦ rw (msgctl, k) (do_msgctl-Total pid i q (without_ipc_64 cmd) buf)
  ]

module _ (m : SemMemory) (ipc : SemIpc) (h : All CanWake ipc.configs) where
  do_semctl-Total :
      (i : ℕ) (s : Semaphore) (semnum cmdarg : ℕ) (c : Command)
      → Total (do_semctl m ipc i s semnum cmdarg c)
  unfolding do_semctl remove
  do_semctl-Total i s semnum cmdarg rmid =
      let woken = wake_all-Removed (waits_on i) ipc.configs (waits_on-is_waiting i) h in
      rw (do_semctl, remove, woken.1) (_, refl)
  do_semctl-Total i s semnum cmdarg setval = elim (Bool-cases (ltb max_semval cmdarg)) [
    | inl b ↦ rw (do_semctl, b) (_, refl)
    | inr b ↦ elim (Bool-cases (leb s.nsems semnum)) [
      | inl d ↦ rw (do_semctl, b, d) (_, refl)
      | inr d ↦ rw (do_semctl, b, d) (_, refl)
    ]
  ]
  do_semctl-Total i s semnum cmdarg _ = (_, refl)

  semctl-Total : (id semnum cmd cmdarg : ℕ) → Total (semctl m ipc id semnum cmd cmdarg)
  unfolding semctl
  semctl-Total id semnum cmd cmdarg = elim (Result-cases (lookup_ipc_object id ipc.semaphores)) [
    | inl (x, k) ↦ rw (semctl, k) (_, refl)
    | inr ((i, s), k) ↦ rw (semctl, k) (do_semctl-Total i s semnum cmdarg (command_of cmd))
  ]

get_config-pid : (me : ℕ) (l : List Config) (d : Config) → get_config me l ≡ some d → d.pid ≡ me
get_config-pid me [] d e = cc (e)
get_config-pid me (c ∷ l) d e = elim (Bool-cases (c.pid == me)) [
  | inl k ↦
      let same : c ≡ d = cc (rw k at e) in
      ap (λ (x : Config). x.pid) (sym same) ∙ (==_iff c.pid me).0 k
  | inr k ↦ get_config-pid me l d (rw k at e)
]

finish_reply-Total :
    (from_sigsys : Bool) (timeout : ℕ) (status : Result ℕ) (s : ChainState) (d : Config)
    → s ≡ not_chained
    → Total (finish_reply from_sigsys timeout status s d)
unfolding finish_reply
finish_reply-Total b timeout status not_chained d e = (_, refl)
finish_reply-Total b timeout status _ d e = cc (e)

others : (me : ℕ) (l : List Config) → All CanWake l → All (λ d. d.pid ≢ me → CanWake d) l
others me l h = All-map CanWake (λ d. d.pid ≢ me → CanWake d) l (λ d k _. k) h

-- The retry of a woken tracee finds no valid queue at its index.
abbrev pub Gone : {M : Type 0} → State M → Config → Type 0
Gone st c =
    (is_retry c.chain_state ≡ true)
    × (is_eagain c.status_after_wait ≡ true)
    × ((get_elem? st.queues c.waiting_object_index ≡ none)
        ⊎ ((q : Queue) × (get_elem? st.queues c.waiting_object_index ≡ some q) × (q.valid ≡ false)))

abbrev pub can_enter : WaitState → Bool
can_enter restarted_into_ppoll = true
can_enter restarted_into_ppoll_canceled = true
can_enter _ = false

abbrev pub can_exit : WaitState → Bool
can_exit restarted_into_ppoll = false
can_exit restarted_into_ppoll_canceled = false
can_exit _ = true

module _ {M : Type 0} (sem_memory : SemMemory) (memory : MsgMemory M) (time : ℕ) (st : State M)
    (c : Config) where
  handle-Total :
      (call : Call) → All CanWake st.configs → Total (handle sem_memory memory time call st c)
  unfolding handle
  handle-Total (msgget_call a b) h = (_, refl)
  handle-Total (semget_call a b d) h = (_, refl)
  handle-Total (msgsnd_call id msgp msgsz) h =
      let out = msgsnd-Total memory (msg_ipc st) h time c.pid id msgp msgsz in rw out.1 (_, refl)
  handle-Total (msgrcv_call id msgp msgsz msgtyp msgflg) h = (_, refl)
  handle-Total (msgctl_call id cmd buf) h =
      let out = msgctl-Total memory (msg_ipc st) h c.pid id cmd buf in rw out.1 (_, refl)
  handle-Total (semop_call id nsops sops) h =
      let out = semop-total (sem_ipc st) c.pid id nsops sops (others c.pid st.configs h) in
      rw out.1 (_, refl)
  handle-Total (semtimedop_call id nsops sops timeout) h =
      let out = semop-total (sem_ipc st) c.pid id nsops sops (others c.pid st.configs h) in
      rw out.1 (_, refl)
  handle-Total (semctl_call id semnum cmd cmdarg) h =
      let out = semctl-Total sem_memory (sem_ipc st) h id semnum cmd cmdarg in rw out.1 (_, refl)

  -- A system call of a tracee that does not wait fails no assertion, where all tracees are consistent
  -- and the calling one is alone with its process id.
  pub syscall_common-Total :
      (from_sigsys : Bool) (call : Call)
      → IsOf c st.configs
      → c.wait_state ≡ wstate_not_waiting
      → All IsConsistent st.configs
      → (p : Reply × State M) × (syscall_common sem_memory memory time from_sigsys call st c
          ≡ some p)
  unfolding syscall_common finish_call
  syscall_common-Total b call o w h =
      let mine = get_config-All IsConsistent c.pid st.configs c h o.there in
      let idle : is_idle c.wait_state ≡ true = ap is_idle w in
      let out =
        handle-Total call (All-map IsConsistent CanWake st.configs IsConsistent-CanWake h) in
      let behind =
        handle-Behind sem_memory memory time call st out.0.1 c out.0.0
          (All-Before sem_memory memory time c st.configs w o.alone h) (mine, (λ _. w)) out.1 in
      let d = caller c (get_config c.pid out.0.1.configs) in
      let reply =
        finish_reply-Total b (timeout_of call) out.0.0 d.chain_state d
          (called out.0.1.configs mine behind (get_config c.pid out.0.1.configs) refl) in
      rw (syscall_common, idle, out.1, finish_call, reply.1) (_, refl)
    where
      called :
          (l : List Config)
          → IsConsistent c
          → All (Behind c.pid) l
          → (o : Option Config) → get_config c.pid l ≡ o
          → (caller c o).chain_state ≡ not_chained
      called l mine k none e = idle-not_chained c mine w
      called l mine k (some d) e =
          ((get_config-All (Behind c.pid) c.pid l d k e).1 (get_config-pid c.pid l d e)).1

  wait_over-Total : Total (wait_over sem_memory memory time st c) ⊎ Gone st c
  unfolding wait_over msgrcv_retry retry_queue
  wait_over-Total = elim (Bool-cases (is_retry c.chain_state)) [
    | inr k ↦ inl (rw (wait_over, k) (_, refl))
    | inl k ↦ elim (Bool-cases (is_eagain c.status_after_wait)) [
      | inr k' ↦ inl (rw (wait_over, k, msgrcv_retry, k') (_, refl))
      | inl k' ↦ elim (Option-cases (get_elem? st.queues c.waiting_object_index)) [
        | inl g ↦ inr (k, k', inl g)
        | inr (q, g) ↦ elim (Bool-cases q.valid) [
          | inr v ↦ inr (k, k', inr (q, g, v))
          | inl v ↦ inl (rw (wait_over, k, msgrcv_retry, k', g, retry_queue, v) (_, refl))
        ]
      ]
    ]
  ]

  -- A wait that is over, and what is made of its status.
  replied-Total :
      (f : Result ℕ → Reply)
      → Total (
          and_then {B = Reply × State M}
            (wait_over sem_memory memory time st c)
            (λ p. some (f p.0, p.1)))
        ⊎ Gone st c
  replied-Total f = elim wait_over-Total [ inl (p, e) ↦ inl (rw e (_, refl)) | inr g ↦ inr g ]

  enter_by-Total :
      (in_ppoll : Bool) (s : WaitState)
      → can_enter s ≡ true
      → Total (enter_by sem_memory memory time in_ppoll s st c)
        ⊎ (Gone st c ⊎ ((s ≡ restarted_into_ppoll) × (in_ppoll ≡ false)))
  unfolding enter_by
  enter_by-Total true restarted_into_ppoll e = inl (_, refl)
  enter_by-Total false restarted_into_ppoll e = inr (inr (refl, refl))
  enter_by-Total in_ppoll restarted_into_ppoll_canceled e = elim (replied-Total void_call) [
    | inl t ↦ inl t
    | inr g ↦ inr (inl g)
  ]
  enter_by-Total in_ppoll _ e = cc (e)

  idle-reason :
      (s : WaitState)
      → IsConsistent c
      → c.wait_state ≡ s
      → polls s ≡ false
      → is_not_waiting c.wait_reason ≡ true
  idle-reason s mine w p = elim (Bool-cases (is_not_waiting c.wait_reason)) [
    | inl e ↦ e
    | inr e ↦
        let z = is_waiting-not c.wait_reason in
        let y = mine.waits ∙ ap polls w in cc (ap not e, z, y, p)
  ]

  exit_by-Total :
      (kept : Bool) (s : WaitState)
      → IsConsistent c
      → c.wait_state ≡ s
      → can_exit s ≡ true
      → Total (exit_by sem_memory memory time kept s st c) ⊎ Gone st c
  unfolding exit_by
  exit_by-Total kept wstate_not_waiting mine w e = inl (_, refl)
  exit_by-Total kept entered_ppoll mine w e = elim (Bool-cases (is_not_waiting c.wait_reason)) [
    | inr k ↦ inl (rw (k, gave_up c.wait_reason c) (_, refl))
    | inl k ↦
        let z = is_waiting-not c.wait_reason in
        let y = mine.waits ∙ ap polls w in cc (ap not k, z, y)
  ]
  exit_by-Total kept signaled_ppoll mine w e =
      rw (idle-reason signaled_ppoll mine w refl) (replied-Total poke_result)
  exit_by-Total kept entered_getpid mine w e =
      rw (idle-reason entered_getpid mine w refl) (replied-Total poke_result)
  exit_by-Total kept _ mine w e = cc (e)

  -- The entry of a consistent tracee that is about to enter ppoll(2) or was woken before it did, and
  -- the exit of one that is inside a system call, fail no assertion, but for two: the tracee is to try
  -- msgrcv(2) again and the queue has been removed, or the tracee is about to enter ppoll(2) and
  -- enters another system call.
  pub events-Total :
      (kept in_ppoll : Bool)
      → IsConsistent c
      → (can_enter c.wait_state ≡ true
          → Total (enter_start sem_memory memory time in_ppoll st c)
            ⊎ (Gone st c ⊎ ((c.wait_state ≡ restarted_into_ppoll) × (in_ppoll ≡ false))))
        × (can_exit c.wait_state ≡ true
            → Total (exit_start sem_memory memory time kept st c) ⊎ Gone st c)
  events-Total kept in_ppoll mine =
      (enter_by-Total in_ppoll c.wait_state, exit_by-Total kept c.wait_state mine refl)
