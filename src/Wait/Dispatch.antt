-- ===== src/Wait/Dispatch.antt =====
-- The dispatch of the system calls keeps all tracees consistent.
use proot.Prelude.{
  ℕ, ◌≡◌, ◌≢◌, refl, ap, sym, ◌∙◌, inl, inr, Bool, true, false, not, List, [], ◌∷◌, Option, none,
  some, ◌==◌, arith, All, Bool-cases, ==_iff, Result, ok, err,
}
use mathlib.Core.Path.{subst}
use proot.Sysvipc.{
  Config, WaitReason, not_waiting, wait_semop, wait_queue_recv, wait_shmat_helper_busy,
  wstate_not_waiting, ChainState, not_chained, update_config,
}
use proot.Sysvipc.Wake.{is_waiting}
use proot.Sem.{Ipc as SemIpc, Memory as SemMemory, Semaphore, semget}
use proot.Msg.{Queue, Ipc as MsgIpc, Memory as MsgMemory, msgget}
use proot.Msg.Receive.{msgrcv, is_retry, is_not_waiting}
use proot.Wait.{
  is_idle, finish_call, finish_reply, timeout_of, got_queues, got_semaphores, State, Call,
  msgget_call, msgsnd_call, msgrcv_call, msgctl_call, semget_call, semop_call, semtimedop_call,
  semctl_call, from_sem, from_msg, sem_ipc, msg_ipc, handle, finish_by, finish_config,
  syscall_common, Reply, get_config, caller,
}
use proot.Wait.Wakes.{IsConsistent, polls, is_simple, Before, Behind}
use proot.Sysvipc.Wake.{and_then-some}
use proot.Wait.Handlers.{semop-Behind, semctl-Behind, All-Behind}
use proot.Wait.Messages.{msgsnd-Behind, msgctl-Behind, msgrcv-Behind}

-- The tracee is in the list, alone with its process id.
pub record IsOf (c : Config) (l : List Config) : Type 0 where
  pub there : get_config c.pid l ≡ some c
  pub alone : All (λ d. d.pid ≡ c.pid → d ≡ c) l

pub get_config-All {κ} :
    (P : Config → Type κ) (me : ℕ) (l : List Config) (c : Config)
    → All P l
    → get_config me l ≡ some c
    → P c
get_config-All P me [] c h e = cc (e)
get_config-All P me (d ∷ l) c h e = elim (Bool-cases (d.pid == me)) [
  | inl k ↦ let same : d ≡ c = cc (rw k at e) in subst P same h.0
  | inr k ↦ get_config-All P me l c h.1 (rw k at e)
]

-- A change of the calling tracee that makes it consistent.
pub update_config-IsConsistent :
    (P : Config → Type 0) (me : ℕ) (f : Config → Config) (l : List Config)
    → ((d : Config) → d.pid ≡ me → P d → IsConsistent (f d))
    → ((d : Config) → d.pid ≢ me → P d → IsConsistent d)
    → All P l
    → All IsConsistent (update_config me f l)
unfolding update_config
update_config-IsConsistent P me f [] changed kept h = tt
update_config-IsConsistent P me f (d ∷ l) changed kept h = elim (Bool-cases (d.pid == me)) [
  | inl e ↦
      rw e (
        changed d ((==_iff d.pid me).0 e) h.0,
        update_config-IsConsistent P me f l changed kept h.1,
      )
  | inr e ↦
      rw e (kept d (λ k. ground arith) h.0, update_config-IsConsistent P me f l changed kept h.1)
]

pub is_waiting-not : (r : WaitReason) → is_waiting r ≡ not (is_not_waiting r)
is_waiting-not not_waiting = refl
is_waiting-not wait_queue_recv = refl
is_waiting-not wait_semop = refl
is_waiting-not wait_shmat_helper_busy = refl

pub not_chained-IsConsistent :
    (d : Config)
    → d.chain_state ≡ not_chained
    → is_waiting d.wait_reason ≡ polls d.wait_state
    → IsConsistent d
not_chained-IsConsistent d n w = record {
  waits = w;
  retries = λ r. cc (ap is_retry n, r);
  simple = ap is_simple n;
}

-- The end of `sysvipc_syscall_common` makes the calling tracee consistent.
pub finish_by-IsConsistent :
    (from_sigsys : Bool) (status : Result ℕ) (s : ChainState) (c : Config)
    → s ≡ not_chained
    → c.wait_state ≡ wstate_not_waiting
    → c.chain_state ≡ not_chained
    → IsConsistent (finish_by from_sigsys status s c)
unfolding finish_by
finish_by-IsConsistent from_sigsys status not_chained c k w n =
    elim (Bool-cases (is_not_waiting c.wait_reason)) [
      | inr e ↦ waiting from_sigsys e
      | inl e ↦ idle from_sigsys e
    ]
  where
    waiting :
        (b : Bool)
        → is_not_waiting c.wait_reason ≡ false
        → IsConsistent (finish_by b status not_chained c)
    waiting true e = rw e (not_chained-IsConsistent _ n (is_waiting-not c.wait_reason ∙ ap not e))
    waiting false e = rw e (not_chained-IsConsistent _ n (is_waiting-not c.wait_reason ∙ ap not e))

    idle :
        (b : Bool)
        → is_not_waiting c.wait_reason ≡ true
        → IsConsistent (finish_by b status not_chained c)
    idle true e =
        rw e (
          not_chained-IsConsistent c n (is_waiting-not c.wait_reason ∙ ap not e ∙ sym (ap polls w)))
    idle false e = rw e (not_chained-IsConsistent _ n (is_waiting-not c.wait_reason ∙ ap not e))
finish_by-IsConsistent from_sigsys status _ c k w n = cc (k)

from_sem-some :
    {M : Type 0} (st st' : State M) (r : Result ℕ) (o : Option (Result ℕ × SemIpc))
    → from_sem st o ≡ some (r, st')
    → (ipc : SemIpc) × (o ≡ some (r, ipc)) × (ipc.configs ≡ st'.configs)
from_sem-some st st' r none h = cc (h)
from_sem-some st st' r (some (q, ipc)) h = (ipc, ground arith, ground arith)

from_msg-some :
    {M : Type 0} (st st' : State M) (r : Result ℕ) (o : Option (Result ℕ × MsgIpc M))
    → from_msg st o ≡ some (r, st')
    → (ipc : MsgIpc M) × (o ≡ some (r, ipc)) × (ipc.configs ≡ st'.configs)
from_msg-some st st' r none h = cc (h)
from_msg-some st st' r (some (q, ipc)) h = (ipc, ground arith, ground arith)

module _ {M : Type 0} (sem_memory : SemMemory) (memory : MsgMemory M) (time : ℕ) where
  -- Every handler keeps the other tracees consistent, and the state of the calling one.
  pub handle-Behind :
      (call : Call) (st st' : State M) (c : Config) (r : Result ℕ)
      → All (Before c.pid) st.configs
      → Before c.pid c
      → handle sem_memory memory time call st c ≡ some (r, st')
      → All (Behind c.pid) st'.configs
  unfolding handle
  handle-Behind (msgget_call a b) st st' c r h k e =
      got_queues-Behind (msgget st.queues a b) (cc (e))
    where
      got_queues-Behind :
          (o : Result (ℕ × List Queue))
          → got_queues st o ≡ (r, st')
          → All (Behind c.pid) st'.configs
      got_queues-Behind (err x) q =
          let same : st.configs ≡ st'.configs = ground arith in
          rw (← same) (All-Behind c.pid st.configs h)
      got_queues-Behind (ok x) q =
          let same : st.configs ≡ st'.configs = ground arith in
          rw (← same) (All-Behind c.pid st.configs h)
  handle-Behind (semget_call a b d) st st' c r h k e =
      got_semaphores-Behind (semget st.semaphores a b d) (cc (e))
    where
      got_semaphores-Behind :
          (o : Result (ℕ × List Semaphore))
          → got_semaphores st o ≡ (r, st')
          → All (Behind c.pid) st'.configs
      got_semaphores-Behind (err x) q =
          let same : st.configs ≡ st'.configs = ground arith in
          rw (← same) (All-Behind c.pid st.configs h)
      got_semaphores-Behind (ok x) q =
          let same : st.configs ≡ st'.configs = ground arith in
          rw (← same) (All-Behind c.pid st.configs h)
  handle-Behind (msgsnd_call id msgp msgsz) st st' c r h k e =
      let out = from_msg-some st st' r _ e in
      rw (← out.2)
        (msgsnd-Behind memory (msg_ipc st) c.pid h out.0 r time c.pid id msgp msgsz out.1)
  handle-Behind (msgrcv_call id msgp msgsz msgtyp msgflg) st st' c r h k e =
      let out =
        from_msg-some st st' r
          (some (msgrcv memory time (msg_ipc st) c id msgp msgsz msgtyp msgflg)) e in
      let same : (msgrcv memory time (msg_ipc st) c id msgp msgsz msgtyp msgflg).1.configs
          ≡ st'.configs =
        ap (λ (o : Option (Result ℕ × MsgIpc M)). elim o [ none ↦ [] | some p ↦ p.1.configs ]) out.1
        ∙ out.2 in
      rw (← same)
        (msgrcv-Behind memory (msg_ipc st) c.pid h time c id msgp msgsz msgtyp msgflg refl k)
  handle-Behind (msgctl_call id cmd buf) st st' c r h k e =
      let out = from_msg-some st st' r _ e in
      rw (← out.2) (msgctl-Behind memory (msg_ipc st) c.pid h out.0 r c.pid id cmd buf out.1)
  handle-Behind (semop_call id nsops sops) st st' c r h k e =
      let out = from_sem-some st st' r _ e in
      rw (← out.2) (semop-Behind (sem_ipc st) out.0 c.pid id nsops sops r h out.1)
  handle-Behind (semtimedop_call id nsops sops timeout) st st' c r h k e =
      let out = from_sem-some st st' r _ e in
      rw (← out.2) (semop-Behind (sem_ipc st) out.0 c.pid id nsops sops r h out.1)
  handle-Behind (semctl_call id semnum cmd cmdarg) st st' c r h k e =
      let out = from_sem-some st st' r _ e in
      rw (← out.2)
        (semctl-Behind sem_memory (sem_ipc st) out.0 c.pid id semnum cmd cmdarg r h out.1)

  -- Of a tracee that is alone with its process id and does not wait, `Before` holds of all.
  pub All-Before :
      (c : Config) (l : List Config)
      → c.wait_state ≡ wstate_not_waiting
      → All (λ d. d.pid ≡ c.pid → d ≡ c) l
      → All IsConsistent l
      → All (Before c.pid) l
  All-Before c [] w a h = tt
  All-Before c (d ∷ l) w a h =
      ((h.0, (λ e. ap (λ (x : Config). x.wait_state) (a.0 e) ∙ w)), All-Before c l w a.1 h.1)

  pub syscall_common-IsConsistent :
      (from_sigsys : Bool) (call : Call) (st st' : State M) (c : Config) (reply : Reply)
      → IsOf c st.configs
      → c.wait_state ≡ wstate_not_waiting
      → All IsConsistent st.configs
      → syscall_common sem_memory memory time from_sigsys call st c ≡ some (reply, st')
      → All IsConsistent st'.configs
  unfolding syscall_common finish_call
  syscall_common-IsConsistent from_sigsys call st st' c reply o w h e =
      let before = All-Before c st.configs w o.alone h in
      let mine = get_config-All IsConsistent c.pid st.configs c h o.there in
      let idle : is_idle c.wait_state ≡ true = ap is_idle w in
      let handled =
        and_then-some (handle sem_memory memory time call st c) _ (reply, st')
          (rw (syscall_common, idle) at e) in
      let d = caller c (get_config c.pid handled.0.1.configs) in
      let replied =
        and_then-some (finish_reply from_sigsys (timeout_of call) handled.0.0 d.chain_state d) _
          (reply, st') handled.2 in
      let same : update_config c.pid (finish_config from_sigsys handled.0.0) handled.0.1.configs
          ≡ st'.configs =
        ap (λ (p : Option (Reply × State M)). elim p [ none ↦ [] | some q ↦ q.1.configs ])
          replied.2 in
      rw (← same) (
        update_config-IsConsistent (Behind c.pid) c.pid (finish_config from_sigsys handled.0.0)
          handled.0.1.configs
          (λ d q b.
            finish_by-IsConsistent from_sigsys handled.0.0 d.chain_state d (b.1 q).1 (b.1 q).0
              (b.1 q).1)
          (λ d q b. b.0 q)
          (handle-Behind call st handled.0.1 c handled.0.0 before (mine, (λ _. w)) handled.1))
