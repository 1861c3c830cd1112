-- ===== src/Wait/Reach.antt =====
-- Sequences of events: no tracee is left waiting without a reason, or with one outside of ppoll(2).
use proot.Prelude.{
  true, false, ℕ, ◌≡◌, refl, ap, sym, ◌∙◌, inl, inr, Bool, false, not, List, [], ◌∷◌, Option, none,
  some, All, Bool-cases, Result,
}
use mathlib.Core.Path.{subst}
use proot.Sysvipc.{
  Config, WaitReason, not_waiting, wait_semop, wait_queue_recv, wait_shmat_helper_busy, WaitState,
  wstate_not_waiting, restarted_into_ppoll, restarted_into_ppoll_canceled, entered_ppoll,
  signaled_ppoll, entered_getpid, not_chained, update_config,
}
use proot.Sysvipc.Wake.{is_waiting}
use proot.Sem.{Memory as SemMemory}
use proot.Msg.{Memory as MsgMemory}
use proot.Msg.Receive.{is_retry, is_not_waiting, msgrcv_retry}
use proot.Wait.{
  enter_by, exit_by, give_up_by, interrupted, State, Call, msg_ipc, syscall_common, stop_waiting,
  give_up, wait_over, enter_start, exit_start, Reply,
}
use proot.Wait.Wakes.{gave_up, simple-not_retry, IsConsistent, polls, was_woken}
use proot.Sysvipc.Wake.{and_then-some}
use proot.Wait.Dispatch.{
  IsOf, get_config-All, update_config-IsConsistent, is_waiting-not, not_chained-IsConsistent,
  syscall_common-IsConsistent,
}
use proot.Wait.Events.{stop_waiting-IsConsistent, All-Rested, msgrcv_retry-Rested}

not_retry-not_chained :
    (c : Config) → IsConsistent c → is_retry c.chain_state ≡ false → c.chain_state ≡ not_chained
not_retry-not_chained c h r = simple-not_retry c.chain_state h.simple r

entered-not_retry :
    (c : Config) → IsConsistent c → c.wait_state ≡ entered_ppoll → is_retry c.chain_state ≡ false
entered-not_retry c h w = elim (Bool-cases (is_retry c.chain_state)) [
  | inl r ↦ let z = h.retries r in cc (ap was_woken w, z)
  | inr r ↦ r
]

module _ {M : Type 0} (memory : MsgMemory M) (time : ℕ) (st st' : State M) (c : Config)
    (mine : IsConsistent c) (alone : All (λ d. d.pid ≡ c.pid → d ≡ c) st.configs)
    (h : All IsConsistent st.configs) where
  wait_over-IsConsistent :
      (sem_memory : SemMemory) (r : Result ℕ)
      → is_waiting c.wait_reason ≡ false
      → wait_over sem_memory memory time st c ≡ some (r, st')
      → All IsConsistent st'.configs
  unfolding wait_over
  wait_over-IsConsistent sem_memory r w e = elim (Bool-cases (is_retry c.chain_state)) [
    | inl k ↦
        let out =
          and_then-some (msgrcv_retry memory time (msg_ipc st) (stop_waiting c)) _ (r, st')
            (rw (wait_over, k) at e) in
        let same : update_config c.pid stop_waiting out.0.1.configs ≡ st'.configs =
          ap (λ (o : Option (Result ℕ × State M)). elim o [ none ↦ [] | some p ↦ p.1.configs ])
            out.2 in
        rw (← same) (
          stop_waiting-IsConsistent c.pid out.0.1.configs
            (msgrcv_retry-Rested memory time (msg_ipc st) out.0.1 c alone h out.0.0 w k out.1))
    | inr k ↦
        let e' : some (
          c.status_after_wait,
          record st { configs = update_config c.pid stop_waiting st.configs },
        )
            ≡ some (r, st') =
          simp (wait_over, k) at e in
        let same : update_config c.pid stop_waiting st.configs ≡ st'.configs =
          ap (λ (o : Option (Result ℕ × State M)). elim o [ none ↦ [] | some p ↦ p.1.configs ])
            e' in
        rw (← same) (
          stop_waiting-IsConsistent c.pid st.configs
            (All-Rested c st.configs w (not_retry-not_chained c mine k) alone h))
  ]

module _ {M : Type 0} (memory : MsgMemory M) (time : ℕ) (st st' : State M) (c : Config)
    (mine : IsConsistent c) (alone : All (λ d. d.pid ≡ c.pid → d ≡ c) st.configs)
    (h : All IsConsistent st.configs) where
  -- A change of the tracee `c` alone.
  changed-IsConsistent :
      (f : Config → Config)
      → IsConsistent (f c)
      → All IsConsistent (update_config c.pid f st.configs)
  changed-IsConsistent f k =
      update_config-IsConsistent (λ d. IsConsistent d × (d.pid ≡ c.pid → d ≡ c)) c.pid f st.configs
        (λ d e q. subst (λ x. IsConsistent (f x)) (sym (q.1 e)) k) (λ d n q. q.0)
        (both st.configs h alone)
    where
      both :
          (l : List Config)
          → All IsConsistent l
          → All (λ d. d.pid ≡ c.pid → d ≡ c) l
          → All (λ d. IsConsistent d × (d.pid ≡ c.pid → d ≡ c)) l
      both [] a b = tt
      both (d ∷ l) a b = ((a.0, b.0), both l a.1 b.1)

  enter_by-IsConsistent :
      (sem_memory : SemMemory) (in_ppoll : Bool) (s : WaitState) (reply : Reply)
      → c.wait_state ≡ s
      → enter_by sem_memory memory time in_ppoll s st c ≡ some (reply, st')
      → All IsConsistent st'.configs
  unfolding enter_by
  enter_by-IsConsistent sem_memory false restarted_into_ppoll reply w e = cc (e)
  enter_by-IsConsistent sem_memory true restarted_into_ppoll reply w e =
      let same : update_config c.pid (λ d. record d { wait_state = entered_ppoll }) st.configs
          ≡ st'.configs =
        ap (λ (o : Option (Reply × State M)). elim o [ none ↦ [] | some p ↦ p.1.configs ]) e in
      rw (← same) (
        changed-IsConsistent (λ d. record d { wait_state = entered_ppoll })
          (record {
            waits = mine.waits ∙ ap polls w;
            retries = λ r. let k = mine.retries r in cc (ap was_woken w, k);
            simple = mine.simple;
          }))
  enter_by-IsConsistent sem_memory in_ppoll restarted_into_ppoll_canceled reply w e =
      let out = and_then-some (wait_over sem_memory memory time st c) _ (reply, st') e in
      let same : out.0.1 ≡ st' = cc (out.2) in
      rw (← same) (
        wait_over-IsConsistent memory time st out.0.1 c mine alone h sem_memory out.0.0
          (mine.waits ∙ ap polls w) out.1)
  enter_by-IsConsistent sem_memory in_ppoll _ reply w e = cc (e)

  give_up_by-IsConsistent :
      (r : WaitReason) → c.chain_state ≡ not_chained → IsConsistent (give_up_by r c)
  unfolding give_up_by
  give_up_by-IsConsistent wait_semop n = not_chained-IsConsistent _ n refl
  give_up_by-IsConsistent not_waiting n = not_chained-IsConsistent _ n refl
  give_up_by-IsConsistent wait_queue_recv n = not_chained-IsConsistent _ n refl
  give_up_by-IsConsistent wait_shmat_helper_busy n = not_chained-IsConsistent _ n refl

  over-IsConsistent :
      (sem_memory : SemMemory) (kept : Bool) (reply : Reply)
      → exit_by sem_memory memory time kept signaled_ppoll st c ≡ some (reply, st')
      → All IsConsistent st'.configs
  unfolding exit_by
  over-IsConsistent sem_memory kept reply e = elim (Bool-cases (is_not_waiting c.wait_reason)) [
    | inr k ↦ cc (rw k at e)
    | inl k ↦
        let out =
          and_then-some (wait_over sem_memory memory time st c) _ (reply, st') (rw k at e) in
        let same : out.0.1 ≡ st' = cc (out.2) in
        rw (← same) (
          wait_over-IsConsistent memory time st out.0.1 c mine alone h sem_memory out.0.0
            (is_waiting-not c.wait_reason ∙ ap not k) out.1)
  ]

  exit_by-IsConsistent :
      (sem_memory : SemMemory) (kept : Bool) (s : WaitState) (reply : Reply)
      → c.wait_state ≡ s
      → exit_by sem_memory memory time kept s st c ≡ some (reply, st')
      → All IsConsistent st'.configs
  unfolding exit_by
  exit_by-IsConsistent sem_memory kept wstate_not_waiting reply w e =
      let same : st ≡ st' = cc (e) in rw (← same) h
  exit_by-IsConsistent sem_memory kept entered_ppoll reply w e =
      elim (Bool-cases (is_not_waiting c.wait_reason)) [
        | inl k ↦ cc (rw k at e)
        | inr k ↦
            let e' : some
                  (interrupted kept, record st { configs = update_config c.pid give_up st.configs })
                ≡ some (reply, st') =
              rw (k, gave_up c.wait_reason c) at e in
            let same : update_config c.pid give_up st.configs ≡ st'.configs =
              ap (λ (o : Option (Reply × State M)). elim o [ none ↦ [] | some p ↦ p.1.configs ])
                e' in
            rw (← same) (
              changed-IsConsistent give_up (
                give_up_by-IsConsistent c.wait_reason
                  (not_retry-not_chained c mine (entered-not_retry c mine w))))
      ]
  exit_by-IsConsistent sem_memory kept signaled_ppoll reply w e =
      over-IsConsistent sem_memory kept reply e
  exit_by-IsConsistent sem_memory kept entered_getpid reply w e =
      over-IsConsistent sem_memory kept reply e
  exit_by-IsConsistent sem_memory kept _ reply w e = cc (e)

-- The events that PRoot sees, for a tracee of the name-space: a system call at its entry or by
-- SIGSYS while it does not wait, another entry or an exit. What the tracees do to their memory in
-- between is a step too.
pub data Step {M : Type 0} (sem_memory : SemMemory) (memory : MsgMemory M)
    : State M → State M → Type 0 where
  syscall :
      (st st' : State M) (time : ℕ) (from_sigsys : Bool) (call : Call) (c : Config) (reply : Reply)
      → IsOf c st.configs
      → c.wait_state ≡ wstate_not_waiting
      → syscall_common sem_memory memory time from_sigsys call st c ≡ some (reply, st')
      → Step sem_memory memory st st'
  enter :
      (st st' : State M) (time : ℕ) (in_ppoll : Bool) (c : Config) (reply : Reply)
      → IsOf c st.configs
      → enter_start sem_memory memory time in_ppoll st c ≡ some (reply, st')
      → Step sem_memory memory st st'
  exit :
      (st st' : State M) (time : ℕ) (kept : Bool) (c : Config) (reply : Reply)
      → IsOf c st.configs
      → exit_start sem_memory memory time kept st c ≡ some (reply, st')
      → Step sem_memory memory st st'
  run : (st : State M) (m : M) → Step sem_memory memory st (record st { memory = m })

pub data Reach {M : Type 0} (sem_memory : SemMemory) (memory : MsgMemory M) (st : State M)
    : State M → Type 0 where
  here : Reach sem_memory memory st st
  next :
      {st' st'' : State M}
      → Reach sem_memory memory st st'
      → Step sem_memory memory st' st''
      → Reach sem_memory memory st st''

Step-IsConsistent :
    {M : Type 0} (sem_memory : SemMemory) (memory : MsgMemory M) {st st' : State M}
    → Step sem_memory memory st st'
    → All IsConsistent st.configs
    → All IsConsistent st'.configs
Step-IsConsistent sem_memory memory (syscall st st' time b call c reply o w e) h =
    syscall_common-IsConsistent sem_memory memory time b call st st' c reply o w h e
Step-IsConsistent sem_memory memory (enter st st' time in_ppoll c reply o e) h =
    enter_by-IsConsistent memory time st st' c
      (get_config-All IsConsistent c.pid st.configs c h o.there) o.alone h sem_memory in_ppoll
      c.wait_state reply refl e
Step-IsConsistent sem_memory memory (exit st st' time kept c reply o e) h =
    exit_by-IsConsistent memory time st st' c
      (get_config-All IsConsistent c.pid st.configs c h o.there) o.alone h sem_memory kept
      c.wait_state reply refl e
Step-IsConsistent sem_memory memory (run st m) h = h

-- From a state in which all tracees are consistent, and with the tracee of each event alone with its
-- process id: after any sequence of system calls, entries and exits that fail no assertion, a tracee
-- has a reason to wait exactly while it is in ppoll(2) or about to be, and is to try msgrcv(2)
-- again only once it has been woken.
pub Reach-IsConsistent :
    {M : Type 0} (sem_memory : SemMemory) (memory : MsgMemory M) {st st' : State M}
    → All IsConsistent st.configs
    → Reach sem_memory memory st st'
    → All IsConsistent st'.configs
Reach-IsConsistent sem_memory memory h here = h
Reach-IsConsistent sem_memory memory h (next r s) =
    Step-IsConsistent sem_memory memory s (Reach-IsConsistent sem_memory memory h r)
