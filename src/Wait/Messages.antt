-- ===== src/Wait/Messages.antt =====
-- The handlers of the system calls on message queues keep the tracees consistent, but for the calling
-- one.
use proot.Prelude.{
  ℕ, ◌≡◌, refl, ap, ◌∙◌, inl, inr, List, [], ◌∷◌, Option, none, some, ◌==◌, arith, All, Bool-cases,
  Result, Result-cases,
}
use proot.Sysvipc.{
  ℤ, has_flag, ipc_nowait, Config, lookup_ipc_object, update_config, wake_all, without_ipc_64,
}
use proot.Msg.{Item, Queue, queue_object, Memory, Ipc, receives_on}
use proot.Msg.Receive.{bad_arguments, receive, receive_found, find_item, do_msgrcv, msgrcv}
use proot.Msg.Calls.{msgsnd, read_item, wake_receiver, msgctl, do_msgctl}
use proot.Msg.First.{asking}
use proot.Msg.Wakeup.{receives_on-is_waiting}
use proot.Wait.Wakes.{Before, Behind, Before-Behind, wake_all-Before, wake_receiver-Before}
use proot.Sysvipc.Wake.{and_then-some}
use proot.Wait.Handlers.{All-Behind}

-- The tracee and the state of its wait.
abbrev pub SameState : Config → Config → Type 0
SameState c d = (d.pid ≡ c.pid) × (d.wait_state ≡ c.wait_state) × (d.chain_state ≡ c.chain_state)

module _ {M : Type 0} (mem : Memory M) (time : ℕ) where
  found-SameState :
      (c : Config) (q : Queue) (i : ℕ) (o : Option Item) (m : M)
      → SameState c (receive_found mem time c q i o m).config
  unfolding receive_found
  found-SameState c q i none m = (refl, refl, refl)
  found-SameState c q i (some x) m = (refl, refl, refl)

  receive-SameState :
      (c : Config) (index : ℕ) (q : Queue) (o : Option ℕ) (m : M)
      → SameState c (receive mem time c index q o m).config
  unfolding receive
  receive-SameState c index q (some i) m = found-SameState c q i _ m
  receive-SameState c index q none m = elim (Bool-cases (has_flag c.msgrcv_msgflg ipc_nowait)) [
    | inl e ↦ rw e (refl, refl, refl)
    | inr e ↦ rw e (refl, refl, refl)
  ]

  pub do_msgrcv-SameState :
      (c : Config) (index : ℕ) (q : Queue) (m : M)
      → SameState c (do_msgrcv mem time c index q m).config
  unfolding do_msgrcv
  do_msgrcv-SameState c index q m = elim (Bool-cases (bad_arguments c)) [
    | inl e ↦ rw e (refl, refl, refl)
    | inr e ↦ rw e (receive-SameState c index q (find_item c q.items) m)
  ]

-- A configuration that replaces that of the calling tracee.
replaced-Behind :
    (me pid : ℕ) (x : Config) (l : List Config)
    → Behind me x
    → All (Behind me) l
    → All (Behind me) (update_config pid (λ _. x) l)
unfolding update_config
replaced-Behind me pid x [] b h = tt
replaced-Behind me pid x (c ∷ l) b h = elim (Bool-cases (c.pid == pid)) [
  | inl e ↦ rw e (b, replaced-Behind me pid x l b h.1)
  | inr e ↦ rw e (h.0, replaced-Behind me pid x l b h.1)
]

module _ {M : Type 0} (mem : Memory M) (ipc : Ipc M) (me : ℕ)
    (h : All (Before me) ipc.configs) where
  pub msgrcv-Behind :
      (time : ℕ) (c : Config) (id msgp msgsz : ℕ) (msgtyp : ℤ) (msgflg : ℕ)
      → c.pid ≡ me
      → Before me c
      → All (Behind me) (msgrcv mem time ipc c id msgp msgsz msgtyp msgflg).1.configs
  unfolding msgrcv
  msgrcv-Behind time c id msgp msgsz msgtyp msgflg e b =
      elim (Result-cases (lookup_ipc_object id ipc.queues)) [
        | inl (x, k) ↦ rw (msgrcv, k) (All-Behind me ipc.configs h)
        | inr ((i, q), k) ↦
            let d =
              (do_msgrcv mem time (asking c msgp msgsz msgtyp msgflg) i q ipc.memory).config in
            let same : SameState c d =
              do_msgrcv-SameState mem time (asking c msgp msgsz msgtyp msgflg) i q ipc.memory in
            let idle = (Before-Behind me c b).1 e in
            rw (msgrcv, k)
              (replaced-Behind me d.pid d ipc.configs
                ((λ n. absurd (n (same.0 ∙ e))), (λ _. (same.1 ∙ idle.0, same.2 ∙ idle.1)))
                (All-Behind me ipc.configs h))
      ]

  module _ (ipc' : Ipc M) (r : Result ℕ) where
    pub msgsnd-Behind :
        (time pid id msgp msgsz : ℕ)
        → msgsnd mem time ipc pid id msgp msgsz ≡ some (r, ipc')
        → All (Behind me) ipc'.configs
    unfolding msgsnd
    msgsnd-Behind time pid id msgp msgsz e = elim (Result-cases (lookup_ipc_object id ipc.queues)) [
      | inl (x, k) ↦
          let same : ipc ≡ ipc' = cc (rw (msgsnd, k) at e) in
          rw (← same) (All-Behind me ipc.configs h)
      | inr ((i, q), k) ↦ elim (Result-cases (read_item mem ipc.memory pid msgp msgsz)) [
        | inl (x, k') ↦
            let same : ipc ≡ ipc' = cc (rw (msgsnd, k, k') at e) in
            rw (← same) (All-Behind me ipc.configs h)
        | inr (item, k') ↦
            let one =
              and_then-some (wake_receiver i item ipc.configs) _ (r, ipc')
                (rw (msgsnd, k, k') at e) in
            let same : one.0 ≡ ipc'.configs =
              ap (λ (o : Option (Result ℕ × Ipc M)). elim o [ none ↦ [] | some p ↦ p.1.configs ])
                one.2 in
            rw (← same)
              (All-Behind me one.0 (wake_receiver-Before me i item ipc.configs one.0 h one.1))
      ]
    ]

    do_msgctl-Behind :
        (pid i : ℕ) (q : Queue) (command buf : ℕ)
        → do_msgctl mem ipc pid i q command buf ≡ some (r, ipc')
        → All (Behind me) ipc'.configs
    unfolding do_msgctl
    do_msgctl-Behind pid i q command buf e = elim (Bool-cases (command == 0)) [
      | inr z ↦
          let same : ipc.configs ≡ ipc'.configs = ground arith in
          rw (← same) (All-Behind me ipc.configs h)
      | inl z ↦
          let one =
            and_then-some (wake_all (receives_on i) ipc.configs) _ (r, ipc')
              (rw (do_msgctl, z) at e) in
          let same : one.0 ≡ ipc'.configs =
            ap (λ (o : Option (Result ℕ × Ipc M)). elim o [ none ↦ [] | some p ↦ p.1.configs ])
              one.2 in
          rw (← same) (
            All-Behind me one.0 (
              wake_all-Before me (receives_on i) ipc.configs one.0 (receives_on-is_waiting i) h
                one.1))
    ]

    pub msgctl-Behind :
        (pid id cmd buf : ℕ)
        → msgctl mem ipc pid id cmd buf ≡ some (r, ipc')
        → All (Behind me) ipc'.configs
    unfolding msgctl
    msgctl-Behind pid id cmd buf e = elim (Result-cases (lookup_ipc_object id ipc.queues)) [
      | inl (x, k) ↦
          let same : ipc ≡ ipc' = cc (rw (msgctl, k) at e) in
          rw (← same) (All-Behind me ipc.configs h)
      | inr ((i, q), k) ↦ do_msgctl-Behind pid i q (without_ipc_64 cmd) buf (rw (msgctl, k) at e)
    ]
