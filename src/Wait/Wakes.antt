-- ===== src/Wait/Wakes.antt =====
-- The invariant of the tracees that wait, and what waking keeps of it.
use proot.Prelude.{
  ℕ, ◌≡◌, ◌≢◌, refl, ap, sym, ◌∙◌, ◌⊎◌, inl, inr, Bool, true, false, List, [], ◌∷◌, some, ◌&&◌,
  if◌then◌else◌, arith, All, Bool-cases, Result, err, eagain, eidrm,
}
use proot.Sysvipc.{
  Config, WaitReason, wait_semop, not_waiting, WaitState, wstate_not_waiting,
  restarted_into_ppoll_canceled, restarted_into_ppoll, entered_ppoll, signaled_ppoll,
  entered_getpid, ChainState, not_chained, single, shmat_socket, shmat_connect, shmat_recvmsg,
  shmat_mmap, msgrcv_retry_state, wake_tracee, wake_all,
}
use proot.Sysvipc.Wake.{and_then-some, is_waiting, CanWake}
use proot.Msg.{Item, receives_on}
use proot.Msg.Receive.{is_not_waiting, is_retry, takes}
use proot.Wait.{give_up_by}
use proot.Msg.Calls.{wake_receiver}
use proot.Msg.Wakeup.{receives_on-is_waiting}

-- The tracee is in ppoll(2), or will be.
abbrev pub polls : WaitState → Bool
polls entered_ppoll = true
polls restarted_into_ppoll = true
polls _ = false

abbrev pub was_woken : WaitState → Bool
was_woken signaled_ppoll = true
was_woken restarted_into_ppoll_canceled = true
was_woken _ = false

-- No chain of shared memory is under way.
abbrev pub is_simple : ChainState → Bool
is_simple not_chained = true
is_simple msgrcv_retry_state = true
is_simple _ = false

-- Between two events: a tracee has a reason to wait exactly while it is in ppoll(2), or about to be,
-- and is to try msgrcv(2) again only once it has been woken.
pub record IsConsistent (c : Config) : Type 0 where
  pub waits : is_waiting c.wait_reason ≡ polls c.wait_state
  pub retries : is_retry c.chain_state ≡ true → was_woken c.wait_state ≡ true
  pub simple : is_simple c.chain_state ≡ true

polls-cases : (s : WaitState) → polls s ≡ true → (s ≡ entered_ppoll) ⊎ (s ≡ restarted_into_ppoll)
polls-cases entered_ppoll h = inl refl
polls-cases restarted_into_ppoll h = inr refl
polls-cases wstate_not_waiting h = cc (h)
polls-cases restarted_into_ppoll_canceled h = cc (h)
polls-cases signaled_ppoll h = cc (h)
polls-cases entered_getpid h = cc (h)

pub IsConsistent-CanWake : (c : Config) → IsConsistent c → CanWake c
IsConsistent-CanWake c h w = polls-cases c.wait_state (sym h.waits ∙ w)

was_woken-polls : (s : WaitState) → was_woken s ≡ true → polls s ≡ false
was_woken-polls signaled_ppoll h = refl
was_woken-polls restarted_into_ppoll_canceled h = refl
was_woken-polls wstate_not_waiting h = refl
was_woken-polls restarted_into_ppoll h = cc (h)
was_woken-polls entered_ppoll h = cc (h)
was_woken-polls entered_getpid h = refl

wake_tracee_facts :
    (c d : Config) (status : Result ℕ)
    → wake_tracee c status ≡ some d
    → (d.wait_reason ≡ not_waiting)
      × (was_woken d.wait_state ≡ true)
      × (d.chain_state ≡ c.chain_state)
      × (d.pid ≡ c.pid)
unfolding wake_tracee
wake_tracee_facts c d status h = ground arith

-- Whatever is woken is consistent behind it.
pub wake_tracee-IsConsistent :
    (c d : Config) (status : Result ℕ)
    → is_simple c.chain_state ≡ true
    → wake_tracee c status ≡ some d
    → IsConsistent d × (d.pid ≡ c.pid)
wake_tracee-IsConsistent c d status s h =
    let facts = wake_tracee_facts c d status h in
    (
      record {
        waits = ap is_waiting facts.0 ∙ sym (was_woken-polls d.wait_state facts.1);
        retries = λ _. facts.1;
        simple = ap is_simple facts.2 ∙ s;
      },
      facts.3,
    )

-- Before the handler of a system call of the tracee `me`, and behind it: the others are consistent,
-- and `me` does not wait yet.
abbrev pub Before : ℕ → Config → Type 0
Before me c = IsConsistent c × (c.pid ≡ me → c.wait_state ≡ wstate_not_waiting)

abbrev pub Behind : ℕ → Config → Type 0
Behind me c =
    (c.pid ≢ me → IsConsistent c)
    × (c.pid ≡ me → (c.wait_state ≡ wstate_not_waiting) × (c.chain_state ≡ not_chained))

pub simple-not_retry : (s : ChainState) → is_simple s ≡ true → is_retry s ≡ false → s ≡ not_chained
simple-not_retry not_chained h r = refl
simple-not_retry msgrcv_retry_state h r = cc (r)
simple-not_retry single h r = cc (h)
simple-not_retry shmat_socket h r = cc (h)
simple-not_retry shmat_connect h r = cc (h)
simple-not_retry shmat_recvmsg h r = cc (h)
simple-not_retry shmat_mmap h r = cc (h)

pub idle-not_chained :
    (c : Config) → IsConsistent c → c.wait_state ≡ wstate_not_waiting → c.chain_state ≡ not_chained
idle-not_chained c h e = elim (Bool-cases (is_retry c.chain_state)) [
  | inl r ↦ let w = h.retries r in cc (ap was_woken e, w)
  | inr r ↦ simple-not_retry c.chain_state h.simple r
]

pub Before-Behind : (me : ℕ) (c : Config) → Before me c → Behind me c
Before-Behind me c h = ((λ _. h.0), (λ e. (h.1 e, idle-not_chained c h.0 (h.1 e))))

pub All-map {ℓ κ λ'} :
    {A : Type ℓ} (P : A → Type κ) (Q : A → Type λ') (l : List A)
    → ((a : A) → P a → Q a)
    → All P l
    → All Q l
All-map P Q [] f h = tt
All-map P Q (a ∷ l) f h = (f a h.0, All-map P Q l f h.1)

-- One that waits is not the tracee that calls.
waiting-other : (me : ℕ) (c : Config) → Before me c → is_waiting c.wait_reason ≡ true → c.pid ≢ me
waiting-other me c h w e = let s = ap polls (h.1 e) in cc (h.0.waits, w, s)

-- Behind waking one: `Before` holds of it.
-- A tracee that gives up waits no longer.
pub gave_up : (r : WaitReason) (c : Config) → is_not_waiting (give_up_by r c).wait_reason ≡ true
unfolding give_up_by
gave_up wait_semop c = refl
gave_up _ c = refl

woken-Before : (me : ℕ) (c d : Config) → c.pid ≢ me → IsConsistent d → d.pid ≡ c.pid → Before me d
woken-Before me c d n h e = (h, (λ k. absurd (n (sym e ∙ k))))

-- What a chain of results that may be missing says of its parts.
woken_one :
    (me : ℕ) (c d : Config) (status : Result ℕ)
    → Before me c
    → is_waiting c.wait_reason ≡ true
    → wake_tracee c status ≡ some d
    → Before me d
woken_one me c d status h w e =
    let woken = wake_tracee-IsConsistent c d status h.0.simple e in
    woken-Before me c d (waiting-other me c h w) woken.0 woken.1

pub wake_all-Before :
    (me : ℕ) (waits : Config → Bool) (l m : List Config)
    → ((c : Config) → waits c ≡ true → is_waiting c.wait_reason ≡ true)
    → All (Before me) l
    → wake_all waits l ≡ some m
    → All (Before me) m
unfolding wake_all
wake_all-Before me waits [] m f h e = let same : [] ≡ m = cc (e) in rw (← same) tt
wake_all-Before me waits (c ∷ l) m f h e =
    let one = and_then-some _ _ m e in
    let rest = and_then-some (wake_all waits l) _ m one.2 in
    let same : one.0 ∷ rest.0 ≡ m = cc (rest.2) in
    rw (← same) (first one.0 one.1, wake_all-Before me waits l rest.0 f h.1 rest.1)
  where
    first :
        (d : Config)
        → (if waits c then wake_tracee c (err eidrm) else some c) ≡ some d
        → Before me d
    first d k = elim (Bool-cases (waits c)) [
      | inl w ↦ woken_one me c d (err eidrm) h.0 (f c w) (rw w at k)
      | inr w ↦ let same : c ≡ d = cc (rw w at k) in rw (← same) h.0
    ]

pub wake_receiver-Before :
    (me index : ℕ) (item : Item) (l m : List Config)
    → All (Before me) l
    → wake_receiver index item l ≡ some m
    → All (Before me) m
unfolding wake_receiver
wake_receiver-Before me index item [] m h e = let same : [] ≡ m = cc (e) in rw (← same) tt
wake_receiver-Before me index item (c ∷ l) m h e =
    elim (Bool-cases (receives_on index c && takes c item)) [
      | inl w ↦
          let asked = record c { chain_state = msgrcv_retry_state } in
          let one =
            and_then-some (wake_tracee asked (err eagain)) (λ d. some (d ∷ l)) m (rw w at e) in
          let same : one.0 ∷ l ≡ m = cc (one.2) in
          let woken = wake_tracee-IsConsistent asked one.0 (err eagain) refl one.1 in
          let other = waiting-other me c h.0 (receives_on-is_waiting index c (ground arith)) in
          rw (← same) (woken-Before me c one.0 other woken.0 woken.1, h.1)
      | inr w ↦
          let rest = and_then-some (wake_receiver index item l) (λ n. some (c ∷ n)) m (rw w at e) in
          let same : c ∷ rest.0 ≡ m = cc (rest.2) in
          rw (← same) (h.0, wake_receiver-Before me index item l rest.0 h.1 rest.1)
    ]
