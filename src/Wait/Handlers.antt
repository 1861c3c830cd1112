-- ===== src/Wait/Handlers.antt =====
-- The handlers of the system calls keep the tracees consistent, but for the calling one, whose wait
-- begins behind them.
use proot.Prelude.{
  ℕ, ◌≡◌, ◌≢◌, refl, ap, sym, ◌∙◌, inl, inr, not, ◌&&◌, List, [], ◌∷◌, Option, none, some, ◌==◌,
  if◌then◌else◌, arith, All, Bool-cases, ==_iff, Result, ok, err, Result-cases,
}
use proot.Sysvipc.{
  Sembuf, Config, lookup_ipc_object, update_config, and_then, wake_all, wake_tracee,
}
use proot.Sem.Asserts.{retry_one_lem, do_semop_lem, finished}
use proot.Sem.{
  Semaphore, semaphore_object, Ipc, Memory, Check, waits_for_zero, waits_for_increase, fails, done,
  sem_check, settle, retry_one, retry_others, values_after, begin_semop, end_semop, do_semop, semop,
  semctl, do_semctl, Command, rmid, remove, waits_on, command_of,
}
use proot.Sem.Sound.{semop-cases}
use proot.Sem.Waiters.{waits_on-is_waiting}
use proot.Wait.Wakes.{
  IsConsistent, Before, Behind, Before-Behind, All-map, wake_tracee-IsConsistent, wake_all-Before,
}
use proot.Sysvipc.Wake.{and_then-some}

-- A change of the calling tracee that leaves the state of its wait.
abbrev pub LeavesState : (Config → Config) → Type 0
LeavesState f =
    (c : Config)
    → ((f c).pid ≡ c.pid) × ((f c).wait_state ≡ c.wait_state) × ((f c).chain_state ≡ c.chain_state)

pub update_config-Behind :
    (me : ℕ) (f : Config → Config) (l : List Config)
    → LeavesState f
    → All (Behind me) l
    → All (Behind me) (update_config me f l)
unfolding update_config
update_config-Behind me f [] leaves h = tt
update_config-Behind me f (c ∷ l) leaves h = (here, update_config-Behind me f l leaves h.1)
  where
    here : Behind me (if c.pid == me then f c else c)
    here = elim (Bool-cases (c.pid == me)) [
      | inl e ↦
          let same = (==_iff c.pid me).0 e in
          let idle = h.0.1 same in
          rw e (
            (λ n. absurd (n ((leaves c).0 ∙ same))),
            (λ _. ((leaves c).1 ∙ idle.0, (leaves c).2 ∙ idle.1)),
          )
      | inr e ↦ rw e h.0
    ]

woken_Behind :
    (me : ℕ) (c : Config) (sems : List ℕ) (status : Result ℕ) (p : Config × List ℕ)
    → c.pid ≢ me
    → IsConsistent c
    → and_then (wake_tracee (record c { semop_sops = [] }) status) (λ d. some (d, sems)) ≡ some p
    → Behind me p.0
woken_Behind me c sems status p n h e =
    let one = and_then-some (wake_tracee (record c { semop_sops = [] }) status) _ p e in
    let woken =
      wake_tracee-IsConsistent (record c { semop_sops = [] }) one.0 status h.simple one.1 in
    let same : one.0 ≡ p.0 = cc (one.2) in
    rw (← same) ((λ _. woken.0), (λ k. absurd (n (sym woken.1 ∙ k))))

-- Settling one of the other tracees.
settle-Behind :
    (me : ℕ) (c : Config) (sems : List ℕ) (k : Check) (p : Config × List ℕ)
    → c.pid ≢ me
    → Behind me c
    → settle c sems k ≡ some p
    → Behind me p.0
unfolding settle
settle-Behind me c sems waits_for_zero p n h e = let same : c ≡ p.0 = cc (e) in rw (← same) h
settle-Behind me c sems waits_for_increase p n h e = let same : c ≡ p.0 = cc (e) in rw (← same) h
settle-Behind me c sems (fails x) p n h e = woken_Behind me c sems (err x) p n (h.0 n) e
settle-Behind me c sems (done new) p n h e = woken_Behind me c new (ok 0) p n (h.0 n) e

retry_one-Behind :
    (me index : ℕ) (c : Config) (sems : List ℕ) (p : Config × List ℕ)
    → Behind me c
    → retry_one me index c sems ≡ some p
    → Behind me p.0
retry_one-Behind me index c sems p h e = elim (Bool-cases (not (c.pid == me) && waits_on index c)) [
  | inl w ↦
      settle-Behind me c sems (sem_check c.semop_sops sems) p (λ k. ground arith) h
        (rw (retry_one_lem me index c sems, w) at e)
  | inr w ↦ let same : c ≡ p.0 = cc (rw (retry_one_lem me index c sems, w) at e) in rw (← same) h
]

retry_others-Behind :
    (me index : ℕ) (l : List Config) (sems : List ℕ) (p : List Config × List ℕ)
    → All (Behind me) l
    → retry_others me index l sems ≡ some p
    → All (Behind me) p.0
unfolding retry_others
retry_others-Behind me index [] sems p h e = let same : [] ≡ p.0 = cc (e) in rw (← same) tt
retry_others-Behind me index (c ∷ l) sems p h e =
    let one = and_then-some (retry_one me index c sems) _ p e in
    let rest = and_then-some (retry_others me index l one.0.1) _ p one.2 in
    let same : one.0.0 ∷ rest.0.0 ≡ p.0 = cc (rest.2) in
    rw (← same) (
      retry_one-Behind me index c sems one.0 h.0 one.1,
      retry_others-Behind me index l one.0.1 rest.0 h.1 rest.1,
    )

finished-Behind :
    (me : ℕ) (k : Check) (l : List Config) → All (Behind me) l → All (Behind me) (finished me k l).1
finished-Behind me waits_for_zero l h = h
finished-Behind me waits_for_increase l h = h
finished-Behind me (fails e) l h = update_config-Behind me end_semop l (λ c. (refl, refl, refl)) h
finished-Behind me (done new) l h = update_config-Behind me end_semop l (λ c. (refl, refl, refl)) h

do_semop-Behind :
    (ipc ipc' : Ipc) (me i : ℕ) (s : Semaphore) (sops : List Sembuf) (r : Result ℕ)
    → All (Behind me) ipc.configs
    → do_semop ipc me i s sops ≡ some (r, ipc')
    → All (Behind me) ipc'.configs
do_semop-Behind ipc ipc' me i s sops r h e =
    let this = sem_check sops s.sems in
    let began = update_config me (begin_semop i sops) ipc.configs in
    let one =
      and_then-some (retry_others me i began (values_after this s.sems)) _ (r, ipc')
        (sym (do_semop_lem ipc me i s sops) ∙ e) in
    let same : (finished me this one.0.0).1 ≡ ipc'.configs =
      ap (λ (o : Option (Result ℕ × Ipc)). elim o [ none ↦ [] | some p ↦ p.1.configs ]) one.2 in
    rw (← same) (
      finished-Behind me this one.0.0 (
        retry_others-Behind me i began (values_after this s.sems) one.0
          (update_config-Behind me (begin_semop i sops) ipc.configs (λ c. (refl, refl, refl)) h)
          one.1))

pub All-Behind : (me : ℕ) (l : List Config) → All (Before me) l → All (Behind me) l
All-Behind me l h = All-map (Before me) (Behind me) l (Before-Behind me) h

pub semop-Behind :
    (ipc ipc' : Ipc) (me id nsops : ℕ) (sops : Result (List Sembuf)) (r : Result ℕ)
    → All (Before me) ipc.configs
    → semop ipc me id nsops sops ≡ some (r, ipc')
    → All (Behind me) ipc'.configs
semop-Behind ipc ipc' me id nsops sops r h e = elim (semop-cases ipc ipc' me id nsops sops r e) [
  | inl k ↦ rw (← k) (All-Behind me ipc.configs h)
  | inr (i, s, l, k, k') ↦ do_semop-Behind ipc ipc' me i s l r (All-Behind me ipc.configs h) k'
]

remove-Before :
    (ipc ipc' : Ipc) (me i : ℕ) (s : Semaphore) (r : Result ℕ)
    → All (Before me) ipc.configs
    → remove ipc i s ≡ some (r, ipc')
    → All (Before me) ipc'.configs
unfolding remove
remove-Before ipc ipc' me i s r h e =
    let one = and_then-some (wake_all (waits_on i) ipc.configs) _ (r, ipc') e in
    let same : one.0 ≡ ipc'.configs =
      ap (λ (o : Option (Result ℕ × Ipc)). elim o [ none ↦ [] | some p ↦ p.1.configs ]) one.2 in
    rw (← same) (wake_all-Before me (waits_on i) ipc.configs one.0 (waits_on-is_waiting i) h one.1)

do_semctl-Before :
    (m : Memory) (ipc ipc' : Ipc) (me i : ℕ) (s : Semaphore) (semnum cmdarg : ℕ) (c : Command)
    (r : Result ℕ)
    → All (Before me) ipc.configs
    → do_semctl m ipc i s semnum cmdarg c ≡ some (r, ipc')
    → All (Before me) ipc'.configs
unfolding do_semctl
do_semctl-Before m ipc ipc' me i s semnum cmdarg rmid r h e = remove-Before ipc ipc' me i s r h e
do_semctl-Before m ipc ipc' me i s semnum cmdarg _ r h e =
    let same : ipc'.configs ≡ ipc.configs = ground arith in rw same h

pub semctl-Behind :
    (m : Memory) (ipc ipc' : Ipc) (me id semnum cmd cmdarg : ℕ) (r : Result ℕ)
    → All (Before me) ipc.configs
    → semctl m ipc id semnum cmd cmdarg ≡ some (r, ipc')
    → All (Behind me) ipc'.configs
unfolding semctl
semctl-Behind m ipc ipc' me id semnum cmd cmdarg r h e =
    All-Behind me ipc'.configs (elim (Result-cases (lookup_ipc_object id ipc.semaphores)) [
      | inl (x, k) ↦ let same : ipc ≡ ipc' = cc (rw (semctl, k) at e) in rw (← same) h
      | inr ((i, s), k) ↦
          do_semctl-Before m ipc ipc' me i s semnum cmdarg (command_of cmd) r h
            (rw (semctl, k) at e)
    ])
