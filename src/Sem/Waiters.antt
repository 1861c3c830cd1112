-- ===== src/Sem/Waiters.antt =====
-- The tracees that wait for a semaphore: no assertion fails when they are woken, IPC_RMID wakes all
-- of them, and SETVAL none.
use proot.Prelude.{
  ℕ, ◌+◌, ◌%◌, ◌^◌, ◌≡◌, ◌≢◌, refl, ◌∙◌, inl, inr, Bool, true, false, List, [], ◌∷◌, Option, some,
  set, ◌==◌, if◌then◌else◌, arith, All, Bool-cases, Result, ok, err, ltb, not, ◌&&◌, einval, e2big,
  efbig,
}
use proot.Prelude.{==_iff}
use proot.Sysvipc.Wake.{CanWake, AllTwo, Removed, is_waiting, wake_tracee-Woken, wake_all-Removed}
use proot.Sysvipc.Lookup.{lookup_ok, lookup-set_invalid}
use proot.Sem.Asserts.{retry_one_lem, do_semop_lem}
use proot.Sem.{
  semaphore_object, Semaphore, Ipc, Check, waits_for_zero, waits_for_increase, fails, done,
  sem_check, settle, retry_one, retry_others, do_semop, semop, is_semop, waits_on, begin_semop,
  remove, semctl, do_semctl, command_of, Memory, rmid, setval, max_nsops, values_after, all_below,
}
use proot.Sysvipc.{
  WaitReason, not_waiting, wait_queue_recv, wait_semop, wait_shmat_helper_busy, Sembuf, Config,
  update_config, lookup_ipc_object,
}

is_semop-is_waiting : (r : WaitReason) → is_semop r ≡ true → is_waiting r ≡ true
is_semop-is_waiting wait_semop h = refl
is_semop-is_waiting not_waiting h = cc (h)
is_semop-is_waiting wait_queue_recv h = refl
is_semop-is_waiting wait_shmat_helper_busy h = refl

pub waits_on-is_waiting :
    (index : ℕ) (c : Config) → waits_on index c ≡ true → is_waiting c.wait_reason ≡ true
waits_on-is_waiting index c h = is_semop-is_waiting c.wait_reason (ground arith)

-- IPC_RMID on an id that the look-up finds: it succeeds, every tracee that waited for the semaphore
-- is woken with EIDRM, no other is touched, and the id is not found any more.
pub semctl-rmid :
    (m : Memory) (ipc : Ipc) (id semnum cmd cmdarg i : ℕ) (s : Semaphore)
    → lookup_ipc_object id ipc.semaphores ≡ ok (i, s)
    → command_of cmd ≡ rmid
    → All CanWake ipc.configs
    → (ipc' : Ipc) × (semctl m ipc id semnum cmd cmdarg ≡ some (ok 0, ipc'))
      × AllTwo (Removed (waits_on i)) ipc.configs ipc'.configs
      × (lookup_ipc_object id ipc'.semaphores ≡ err einval)
unfolding semctl do_semctl remove
semctl-rmid m ipc id semnum cmd cmdarg i s h c w =
    let woken = wake_all-Removed (waits_on i) ipc.configs (waits_on-is_waiting i) w in
    let facts = lookup_ok id ipc.semaphores i s h in
    let gone = record s { valid = false; generation = (s.generation + 1) % 2 ^ 16; sems = [] } in
    (
      record { semaphores = set ipc.semaphores i gone; configs = woken.0 },
      rw (semctl, h, c, woken.1),
      woken.2,
      lookup-set_invalid id ipc.semaphores i gone facts.1 facts.2 refl,
    )

-- SETVAL leaves every tracee as it was: one that waits for the semaphore goes on waiting, also where
-- the new value lets all its operations through.
pub semctl-setval_wakes_none :
    (m : Memory) (ipc ipc' : Ipc) (r : Result ℕ) (id semnum cmd cmdarg : ℕ)
    → command_of cmd ≡ setval
    → semctl m ipc id semnum cmd cmdarg ≡ some (r, ipc')
    → ipc'.configs ≡ ipc.configs
unfolding semctl
semctl-setval_wakes_none m ipc ipc' r id semnum cmd cmdarg c h =
    go (lookup_ipc_object id ipc.semaphores) h
  where
    inner :
        (i : ℕ) (s : Semaphore)
        → do_semctl m ipc i s semnum cmdarg setval ≡ some (r, ipc')
        → ipc'.configs ≡ ipc.configs
    inner i s k = unfold do_semctl in ground arith

    go :
        (q : Result (ℕ × Semaphore))
        → (elim q [
          | err e ↦ some (err e, ipc)
          | ok (index, s) ↦ do_semctl m ipc index s semnum cmdarg (command_of cmd)
        ])
          ≡ some (r, ipc')
        → ipc'.configs ≡ ipc.configs
    go (err e) k = ground arith
    go (ok (i, s)) k = inner i s (rw c at k)

-- The settling of one tracee fails no assertion.
settle-some :
    (c : Config) (sems : List ℕ) (k : Check)
    → is_waiting c.wait_reason ≡ true
    → CanWake c
    → (p : Config × List ℕ) × (settle c sems k ≡ some p)
unfolding settle
settle-some c sems waits_for_zero s w = ((c, sems), refl)
settle-some c sems waits_for_increase s w = ((c, sems), refl)
settle-some c sems (fails e) s w =
    let d = wake_tracee-Woken (record c { semop_sops = [] }) (err e) s w in
    ((d.0, sems), rw (d.1, settle))
settle-some c sems (done new) s w =
    let d = wake_tracee-Woken (record c { semop_sops = [] }) (ok 0) s w in
    ((d.0, new), rw (d.1, settle))

retry_one-some :
    (me index : ℕ) (c : Config) (sems : List ℕ)
    → (c.pid ≢ me → CanWake c)
    → (p : Config × List ℕ) × (retry_one me index c sems ≡ some p)
retry_one-some me index c sems w = elim (Bool-cases (not (c.pid == me) && waits_on index c)) [
  | inl e ↦
      rw (retry_one_lem me index c sems, e)
        (settle-some c sems (sem_check c.semop_sops sems)
          (waits_on-is_waiting index c (ground arith)) (w (λ k. ground arith)))
  | inr e ↦ rw (retry_one_lem me index c sems, e) ((c, sems), refl)
]

retry_others-some :
    (me index : ℕ) (l : List Config) (sems : List ℕ)
    → All (λ c. c.pid ≢ me → CanWake c) l
    → (p : List Config × List ℕ) × (retry_others me index l sems ≡ some p)
unfolding retry_others
retry_others-some me index [] sems w = (([], sems), refl)
retry_others-some me index (c ∷ l) sems w =
    let one = retry_one-some me index c sems w.0 in
    let rest = retry_others-some me index l one.0.1 w.1 in
    ((one.0.0 ∷ rest.0.0, rest.0.1), rw (one.1, rest.1))

All-update_config :
    (me : ℕ) (f : Config → Config) (l : List Config)
    → ((c : Config) → (f c).pid ≡ c.pid)
    → All (λ c. c.pid ≢ me → CanWake c) l
    → All (λ c. c.pid ≢ me → CanWake c) (update_config me f l)
unfolding update_config
All-update_config me f [] same w = tt
All-update_config me f (c ∷ l) same w = elim (Bool-cases (c.pid == me)) [
  | inl e ↦
      rw e ((λ n. absurd (n (same c ∙ (==_iff c.pid me).0 e))), All-update_config me f l same w.1)
  | inr e ↦ rw e (w.0, All-update_config me f l same w.1)
]

Total : Option (Result ℕ × Ipc) → Type 0
Total o = (r : Result ℕ × Ipc) × (o ≡ some r)

Total-if :
    (b : Bool) (x y : Option (Result ℕ × Ipc)) → Total x → Total y → Total (if b then x else y)
Total-if true x y hx hy = hx
Total-if false x y hx hy = hy

module _ (ipc : Ipc) (me : ℕ) (w : All (λ c. c.pid ≢ me → CanWake c) ipc.configs) where
  do_semop-Total :
      (index : ℕ) (s : Semaphore) (sops : List Sembuf) → Total (do_semop ipc me index s sops)
  unfolding Total
  do_semop-Total index s sops =
      let this = sem_check sops s.sems in
      let others =
        retry_others-some me index (update_config me (begin_semop index sops) ipc.configs)
          (values_after this s.sems)
          (All-update_config me (begin_semop index sops) ipc.configs (λ c. refl) w) in
      rw (do_semop_lem ipc me index s sops, others.1) (_, refl)

  sops-Total :
      (index : ℕ) (s : Semaphore) (sops : Result (List Sembuf))
      → Total (elim sops [
        | err e ↦ some (err e, ipc)
        | ok l ↦
            if not (all_below s.nsems l) then some (err efbig, ipc) else do_semop ipc me index s l
      ])
  sops-Total index s (err e) = unfold Total in ((err e, ipc), refl)
  sops-Total index s (ok l) =
      Total-if (not (all_below s.nsems l)) _ _ (unfold Total in ((err efbig, ipc), refl))
        (do_semop-Total index s l)

-- Where every other tracee that waits for a semaphore can be woken, no assertion of `sysvipc_semop`
-- and of what it calls fails, whatever the id and the operations.
pub semop-total :
    (ipc : Ipc) (me id nsops : ℕ) (sops : Result (List Sembuf))
    → All (λ c. c.pid ≢ me → CanWake c) ipc.configs
    → (r : Result ℕ × Ipc) × (semop ipc me id nsops sops ≡ some r)
semop-total ipc me id nsops sops w = unfold Total semop in go (lookup_ipc_object id ipc.semaphores)
  where
    go :
        (q : Result (ℕ × Semaphore))
        → Total (elim q [
          | err e ↦ some (err e, ipc)
          | ok (index, s) ↦
              if ltb max_nsops nsops
              then some (err e2big, ipc)
              else if nsops == 0
              then some (err einval, ipc)
              else elim sops [
                | err e ↦ some (err e, ipc)
                | ok l ↦
                    if not (all_below s.nsems l)
                    then some (err efbig, ipc)
                    else do_semop ipc me index s l
              ]
        ])
    go (err e) = unfold Total in ((err e, ipc), refl)
    go (ok (i, s)) = Total-if (ltb max_nsops nsops) _ _ (unfold Total in ((err e2big, ipc), refl)) (
        Total-if (nsops == 0) _ _ (unfold Total in ((err einval, ipc), refl))
          (sops-Total ipc me w i s sops))
