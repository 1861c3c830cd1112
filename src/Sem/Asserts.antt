-- ===== src/Sem/Asserts.antt =====
-- The assertions of `sysvipc_semop` and `sysvipc_sem_check` on the reason of a wait never fail: the
-- calling tracee waits for the semaphore from the start, and the others are checked only if they do.
use proot.Prelude.{
  ℕ, ◌≡◌, refl, inl, inr, true, not, ◌&&◌, ◌||◌, List, [], ◌∷◌, Option, none, some, set, ◌==◌,
  if◌then◌else◌, arith, Bool-cases, ==_iff, Result, ok, err,
}
use proot.Sysvipc.{Config, Sembuf, update_config, and_then, wake_tracee}
use proot.Sysvipc.Wake.{and_then-some}
use proot.Sem.{
  Ipc, Semaphore, Check, waits_for_zero, waits_for_increase, fails, done, sem_check, is_semop,
  waits_on, settle, check_waiting, retry_one, retry_others, asserts_semop, begin_semop, end_semop,
  finish_semop, do_semop, values_after,
}

-- A tracee is checked only if it waits for a semaphore.
pub retry_one_lem :
    (me index : ℕ) (c : Config) (sems : List ℕ)
    → retry_one me index c sems ≡ (
        if not (c.pid == me) && waits_on index c
        then settle c sems (sem_check c.semop_sops sems)
        else some (c, sems))
unfolding retry_one check_waiting
retry_one_lem me index c sems = elim (Bool-cases (not (c.pid == me) && waits_on index c)) [
  | inr e ↦ rw e refl
  | inl e ↦ let reason : is_semop c.wait_reason ≡ true = ground arith in rw (e, reason) refl
]

begin_semop-asserts :
    (me index : ℕ) (sops : List Sembuf) (l : List Config)
    → asserts_semop me (update_config me (begin_semop index sops) l) ≡ true
unfolding asserts_semop update_config
begin_semop-asserts me index sops [] = refl
begin_semop-asserts me index sops (c ∷ l) =
    let rest = begin_semop-asserts me index sops l in
    elim (Bool-cases (c.pid == me)) [
      | inl e ↦ rw (e, rest) (rw e refl)
      | inr e ↦ rw (e, rest) (rw e refl)
    ]

-- The calling tracee is left as it is.
retry_one-own :
    (me index : ℕ) (c : Config) (sems : List ℕ) (p : Config × List ℕ)
    → c.pid ≡ me
    → retry_one me index c sems ≡ some p
    → p.0 ≡ c
retry_one-own me index c sems p own h =
    let same : (c.pid == me) ≡ true = (==_iff c.pid me).1 own in
    cc (rw (retry_one_lem me index c sems, same) at h)

settle-pid :
    (c : Config) (sems : List ℕ) (k : Check) (p : Config × List ℕ)
    → settle c sems k ≡ some p
    → p.0.pid ≡ c.pid
unfolding settle
settle-pid c sems waits_for_zero p h = let same : c ≡ p.0 = cc (h) in rw (← same) refl
settle-pid c sems waits_for_increase p h = let same : c ≡ p.0 = cc (h) in rw (← same) refl
settle-pid c sems (fails e) p h = woken_pid (err e) sems h
  where
    woken_pid :
        (status : Result ℕ) (v : List ℕ)
        → and_then (wake_tracee (record c { semop_sops = [] }) status) (λ d. some (d, v)) ≡ some p
        → p.0.pid ≡ c.pid
    woken_pid status v q = unfold wake_tracee in ground arith
settle-pid c sems (done new) p h = unfold wake_tracee in ground arith

abbrev Asserted : ℕ → Config → Type 0
Asserted me c = (not (c.pid == me) || is_semop c.wait_reason) ≡ true

retry_one-Asserted :
    (me index : ℕ) (c : Config) (sems : List ℕ) (p : Config × List ℕ)
    → retry_one me index c sems ≡ some p
    → Asserted me c
    → Asserted me p.0
retry_one-Asserted me index c sems p h a = elim (Bool-cases (c.pid == me)) [
  | inl e ↦ rw (retry_one-own me index c sems p ((==_iff c.pid me).0 e) h) a
  | inr e ↦ elim (Bool-cases (waits_on index c)) [
    | inr w ↦
        let same : c ≡ p.0 = cc (rw (retry_one_lem me index c sems, e, w) at h) in rw (← same) a
    | inl w ↦
        let same =
          settle-pid c sems (sem_check c.semop_sops sems) p
            (rw (retry_one_lem me index c sems, e, w) at h) in
        rw (same, e) refl
  ]
]

retry_others-asserts :
    (me index : ℕ) (l : List Config) (sems : List ℕ) (p : List Config × List ℕ)
    → retry_others me index l sems ≡ some p
    → asserts_semop me l ≡ true
    → asserts_semop me p.0 ≡ true
unfolding retry_others asserts_semop
retry_others-asserts me index [] sems p h a = let same : [] ≡ p.0 = cc (h) in rw (← same) refl
retry_others-asserts me index (c ∷ l) sems p h a =
    let one = and_then-some (retry_one me index c sems) _ p h in
    let rest = and_then-some (retry_others me index l one.0.1) _ p one.2 in
    let same : one.0.0 ∷ rest.0.0 ≡ p.0 = cc (rest.2) in
    let mine = retry_one-Asserted me index c sems one.0 one.1 (ground arith) in
    let others = retry_others-asserts me index l one.0.1 rest.0 rest.1 (ground arith) in
    rw (← same, asserts_semop, mine, others) refl

-- The end of `sysvipc_semop` where its assertion holds.
abbrev pub finished : ℕ → Check → List Config → Result ℕ × List Config
finished me waits_for_zero l = (ok 0, l)
finished me waits_for_increase l = (ok 0, l)
finished me (fails e) l = (err e, update_config me end_semop l)
finished me (done new) l = (ok 0, update_config me end_semop l)

finish_semop_lem :
    (me : ℕ) (k : Check) (l : List Config)
    → asserts_semop me l ≡ true
    → finish_semop me k l ≡ some (finished me k l)
unfolding finish_semop
finish_semop_lem me waits_for_zero l a = rw a refl
finish_semop_lem me waits_for_increase l a = rw a refl
finish_semop_lem me (fails e) l a = refl
finish_semop_lem me (done new) l a = refl

-- The assertions on the calling tracee hold, whatever the list of tracees.
pub do_semop_lem :
    (ipc : Ipc) (me index : ℕ) (s : Semaphore) (sops : List Sembuf)
    → let this = sem_check sops s.sems in
      do_semop ipc me index s sops
      ≡ and_then
          (retry_others me index
            (update_config me (begin_semop index sops) ipc.configs)
            (values_after this s.sems))
          λ p. some (
            (finished me this p.0).0,
            record {
              semaphores = set ipc.semaphores index (record s { sems = p.1 });
              configs = (finished me this p.0).1;
            },
          )
unfolding do_semop
do_semop_lem ipc me index s sops =
    let this = sem_check sops s.sems in
    let began = update_config me (begin_semop index sops) ipc.configs in
    let start = begin_semop-asserts me index sops ipc.configs in
    rw (do_semop, start) (go (retry_others me index began (values_after this s.sems)) refl)
  where
    go :
        (o : Option (List Config × List ℕ))
        → retry_others me index
            (update_config me (begin_semop index sops) ipc.configs)
            (values_after (sem_check sops s.sems) s.sems)
          ≡ o
        → and_then {B = Result ℕ × Ipc} o (λ p.
          and_then (finish_semop me (sem_check sops s.sems) p.0) λ r. some (
            r.0,
            record {
              semaphores = set ipc.semaphores index (record s { sems = p.1 });
              configs = r.1;
            },
          ))
          ≡ and_then o (λ p. some (
            (finished me (sem_check sops s.sems) p.0).0,
            record {
              semaphores = set ipc.semaphores index (record s { sems = p.1 });
              configs = (finished me (sem_check sops s.sems) p.0).1;
            },
          ))
    go none k = refl
    go (some p) k =
        let held =
          retry_others-asserts me index _ _ p k (begin_semop-asserts me index sops ipc.configs) in
        rw (finish_semop_lem me (sem_check sops s.sems) p.0 held) refl
