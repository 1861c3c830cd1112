-- ===== src/Sem/Sound.antt =====
-- The invariant of the semaphores of a name-space, and that every system call keeps it.
use proot.Prelude.{
  All-set_any, ℕ, zero, suc, ◌+◌, ◌%◌, ◌^◌, ◌<◌, ◌≤◌, ◌≡◌, refl, sym, ◌∙◌, ◌⊎◌, inl, inr, true,
  false, List, [], ◌∷◌, ◌++◌, Option, none, some, length, get_elem?, set, ◌==◌, if◌then◌else◌,
  arith, All, Bool-cases, Result, ok, err, ltb, leb, not, ◌&&◌, ◌||◌, length-set, length-append,
  length-replicate, All-append, einval, replicate, e2big, efbig,
}
use proot.Sem.Asserts.{retry_one_lem, do_semop_lem, finished}
use proot.Sem.{
  semaphore_object, Semaphore, Ipc, max_nsems, Check, waits_for_zero, waits_for_increase, fails,
  done, sem_check, settle, retry_one, retry_others, do_semop, semop, semop_timedout, remove, semctl,
  do_semctl, command_of, Command, setval, rmid, Memory, max_semval, max_sems, semget, get_slot,
  get_found, set_up, waits_on, values_after, begin_semop, all_below, max_nsops,
}
use proot.Sysvipc.{
  Sembuf, Config, and_then, wake_all, lookup_ipc_object, find_slot, Slot, found, unused, nothing,
  generation_at, update_config,
}
use proot.Sysvipc.Lookup.{lookup_ok, All-get}
use proot.Sem.Values.{sem_check-Effect, All-set}

-- The values of a valid semaphore are as many as it says, and all of them are in range.
pub record IsWellFormed (s : Semaphore) : Type 0 where
  pub size : s.valid ≡ true → length s.sems ≡ s.nsems
  pub bounds : All (λ v. v ≤ max_semval) s.sems
  pub few : s.nsems ≤ max_nsems

pub record IsSound (l : List Semaphore) : Type 0 where
  pub each : All IsWellFormed l
  pub count : length l ≤ max_sems

IsSound-set :
    (l : List Semaphore) (i : ℕ) (s : Semaphore) → IsSound l → IsWellFormed s → IsSound (set l i s)
IsSound-set l i s h w = record {
  each = All-set_any IsWellFormed l i s h.each w;
  count = rw length-set h.count;
}

zeros : (n : ℕ) → All (λ v. v ≤ max_semval) (replicate n 0)
zeros zero = tt
zeros (suc n) = (omega arith, zeros n)

set_up-IsWellFormed : (key n g : ℕ) → n ≤ max_nsems → IsWellFormed (set_up key n g)
set_up-IsWellFormed key n g h = record {
  size = λ _. length-replicate n 0;
  bounds = zeros n;
  few = h;
}

-- The values stay as many, and in range.
abbrev Kept : List ℕ → List ℕ → Type 0
Kept sems new =
    (length new ≡ length sems) × (All (λ v. v ≤ max_semval) sems → All (λ v. v ≤ max_semval) new)

Kept-check :
    (sops : List Sembuf) (sems : List ℕ) (k : Check)
    → sem_check sops sems ≡ k
    → Kept sems (values_after k sems)
Kept-check sops sems waits_for_zero e = (refl, λ a. a)
Kept-check sops sems waits_for_increase e = (refl, λ a. a)
Kept-check sops sems (fails x) e = (refl, λ a. a)
Kept-check sops sems (done new) e = let f = sem_check-Effect sops sems new e in (f.size, f.bounds)

settle-values :
    (c : Config) (sems : List ℕ) (k : Check) (p : Config × List ℕ)
    → settle c sems k ≡ some p
    → p.1 ≡ values_after k sems
unfolding settle
settle-values c sems waits_for_zero p h = ground arith
settle-values c sems waits_for_increase p h = ground arith
settle-values c sems (fails e) p h = ground arith
settle-values c sems (done new) p h = ground arith

retry_one-Kept :
    (me i : ℕ) (c : Config) (sems : List ℕ) (p : Config × List ℕ)
    → retry_one me i c sems ≡ some p
    → Kept sems p.1
retry_one-Kept me i c sems p h = elim (Bool-cases (not (c.pid == me) && waits_on i c)) [
  | inl e ↦
      rw
        (settle-values c sems (sem_check c.semop_sops sems) p
          (rw (retry_one_lem me i c sems, e) at h))
        (Kept-check c.semop_sops sems _ refl)
  | inr e ↦
      let k : sems ≡ p.1 = (let q = rw (retry_one_lem me i c sems, e) at h in ground arith) in
      rw (← k) (refl, λ a. a)
]

retry_others-Kept :
    (me i : ℕ) (l : List Config) (sems : List ℕ) (p : List Config × List ℕ)
    → retry_others me i l sems ≡ some p
    → Kept sems p.1
unfolding retry_others
retry_others-Kept me i [] sems p h = let k : sems ≡ p.1 = ground arith in rw (← k) (refl, λ a. a)
retry_others-Kept me i (c ∷ l) sems p h =
    go (retry_one me i c sems) refl (retry_others-Kept me i l) h
  where
    go :
        (o : Option (Config × List ℕ))
        → retry_one me i c sems ≡ o
        → ((v : List ℕ) (q : List Config × List ℕ) → retry_others me i l v ≡ some q → Kept v q.1)
        → and_then o (λ p. and_then (retry_others me i l p.1) λ q. some (p.0 ∷ q.0, q.1)) ≡ some p
        → Kept sems p.1
    go none e ih k = cc (k)
    go (some (d, v)) e ih k = last (retry_others me i l v) refl k
      where
        last :
            (o : Option (List Config × List ℕ))
            → retry_others me i l v ≡ o
            → and_then o (λ q. some (d ∷ q.0, q.1)) ≡ some p
            → Kept sems p.1
        last none e' k' = cc (k')
        last (some q) e' k' =
            let one = retry_one-Kept me i c sems (d, v) e in
            let rest = ih v q e' in
            let same : q.1 ≡ p.1 = ground arith in
            rw (← same) (rest.0 ∙ one.0, λ a. rest.1 (one.1 a))

IsWellFormed-values :
    (s : Semaphore) (new : List ℕ)
    → IsWellFormed s
    → Kept s.sems new
    → IsWellFormed (record s { sems = new })
IsWellFormed-values s new w k = record {
  size = λ v. k.0 ∙ w.size v;
  bounds = k.1 w.bounds;
  few = w.few;
}

Kept-trans : (a b c : List ℕ) → Kept a b → Kept b c → Kept a c
Kept-trans a b c h k = (k.0 ∙ h.0, λ t. k.1 (h.1 t))

-- A look-up in a sound list gives a well-formed semaphore.
lookup-IsWellFormed :
    (id : ℕ) (l : List Semaphore) (i : ℕ) (s : Semaphore)
    → IsSound l
    → lookup_ipc_object id l ≡ ok (i, s)
    → IsWellFormed s
lookup-IsWellFormed id l i s h e = All-get IsWellFormed l i s h.each (lookup_ok id l i s e).0

do_semop-IsSound :
    (ipc ipc' : Ipc) (me i : ℕ) (s : Semaphore) (sops : List Sembuf) (r : Result ℕ)
    → IsSound ipc.semaphores
    → IsWellFormed s
    → do_semop ipc me i s sops ≡ some (r, ipc')
    → IsSound ipc'.semaphores
do_semop-IsSound ipc ipc' me i s sops r h w e =
    go
      (retry_others me i (update_config me (begin_semop i sops) ipc.configs)
        (values_after this s.sems))
      refl (sym (do_semop_lem ipc me i s sops) ∙ e)
  where
    this : Check
    this = sem_check sops s.sems

    go :
        (o : Option (List Config × List ℕ))
        → retry_others me i
            (update_config me (begin_semop i sops) ipc.configs)
            (values_after this s.sems)
          ≡ o
        → and_then {B = Result ℕ × Ipc} o (λ p.
          let q = finished me this p.0 in
          some (
            q.0,
            record { semaphores = set ipc.semaphores i (record s { sems = p.1 }); configs = q.1 },
          ))
          ≡ some (r, ipc')
        → IsSound ipc'.semaphores
    go none k k' = cc (k')
    go (some (l, v)) k k' =
        let same : set ipc.semaphores i (record s { sems = v }) ≡ ipc'.semaphores = ground arith in
        let kept =
          Kept-trans s.sems (values_after this s.sems) v (Kept-check sops s.sems this refl)
            (retry_others-Kept me i _ (values_after this s.sems) (l, v) k) in
        rw (← same) (IsSound-set ipc.semaphores i _ h (IsWellFormed-values s v w kept))

pub semop-cases :
    (ipc ipc' : Ipc) (me id nsops : ℕ) (sops : Result (List Sembuf)) (r : Result ℕ)
    → semop ipc me id nsops sops ≡ some (r, ipc')
    → (ipc ≡ ipc')
      ⊎ ((i : ℕ) × (s : Semaphore) × (l : List Sembuf) × (lookup_ipc_object id ipc.semaphores
            ≡ ok (i, s))
          × (do_semop ipc me i s l ≡ some (r, ipc')))
unfolding semop
semop-cases ipc ipc' me id nsops sops r h = go (lookup_ipc_object id ipc.semaphores) refl h
  where
    last :
        (i : ℕ) (s : Semaphore) (q : Result (List Sembuf))
        → lookup_ipc_object id ipc.semaphores ≡ ok (i, s)
        → (elim q [
          | err e ↦ some (err e, ipc)
          | ok l ↦
              if not (all_below s.nsems l) then some (err efbig, ipc) else do_semop ipc me i s l
        ])
          ≡ some (r, ipc')
        → (ipc ≡ ipc')
          ⊎ ((i : ℕ) × (s : Semaphore) × (l : List Sembuf) × (lookup_ipc_object id ipc.semaphores
                ≡ ok (i, s))
              × (do_semop ipc me i s l ≡ some (r, ipc')))
    last i s (err e) k k' = inl (ground arith)
    last i s (ok l) k k' = elim (Bool-cases (all_below s.nsems l)) [
      | inl e ↦ inr (i, s, l, k, (rw e at k'))
      | inr e ↦ inl (let q = rw e at k' in ground arith)
    ]

    go :
        (q : Result (ℕ × Semaphore))
        → lookup_ipc_object id ipc.semaphores ≡ q
        → (elim q [
          | err e ↦ some (err e, ipc)
          | ok (index, s) ↦
              if ltb max_nsops nsops
              then some (err e2big, ipc)
              else if nsops == 0
              then some (err einval, ipc)
              else elim sops [
                | err e ↦ some (err e, ipc)
                | ok l ↦
                    if not (all_below s.nsems l)
                    then some (err efbig, ipc)
                    else do_semop ipc me index s l
              ]
        ])
          ≡ some (r, ipc')
        → (ipc ≡ ipc')
          ⊎ ((i : ℕ) × (s : Semaphore) × (l : List Sembuf) × (lookup_ipc_object id ipc.semaphores
                ≡ ok (i, s))
              × (do_semop ipc me i s l ≡ some (r, ipc')))
    go (err e) k k' = inl (ground arith)
    go (ok (i, s)) k k' = elim (Bool-cases (ltb max_nsops nsops)) [
      | inl e ↦ inl (let q = rw e at k' in ground arith)
      | inr e ↦ elim (Bool-cases (nsops == 0)) [
        | inl z ↦ inl (let q = rw (e, z) at k' in ground arith)
        | inr z ↦ last i s sops k (rw (e, z) at k')
      ]
    ]

-- `sysvipc_semop` keeps the invariant, whatever it returns and whichever other tracees it lets go.
semop-IsSound :
    (ipc ipc' : Ipc) (me id nsops : ℕ) (sops : Result (List Sembuf)) (r : Result ℕ)
    → IsSound ipc.semaphores
    → semop ipc me id nsops sops ≡ some (r, ipc')
    → IsSound ipc'.semaphores
semop-IsSound ipc ipc' me id nsops sops r h e = elim (semop-cases ipc ipc' me id nsops sops r e) [
  | inl k ↦ rw (← k) h
  | inr (i, s, l, k, k') ↦
      do_semop-IsSound ipc ipc' me i s l r h (lookup-IsWellFormed id ipc.semaphores i s h k) k'
]

remove-IsSound :
    (ipc ipc' : Ipc) (i : ℕ) (s : Semaphore) (r : Result ℕ)
    → IsSound ipc.semaphores
    → IsWellFormed s
    → remove ipc i s ≡ some (r, ipc')
    → IsSound ipc'.semaphores
unfolding remove
remove-IsSound ipc ipc' i s r h w e = go (wake_all (waits_on i) ipc.configs) e
  where
    gone : Semaphore
    gone = record s { valid = false; generation = (s.generation + 1) % 2 ^ 16; sems = [] }

    go :
        (o : Option (List Config))
        → and_then {B = Result ℕ × Ipc} o
            (λ l. some (ok 0, record { semaphores = set ipc.semaphores i gone; configs = l }))
          ≡ some (r, ipc')
        → IsSound ipc'.semaphores
    go none k = cc (k)
    go (some l) k =
        let same : set ipc.semaphores i gone ≡ ipc'.semaphores = ground arith in
        rw (← same) (
          IsSound-set ipc.semaphores i gone h
            (record { size = λ v. cc (v); bounds = tt; few = w.few }))

do_semctl-IsSound :
    (m : Memory) (ipc ipc' : Ipc) (i : ℕ) (s : Semaphore) (semnum cmdarg : ℕ) (c : Command)
    (r : Result ℕ)
    → IsSound ipc.semaphores
    → IsWellFormed s
    → do_semctl m ipc i s semnum cmdarg c ≡ some (r, ipc')
    → IsSound ipc'.semaphores
unfolding do_semctl
do_semctl-IsSound m ipc ipc' i s semnum cmdarg rmid r h w e = remove-IsSound ipc ipc' i s r h w e
do_semctl-IsSound m ipc ipc' i s semnum cmdarg setval r h w e =
    elim (Bool-cases (ltb max_semval cmdarg)) [
      | inl b ↦ rw (let q = rw b at e in let k : ipc' ≡ ipc = ground arith in k) h
      | inr b ↦ elim (Bool-cases (leb s.nsems semnum)) [
        | inl c ↦ rw (let q = rw (b, c) at e in let k : ipc' ≡ ipc = ground arith in k) h
        | inr c ↦
            let q = rw (b, c) at e in
            let k : ipc'.semaphores
                ≡ set ipc.semaphores i (record s { sems = set s.sems semnum cmdarg }) =
              ground arith in
            rw k (
              IsSound-set ipc.semaphores i _ h (
                IsWellFormed-values s _ w (
                  length-set s.sems semnum cmdarg,
                  λ a. All-set max_semval semnum cmdarg s.sems a (ground arith),
                )))
      ]
    ]
do_semctl-IsSound m ipc ipc' i s semnum cmdarg _ r h w e =
    rw (let k : ipc' ≡ ipc = ground arith in k) h

semctl-IsSound :
    (m : Memory) (ipc ipc' : Ipc) (id semnum cmd cmdarg : ℕ) (r : Result ℕ)
    → IsSound ipc.semaphores
    → semctl m ipc id semnum cmd cmdarg ≡ some (r, ipc')
    → IsSound ipc'.semaphores
unfolding semctl
semctl-IsSound m ipc ipc' id semnum cmd cmdarg r h e =
    go (lookup_ipc_object id ipc.semaphores) refl e
  where
    go :
        (q : Result (ℕ × Semaphore))
        → lookup_ipc_object id ipc.semaphores ≡ q
        → (elim q [
          | err e ↦ some (err e, ipc)
          | ok (i, s) ↦ do_semctl m ipc i s semnum cmdarg (command_of cmd)
        ])
          ≡ some (r, ipc')
        → IsSound ipc'.semaphores
    go (err x) k k' = rw (let same : ipc' ≡ ipc = ground arith in same) h
    go (ok (i, s)) k k' =
        do_semctl-IsSound m ipc ipc' i s semnum cmdarg (command_of cmd) r h
          (lookup-IsWellFormed id ipc.semaphores i s h k) k'

get_slot-IsSound :
    (l l' : List Semaphore) (key nsems semflg id : ℕ) (q : Slot)
    → IsSound l
    → nsems ≤ max_nsems
    → get_slot l key nsems semflg q ≡ ok (id, l')
    → IsSound l'
get_slot-IsSound l l' key nsems semflg id (found i) h n e = unfold get_slot in go (get_elem? l i) e
  where
    go : (o : Option Semaphore) → get_found l nsems semflg i o ≡ ok (id, l') → IsSound l'
    go none k = unfold get_found in cc (k)
    go (some s) k = rw (let same : l' ≡ l = unfold get_found in ground arith in same) h
get_slot-IsSound l l' key nsems semflg id (unused i) h n e =
    let same : l' ≡ set l i (set_up key nsems (generation_at l i)) =
      unfold get_slot in ground arith in
    rw same (IsSound-set l i _ h (set_up-IsWellFormed key nsems (generation_at l i) n))
get_slot-IsSound l l' key nsems semflg id nothing h n e =
    let out : (l' ≡ l ++ set_up key nsems 0 ∷ []) × (length l < max_sems) =
      unfold get_slot in ground arith in
    rw out.0 (record {
      each =
          All-append IsWellFormed l (set_up key nsems 0 ∷ []) h.each
            (set_up-IsWellFormed key nsems 0 n, tt);
      count = rw length-append (omega arith);
    })

semget-IsSound :
    (l l' : List Semaphore) (key nsems semflg id : ℕ)
    → IsSound l
    → semget l key nsems semflg ≡ ok (id, l')
    → IsSound l'
unfolding semget
semget-IsSound l l' key nsems semflg id h e =
    elim (Bool-cases ((nsems == 0) || ltb max_nsems nsems)) [
      | inl b ↦ cc (rw b at e)
      | inr b ↦
          get_slot-IsSound l l' key nsems semflg id (find_slot key 0 none l) h (ground arith)
            (rw b at e)
    ]

-- What the tracees of a name-space can do to its semaphores.
pub data Step : Ipc → Ipc → Type 0 where
  get :
      (ipc : Ipc) (key nsems semflg id : ℕ) (l : List Semaphore)
      → semget ipc.semaphores key nsems semflg ≡ ok (id, l)
      → Step ipc (record ipc { semaphores = l })
  operate :
      (ipc ipc' : Ipc) (me id nsops : ℕ) (sops : Result (List Sembuf)) (r : Result ℕ)
      → semop ipc me id nsops sops ≡ some (r, ipc')
      → Step ipc ipc'
  control :
      (m : Memory) (ipc ipc' : Ipc) (id semnum cmd cmdarg : ℕ) (r : Result ℕ)
      → semctl m ipc id semnum cmd cmdarg ≡ some (r, ipc')
      → Step ipc ipc'
  time_out : (ipc : Ipc) (me : ℕ) → Step ipc (semop_timedout ipc me)

pub data Reach (ipc : Ipc) : Ipc → Type 0 where
  here : Reach ipc ipc
  next : {a b : Ipc} → Reach ipc a → Step a b → Reach ipc b

Step-IsSound : {a b : Ipc} → Step a b → IsSound a.semaphores → IsSound b.semaphores
Step-IsSound (get ipc key nsems semflg id l e) h =
    semget-IsSound ipc.semaphores l key nsems semflg id h e
Step-IsSound (operate ipc ipc' me id nsops sops r e) h =
    semop-IsSound ipc ipc' me id nsops sops r h e
Step-IsSound (control m ipc ipc' id semnum cmd cmdarg r e) h =
    semctl-IsSound m ipc ipc' id semnum cmd cmdarg r h e
Step-IsSound (time_out ipc me) h = unfold semop_timedout in h

-- After any system calls of any tracees, in any order, there are at most 512 semaphores, and each
-- valid one has the number of values that it was made with, all of them at most SYSVIPC_MAX_SEMVAL.
pub Reach-IsSound : {a b : Ipc} → Reach a b → IsSound a.semaphores → IsSound b.semaphores
Reach-IsSound here h = h
Reach-IsSound (next r s) h = Step-IsSound s (Reach-IsSound r h)
