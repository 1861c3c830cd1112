-- ===== src/Creds/Drop.antt =====
-- Sequences of the emulated calls: a tracee without privileges gains no user id that it did not have.
use proot.Prelude.{ℕ, ◌≡◌, ◌≢◌, refl, ◌⊎◌, inl, inr, true, false, arith, Result, ok, err}
use proot.Creds.{
  Ids, Config, setxid, setrexid, setresxid, setfsxid, Call, setuid, setgid, setfsuid, setfsgid,
  setreuid, setregid, setresuid, setresgid, getuid, getgid, geteuid, getegid, handle_call, put_uid,
  put_gid, privileged, id_of,
}

-- The id is one of the three of `i`.
abbrev pub Among : Ids → ℕ → Type 0
Among i id = (id ≡ i.real) ⊎ ((id ≡ i.effective) ⊎ (id ≡ i.saved))

-- No id of `j` is new; that of the file-system may also be the one of `i`.
abbrev pub Keeps : Ids → Ids → Type 0
Keeps i j = Among i j.real × Among i j.effective × Among i j.saved × (Among i j.fs ⊎ (j.fs ≡ i.fs))

setxid-Keeps : (i j : Ids) (id : ℕ) → setxid false i id ≡ ok j → Keeps i j
unfolding setxid
setxid-Keeps i j id h = ground arith

setrexid-Keeps : (i j : Ids) (r e : ℕ) → setrexid false i r e ≡ ok j → Keeps i j
unfolding setrexid
setrexid-Keeps i j r e h = ground arith

setresxid-Keeps : (i j : Ids) (r e s : ℕ) → setresxid false i r e s ≡ ok j → Keeps i j
unfolding setresxid
setresxid-Keeps i j r e s h = ground arith

setfsxid-Keeps : (i : Ids) (f : ℕ) → Keeps i (setfsxid false i f)
unfolding setfsxid
setfsxid-Keeps i f = ground arith

Keeps-refl : (i : Ids) → Keeps i i
Keeps-refl i = (inl refl, inr (inl refl), inr (inr refl), inr refl)

Keeps-trans : (i j k : Ids) → Keeps i j → Keeps j k → Keeps i k
Keeps-trans i j k h h' = ground arith

put_uid-Keeps :
    (c : Config) (r : Result Ids)
    → ((j : Ids) → r ≡ ok j → Keeps c.uid j)
    → Keeps c.uid (put_uid c r).0.uid
put_uid-Keeps c (ok j) h = h j refl
put_uid-Keeps c (err e) h = Keeps-refl c.uid

put_gid-Keeps : (c : Config) (r : Result Ids) → Keeps c.uid (put_gid c r).0.uid
put_gid-Keeps c (ok j) = Keeps-refl c.uid
put_gid-Keeps c (err e) = Keeps-refl c.uid

handle_call-Keeps :
    (c : Config) (call : Call) → privileged c ≡ false → Keeps c.uid (handle_call c call).0.uid
unfolding handle_call
handle_call-Keeps c (setuid a) h =
    put_uid-Keeps c (setxid (privileged c) c.uid (id_of a))
      (λ j e. setxid-Keeps c.uid j (id_of a) (rw h at e))
handle_call-Keeps c (setreuid a b) h =
    put_uid-Keeps c (setrexid (privileged c) c.uid (id_of a) (id_of b))
      (λ j e. setrexid-Keeps c.uid j (id_of a) (id_of b) (rw h at e))
handle_call-Keeps c (setresuid a b d) h =
    put_uid-Keeps c (setresxid (privileged c) c.uid (id_of a) (id_of b) (id_of d))
      (λ j e. setresxid-Keeps c.uid j (id_of a) (id_of b) (id_of d) (rw h at e))
handle_call-Keeps c (setfsuid a) h = rw h (setfsxid-Keeps c.uid (id_of a))
handle_call-Keeps c (setgid a) h = put_gid-Keeps c _
handle_call-Keeps c (setregid a b) h = put_gid-Keeps c _
handle_call-Keeps c (setresgid a b d) h = put_gid-Keeps c _
handle_call-Keeps c (setfsgid a) h = Keeps-refl c.uid
handle_call-Keeps c getuid h = Keeps-refl c.uid
handle_call-Keeps c getgid h = Keeps-refl c.uid
handle_call-Keeps c geteuid h = Keeps-refl c.uid
handle_call-Keeps c getegid h = Keeps-refl c.uid

-- The configurations behind a sequence of emulated calls with any arguments.
pub data Reach (c : Config) : Config → Type 0 where
  here : Reach c c
  next : {d : Config} (call : Call) → Reach c d → Reach c (handle_call d call).0

-- The effective, the real and the saved user id differ from 0.
abbrev pub NoRoot : Ids → Type 0
NoRoot i = (i.real ≢ 0) × (i.effective ≢ 0) × (i.saved ≢ 0)

NoRoot-Keeps : (i j : Ids) → NoRoot i → Keeps i j → NoRoot j
NoRoot-Keeps i j n k = ((λ e. ground arith), (λ e. ground arith), (λ e. ground arith))

-- Where neither the real nor the effective nor the saved user id is 0: behind any sequence of the
-- emulated calls, whatever their arguments and results, each of the three is one of the three at
-- first, and that of the file-system is one of these or as at first; so none of the three is 0.
pub Reach-Keeps : {c d : Config} → NoRoot c.uid → Reach c d → Keeps c.uid d.uid × NoRoot d.uid
Reach-Keeps {c} n here = (Keeps-refl c.uid, n)
Reach-Keeps {c} n (next {d} call r) =
    let before = Reach-Keeps n r in
    let step = handle_call-Keeps d call (ground arith) in
    let e = (handle_call d call).0 in
    (Keeps-trans c.uid d.uid e.uid before.0 step, NoRoot-Keeps d.uid e.uid before.1 step)

-- The four ids when all are one.
abbrev pub only : ℕ → Ids
only u = record { real = u; effective = u; saved = u; fs = u }

setuid-privileged :
    (c : Config) (word : ℕ)
    → c.uid.effective ≡ 0
    → (handle_call c (setuid word)).0.uid ≡ only (id_of word)
unfolding handle_call setxid
setuid-privileged c word e =
    let root : privileged c ≡ true = ground arith in rw (handle_call, root, setxid) refl

-- A privileged tracee that calls setuid(2) with another id than 0 has dropped its privileges for good:
-- behind any further sequence of the emulated calls all its user ids are that one.
pub setuid-drops :
    (c d : Config) (word : ℕ)
    → c.uid.effective ≡ 0
    → id_of word ≢ 0
    → Reach (handle_call c (setuid word)).0 d
    → (d.uid.real ≡ id_of word)
      × (d.uid.effective ≡ id_of word)
      × (d.uid.saved ≡ id_of word)
      × (d.uid.fs ≡ id_of word)
setuid-drops c d word root n r =
    let start = setuid-privileged c word root in
    let kept = Reach-Keeps (rw start (n, n, n)) r in
    all_same (id_of word) d.uid (rw start at kept.0)
  where
    all_same :
        (u : ℕ) (j : Ids)
        → Keeps (only u) j
        → (j.real ≡ u) × (j.effective ≡ u) × (j.saved ≡ u) × (j.fs ≡ u)
    all_same u j k = ground arith
