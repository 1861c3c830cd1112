-- ===== src/Sysvipc/Wake.antt =====
-- Tracees that wait for an IPC object: waking one that has come to wait fails no assertion.
use proot.Prelude.{
  ℕ, ◌≡◌, refl, ◌⊎◌, inl, inr, Bool, true, false, List, [], ◌∷◌, Option, none, some, arith, All,
  Bool-cases, Result, err, eidrm,
}
use proot.Sysvipc.{
  Config, WaitReason, not_waiting, entered_ppoll, restarted_into_ppoll, signaled_ppoll,
  restarted_into_ppoll_canceled, wake_tracee, wake_all, and_then,
}

pub and_then-some {ℓ κ} :
    {A : Type ℓ} {B : Type κ} (o : Option A) (f : A → Option B) (b : B)
    → and_then o f ≡ some b
    → (a : A) × (o ≡ some a) × (f a ≡ some b)
and_then-some none f b h = cc (h)
and_then-some (some a) f b h = (a, refl, h)

abbrev pub is_waiting : WaitReason → Bool
is_waiting not_waiting = false
is_waiting _ = true

-- A tracee that waits has entered ppoll(2), or is about to.
abbrev pub CanWake : Config → Type 0
CanWake c =
    is_waiting c.wait_reason ≡ true
    → (c.wait_state ≡ entered_ppoll) ⊎ (c.wait_state ≡ restarted_into_ppoll)

-- What waking a tracee leaves: it waits no longer, and has its status.
abbrev pub Woken : Config → Result ℕ → Config → Type 0
Woken c status d = (d.wait_reason ≡ not_waiting) × (d.status_after_wait ≡ status) × (d.pid ≡ c.pid)

pub wake_tracee-Woken :
    (c : Config) (status : Result ℕ)
    → is_waiting c.wait_reason ≡ true
    → CanWake c
    → (d : Config) × (wake_tracee c status ≡ some d) × Woken c status d
unfolding wake_tracee
wake_tracee-Woken c status s h = elim (h s) [
  | inl e ↦ (
    record c {
      wait_reason = not_waiting;
      status_after_wait = status;
      wait_state = signaled_ppoll;
      sigstopped = true;
    },
    ground arith,
    (refl, refl, refl),
  )
  | inr e ↦ (
    record c {
      wait_reason = not_waiting;
      status_after_wait = status;
      wait_state = restarted_into_ppoll_canceled;
    },
    ground arith,
    (refl, refl, refl),
  )
]

-- After IPC_RMID: a tracee that waited for the object has been woken with EIDRM, and any other
-- is as it was.
abbrev pub Removed : (Config → Bool) → Config → Config → Type 0
Removed waits c d = (waits c ≡ true → Woken c (err eidrm) d) × (waits c ≡ false → d ≡ c)

abbrev pub AllTwo : (Config → Config → Type 0) → List Config → List Config → Type 0
AllTwo R [] [] = Unit
AllTwo R [] (d ∷ m) = ⊥
AllTwo R (c ∷ l) [] = ⊥
AllTwo R (c ∷ l) (d ∷ m) = R c d × AllTwo R l m

pub wake_all-Removed :
    (waits : Config → Bool) (l : List Config)
    → ((c : Config) → waits c ≡ true → is_waiting c.wait_reason ≡ true)
    → All CanWake l
    → (m : List Config) × (wake_all waits l ≡ some m) × AllTwo (Removed waits) l m
unfolding wake_all
wake_all-Removed waits [] f h = ([], refl, tt)
wake_all-Removed waits (c ∷ l) f h =
    let rest = wake_all-Removed waits l f h.1 in
    elim (Bool-cases (waits c)) [
      | inl e ↦
          let w = wake_tracee-Woken c (err eidrm) (f c e) h.0 in
          (w.0 ∷ rest.0, rw (e, w.1, rest.1), (((λ _. w.2), (λ k. cc (e, k))), rest.2))
      | inr e ↦ (c ∷ rest.0, rw (e, rest.1), (((λ k. cc (e, k)), (λ _. refl)), rest.2))
    ]
