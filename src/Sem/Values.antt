-- ===== src/Sem/Values.antt =====
-- The values of the semaphores: what a successful `sysvipc_semop` does to them, and their bounds.
use proot.Prelude.{
  ℕ, zero, suc, ◌+◌, ◌<◌, ◌≤◌, ◌≡◌, refl, ◌∙◌, ◌⊎◌, inl, inr, true, List, [], ◌∷◌, Option, none,
  some, length, get_or, set, ◌==◌, if◌then◌else◌, arith, All, Bool-cases, ltb, eagain, erange,
  length-set,
}
use proot.Sem.{
  Check, waits_for_increase, fails, done, sem_check, check_op, plus, is_zero_op, max_semval,
  all_below,
}
use proot.Sysvipc.{ℤ, pos, negsuc, Sembuf, has_flag, ipc_nowait}

get_or-set :
    (l : List ℕ) (i j v : ℕ)
    → i < length l
    → get_or (set l i v) j 0 ≡ (if i == j then v else get_or l j 0)
get_or-set [] i j v h = absurd (omega arith)
get_or-set (x ∷ l) zero zero v h = refl
get_or-set (x ∷ l) zero (suc j) v h = ground arith
get_or-set (x ∷ l) (suc i) zero v h = ground arith
get_or-set (x ∷ l) (suc i) (suc j) v h = ground (arith, get_or-set l i j v)

-- How much the operations add to the value at an index, and how much they take.
abbrev pub gain : ℤ → ℕ
gain (pos n) = n
gain (negsuc n) = 0

abbrev pub loss : ℤ → ℕ
loss (pos n) = 0
loss (negsuc n) = n + 1

abbrev pub total : (ℤ → ℕ) → ℕ → List Sembuf → ℕ
total f i [] = 0
total f i (o ∷ l) = (if o.sem_num == i then f o.sem_op else 0) + total f i l

-- What a round that goes on has found: an operation 0, or a new value in range.
check_op-cases :
    (o : Sembuf) (sems new : List ℕ) (again : List ℕ → Check)
    → check_op o sems again ≡ done new
    → ((is_zero_op o.sem_op ≡ true) × (again sems ≡ done new))
      ⊎ ((n : ℕ) × (plus (get_or sems o.sem_num 0) o.sem_op ≡ some n)
          × (n ≤ max_semval)
          × (again (set sems o.sem_num n) ≡ done new))
unfolding check_op
check_op-cases o sems new again h = elim (Bool-cases (is_zero_op o.sem_op)) [
  | inl e ↦ inl (e, ground arith)
  | inr e ↦ inr (go (plus (get_or sems o.sem_num 0) o.sem_op) (rw e at h))
]
  where
    go :
        (p : Option ℕ)
        → (elim p [
          | none ↦ if has_flag o.sem_flg ipc_nowait then fails eagain else waits_for_increase
          | some n ↦ if ltb max_semval n then fails erange else again (set sems o.sem_num n)
        ])
          ≡ done new
        → (n : ℕ) × (p ≡ some n) × (n ≤ max_semval) × (again (set sems o.sem_num n) ≡ done new)
    go none k = ground arith
    go (some n) k = (n, refl, ground arith, ground arith)

plus_lem : (v n : ℕ) (op : ℤ) → plus v op ≡ some n → n + loss op ≡ v + gain op
plus_lem v n (pos k) h = ground arith
plus_lem v n (negsuc k) h = ground arith

zero_op : (op : ℤ) → is_zero_op op ≡ true → (gain op ≡ 0) × (loss op ≡ 0)
unfolding is_zero_op
zero_op (pos n) h = ground arith
zero_op (negsuc n) h = cc (h)

pub All-set : (m i v : ℕ) (l : List ℕ) → All (λ x. x ≤ m) l → v ≤ m → All (λ x. x ≤ m) (set l i v)
All-set m i v [] h k = tt
All-set m zero v (x ∷ l) h k = (k, h.1)
All-set m (suc i) v (x ∷ l) h k = (h.0, All-set m i v l h.1 k)

-- What operations that have succeeded have done to the values: the number of values is the same,
-- they are still bounded, and each has changed by what the operations on it add and take.
pub record Effect (sops : List Sembuf) (sems new : List ℕ) : Type 0 where
  pub size : length new ≡ length sems
  pub bounds : All (λ v. v ≤ max_semval) sems → All (λ v. v ≤ max_semval) new
  pub balance :
      all_below (length sems) sops ≡ true
      → (i : ℕ) → get_or new i 0 + total loss i sops ≡ get_or sems i 0 + total gain i sops

module _ (o : Sembuf) (sops : List Sembuf) (sems new : List ℕ) where
  Effect-zero : is_zero_op o.sem_op ≡ true → Effect sops sems new → Effect (o ∷ sops) sems new
  Effect-zero z e =
      let none_of = zero_op o.sem_op z in
      record {
        size = e.size;
        bounds = e.bounds;
        balance = λ b i. ground (arith, e.balance (ground arith) i);
      }

  Effect-set :
      (n : ℕ)
      → plus (get_or sems o.sem_num 0) o.sem_op ≡ some n
      → n ≤ max_semval
      → Effect sops (set sems o.sem_num n) new
      → Effect (o ∷ sops) sems new
  Effect-set n p small e =
      let size = length-set sems o.sem_num n in
      let change = plus_lem (get_or sems o.sem_num 0) n o.sem_op p in
      record {
        size = e.size ∙ size;
        bounds = λ a. e.bounds (All-set max_semval o.sem_num n sems a small);
        balance = λ b i.
            let tail = e.balance (rw size (ground arith)) i in
            ground (arith, tail, get_or-set sems o.sem_num i n);
      }

-- Operations that `sysvipc_sem_check` lets through have exactly their effect, all of them.
pub sem_check-Effect :
    (sops : List Sembuf) (sems new : List ℕ) → sem_check sops sems ≡ done new → Effect sops sems new
unfolding sem_check
sem_check-Effect [] sems new h =
    let e : sems ≡ new = cc (h) in
    rw (← e) (record { size = refl; bounds = λ a. a; balance = λ b i. refl })
sem_check-Effect (o ∷ sops) sems new h = elim (check_op-cases o sems new _ h) [
  | inl (z, k) ↦ Effect-zero o sops sems new z (sem_check-Effect sops sems new k)
  | inr (n, p, small, k) ↦
      Effect-set o sops sems new n p small (sem_check-Effect sops (set sems o.sem_num n) new k)
]
