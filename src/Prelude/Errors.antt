-- ===== src/Prelude/Errors.antt =====
-- Results of the functions that return 0, or a negated error number.
use Prim.Native.Nat.{ℕ}
use mathlib.Core.Path.{◌≡◌, refl}
use mathlib.Core.Bool.{Bool, true, false}
use mathlib.Core.Logic.{◌⊎◌, inl, inr}
use proot.Prelude.Tests.{if◌then◌else◌}

-- The error numbers that the modelled functions return, and those of the kernel's calls.
pub data Errno : Type 0 where
  eperm enoent e2big enoexec ebadf eagain enomem eacces eexist enotdir einval efbig : Errno
  enospc erange eidrm enametoolong eloop enomsg eintr efault : Errno
  other : ℕ → Errno
  -- No error numbers: an assertion has failed, and the fuel of a loop has run out.
  assertion no_fuel : Errno

pub data Result {ℓ} (A : Type ℓ) : Type ℓ where
  ok : A → Result A
  err : Errno → Result A

infixl 10 ◌>>=◌
abbrev pub ◌>>=◌ {ℓ κ} : {A : Type ℓ} {B : Type κ} → Result A → (A → Result B) → Result B
ok a >>= f = f a
err e >>= f = err e

-- What a chain that succeeds says of its parts.
pub bind-ok {ℓ κ} :
    {A : Type ℓ} {B : Type κ} (r : Result A) (f : A → Result B) (b : B)
    → (r >>= f) ≡ ok b
    → (a : A) × (r ≡ ok a) × (f a ≡ ok b)
bind-ok (ok a) f b h = (a, refl, h)
bind-ok (err e) f b h = cc (h)

pub unless-ok {ℓ} :
    {A : Type ℓ} (t : Bool) (e : Errno) (r : Result A) (a : A)
    → (if t then err e else r) ≡ ok a
    → (t ≡ false) × (r ≡ ok a)
unless-ok true e r a h = cc (h)
unless-ok false e r a h = (refl, h)

pub Result-cases {ℓ} :
    {A : Type ℓ} (r : Result A) → ((e : Errno) × (r ≡ err e)) ⊎ ((a : A) × (r ≡ ok a))
Result-cases (err e) = inl (e, refl)
Result-cases (ok a) = inr (a, refl)
