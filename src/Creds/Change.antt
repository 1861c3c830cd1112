-- ===== src/Creds/Change.antt =====
-- What one call changes: the ids of setreuid(2) and setresuid(2).
use proot.Prelude.{
  ℕ, ◌-◌, ◌^◌, ◌≡◌, Bool, true, false, not, ◌&&◌, ◌||◌, ◌==◌, if◌then◌else◌, arith, ok,
}
use proot.Creds.{Ids, unset, setresxid, setrexid}

-- Where `setreuid` succeeds, the real and the effective id are those asked for, or as they were for
-- -1; the saved one is the new effective one if that is given and differs from the old real one, or
-- if both are given, and is as it was otherwise, also where only the real id is given.
pub setrexid_lem :
    (p : Bool) (i j : Ids) (r e : ℕ)
    → setrexid p i r e ≡ ok j
    → (j.real ≡ (if unset r then i.real else r))
      × (j.effective ≡ (if unset e then i.effective else e))
      × (j.saved ≡ (if not (unset e) && (not (unset r) || not (e == i.real)) then e else i.saved))
      × (j.fs ≡ (if unset e then i.fs else e))
unfolding setrexid
setrexid_lem p i j r e h = ground arith

-- The effective id of a tracee whose real or saved id is the old effective one can be changed by
-- `setresuid` to one that is allowed and back: all ids are then as at first, but for the id of the
-- file-system, which is the effective one.
setresxid_back :
    (p q : Bool) (i j : Ids) (e : ℕ)
    → unset e ≡ false
    → unset i.effective ≡ false
    → ((i.effective == i.real) || (i.effective == i.saved)) ≡ true
    → setresxid p i (2 ^ 32 - 1) e (2 ^ 32 - 1) ≡ ok j
    → setresxid q j (2 ^ 32 - 1) i.effective (2 ^ 32 - 1) ≡ ok (record i { fs = i.effective })
unfolding setresxid
setresxid_back p q i j e u v s h = ground arith
