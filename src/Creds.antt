-- ===== src/Creds.antt =====
-- src/extension/fake_id0/fake_id0.c and config.h, without USERLAND: the user and group ids that the
-- extension keeps for a tracee, the system calls that it emulates on them, and what else depends on
-- them.
pub mod Change
pub mod Drop
use proot.Prelude.{
  ℕ, ◌+◌, ◌-◌, ◌*◌, ◌/◌, ◌%◌, ◌^◌, Bool, true, false, not, ◌&&◌, ◌||◌, Option, none, some, List, [],
  ◌∷◌, ◌==◌, if◌then◌else◌, Errno, eperm, eacces, Result, ok, err,
}

-- The real, effective, saved and file-system id, numbers of 32 bits: `ruid`, `euid`, `suid`, `fsuid`
-- are one such record, `rgid`, `egid`, `sgid`, `fsgid` another.
pub record Ids : Type 0 where
  pub real : ℕ
  pub effective : ℕ
  pub saved : ℕ
  pub fs : ℕ

-- The `Config` of config.h; its `umask` is only used with USERLAND.
pub record Config : Type 0 where
  pub uid : Ids
  pub gid : Ids

-- UNSET_ID
abbrev pub unset : ℕ → Bool
unset id = id == 2 ^ 32 - 1

-- UNCHANGED_ID, of an argument and the id that it is to replace
abbrev pub unchanged : ℕ → ℕ → Bool
unchanged id old = unset id || (id == old)

-- SETXID
unfoldable pub setxid : Bool → Ids → ℕ → Result Ids
setxid privileged i id =
    if not (privileged || (id == i.real) || (id == i.effective) || (id == i.saved))
    then err eperm
    else ok (record {
      real = if privileged then id else i.real;
      effective = id;
      saved = if privileged then id else i.saved;
      fs = id;
    })

abbrev rexid_allowed : Bool → Ids → ℕ → ℕ → Bool
rexid_allowed privileged i r e =
    privileged
    || (unchanged e i.effective && unchanged r i.real)
    || ((r == i.effective) && ((e == i.real) || unchanged e i.effective))
    || ((e == i.real) && ((r == i.effective) || unchanged r i.real))
    || ((e == i.saved) && unchanged r i.real)

abbrev rexid_effective : Ids → ℕ → Ids
rexid_effective i e =
    if unset e
    then i
    else record { real = i.real; effective = e; saved = if e == i.real then i.saved else e; fs = e }

abbrev rexid_real : Ids → ℕ → ℕ → Ids
rexid_real i r e = if unset r then i else record {
  real = r;
  effective = i.effective;
  saved = if unset e then i.saved else e;
  fs = i.fs;
}

-- SETREXID
unfoldable pub setrexid : Bool → Ids → ℕ → ℕ → Result Ids
setrexid privileged i r e =
    if not (rexid_allowed privileged i r e)
    then err eperm
    else ok (rexid_real (rexid_effective i e) r e)

-- EQUALS_ANY_ID
abbrev pub equals_any : Ids → ℕ → Bool
equals_any i id = (id == i.real) || (id == i.effective) || (id == i.saved)

-- SETRESXID
unfoldable pub setresxid : Bool → Ids → ℕ → ℕ → ℕ → Result Ids
setresxid privileged i r e s =
    if not (
      privileged
      || ((unset r || equals_any i r)
          && (unset e || equals_any i e)
          && (unset s || equals_any i s)))
    then err eperm
    else ok (record {
      real = if unset r then i.real else r;
      effective = if unset e then i.effective else e;
      saved = if unset s then i.saved else s;
      fs = if unset e then i.fs else e;
    })

-- SETFSXID, which never fails
unfoldable pub setfsxid : Bool → Ids → ℕ → Ids
setfsxid privileged i f =
    if privileged || (f == i.fs) || equals_any i f then record i { fs = f } else i

-- The emulated system calls, with their arguments, words that are cut to 32 bits.
pub data Call : Type 0 where
  setuid setgid setfsuid setfsgid : ℕ → Call
  setreuid setregid : ℕ → ℕ → Call
  setresuid setresgid : ℕ → ℕ → ℕ → Call
  getuid getgid geteuid getegid : Call

abbrev pub id_of : ℕ → ℕ
id_of word = word % 2 ^ 32

abbrev pub privileged : Config → Bool
privileged c = c.uid.effective == 0

-- The new ids of the user or of the group, and the result 0; an error leaves the configuration.
abbrev pub put_uid : Config → Result Ids → Config × Result ℕ
put_uid c (ok i) = (record c { uid = i }, ok 0)
put_uid c (err e) = (c, err e)

abbrev pub put_gid : Config → Result Ids → Config × Result ℕ
put_gid c (ok i) = (record c { gid = i }, ok 0)
put_gid c (err e) = (c, err e)

-- `handle_sysexit_end`, of these system calls: the configuration and the result behind one.
unfoldable pub handle_call : Config → Call → Config × Result ℕ
handle_call c (setuid id) = put_uid c (setxid (privileged c) c.uid (id_of id))
handle_call c (setgid id) = put_gid c (setxid (privileged c) c.gid (id_of id))
handle_call c (setreuid r e) = put_uid c (setrexid (privileged c) c.uid (id_of r) (id_of e))
handle_call c (setregid r e) = put_gid c (setrexid (privileged c) c.gid (id_of r) (id_of e))
handle_call c (setresuid r e s) =
    put_uid c (setresxid (privileged c) c.uid (id_of r) (id_of e) (id_of s))
handle_call c (setresgid r e s) =
    put_gid c (setresxid (privileged c) c.gid (id_of r) (id_of e) (id_of s))
handle_call c (setfsuid f) =
    (record c { uid = setfsxid (privileged c) c.uid (id_of f) }, ok c.uid.fs)
handle_call c (setfsgid f) =
    (record c { gid = setfsxid (privileged c) c.gid (id_of f) }, ok c.gid.fs)
handle_call c getuid = (c, ok c.uid.real)
handle_call c getgid = (c, ok c.gid.real)
handle_call c geteuid = (c, ok c.uid.effective)
handle_call c getegid = (c, ok c.gid.effective)

-- POKE_MEM_ID writes the low 16 bits of an id: what `handle_getresuid_exit_end` and
-- `handle_getresgid_exit_end` write at the three addresses.
unfoldable pub getresxid : Ids → List ℕ
getresxid i = i.real % 2 ^ 16 ∷ i.effective % 2 ^ 16 ∷ i.saved % 2 ^ 16 ∷ []

abbrev pub is_permission : Errno → Bool
is_permission eperm = true
is_permission eacces = true
is_permission _ = false

-- `handle_perm_err_exit_end`: the result of the system call behind it.
unfoldable pub handle_perm_err : Config → Bool → Result ℕ → Result ℕ
handle_perm_err c even_if_not_root (ok n) = ok n
handle_perm_err c even_if_not_root (err e) =
    if is_permission e && (even_if_not_root || privileged c) then ok 0 else err e

-- One vector of `struct ElfAuxVector`: a type, and a value.
pub data VectorType : Type 0 where
  at_uid at_euid at_gid at_egid : VectorType
  other_type : ℕ → VectorType

-- `adjust_elf_auxv`, over the vectors in front of AT_NULL.
unfoldable pub adjust_vector : Config → VectorType × ℕ → VectorType × ℕ
adjust_vector c (at_uid, v) = (at_uid, c.uid.real)
adjust_vector c (at_euid, v) = (at_euid, c.uid.effective)
adjust_vector c (at_gid, v) = (at_gid, c.gid.real)
adjust_vector c (at_egid, v) = (at_egid, c.gid.effective)
adjust_vector c (other_type t, v) = (other_type t, v)

unfoldable pub adjust_elf_auxv : Config → List (VectorType × ℕ) → List (VectorType × ℕ)
unfolding adjust_vector
adjust_elf_auxv c [] = []
adjust_elf_auxv c (v ∷ l) = adjust_vector c v ∷ adjust_elf_auxv c l
