-- ===== src/Sysnum.antt =====
-- The numbers of the system calls: src/syscall/sysnum.c. The tables of the ABIs
-- (src/syscall/sysnums-*.h) are data and a parameter.
pub mod Translate
use proot.Prelude.{
  ℕ, zero, suc, ◌+◌, ◌-◌, ◌^◌, Bool, Option, none, some, List, [], ◌∷◌, length, get_elem?, ltb,
  ◌==◌, if◌then◌else◌,
}
use proot.Tracee.{
  Abi, abi_default, abi_2, abi_3, Tracee, RegVersion, get_abi, peek_reg, poke_reg, sysarg_num,
}

abbrev pub pr_void : ℕ
pr_void = 0

abbrev pub pr_brk : ℕ
pr_brk = 27

abbrev pub pr_mmap : ℕ
pr_mmap = 189

abbrev pub pr_mmap2 : ℕ
pr_mmap2 = 190

abbrev pub pr_mremap : ℕ
pr_mremap = 202

-- The word -2.
abbrev pub syscall_avoider : ℕ
syscall_avoider = 2 ^ 64 - 2

-- `get_sysnums`: the offset of the numbers of an ABI. Its table is a parameter.
abbrev pub offset_of : Abi → ℕ
offset_of abi_default = 0
offset_of abi_2 = 0
offset_of abi_3 = 0x40000000

-- The loop of `detranslate_sysnum`.
unfoldable pub find_sysnum : List ℕ → ℕ → ℕ → ℕ → ℕ
find_sysnum [] sysnum i offset = syscall_avoider
find_sysnum (t ∷ table) sysnum i offset =
    let again = find_sysnum table sysnum (i + 1) offset in if t == sysnum then i + offset else again

module _ (table : Abi → List ℕ) where
  -- A read past the end of the table has no value.
  unfoldable pub translate_sysnum : Abi → ℕ → Option ℕ
  translate_sysnum abi sysnum =
      let index = sysnum - offset_of abi in
      if ltb sysnum (offset_of abi)
      then some pr_void
      else if ltb (length (table abi)) index
      then some pr_void
      else get_elem? (table abi) index

  unfoldable pub detranslate_sysnum : Abi → ℕ → ℕ
  detranslate_sysnum abi sysnum =
      if sysnum == pr_void
      then syscall_avoider
      else find_sysnum (table abi) sysnum 0 (offset_of abi)

  unfoldable pub get_sysnum : Tracee → RegVersion → Option ℕ
  get_sysnum tracee version = translate_sysnum (get_abi tracee) (peek_reg tracee version sysarg_num)

  unfoldable pub set_sysnum : Tracee → ℕ → Tracee
  set_sysnum tracee sysnum = poke_reg tracee sysarg_num (detranslate_sysnum (get_abi tracee) sysnum)
