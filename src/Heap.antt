-- ===== src/Heap.antt =====
-- The heap that PRoot emulates with a memory mapping: src/syscall/heap.c.
pub mod Brk
use proot.Prelude.{
  ℕ, ◌+◌, ◌-◌, ◌%◌, ◌^◌, Bool, true, false, not, ◌&&◌, ◌||◌, Option, none, some, List, [], ◌∷◌, ltb,
  ◌==◌, if◌then◌else◌,
}
use proot.Tracee.{
  Abi, Tracee, Heap, Mapping, current, original, modified, get_abi, peek_reg, poke_reg, sysarg_1,
  sysarg_2, sysarg_3, sysarg_4, sysarg_5, sysarg_6, sysarg_result, word_modulus,
}
use proot.Sysnum.{
  detranslate_sysnum, get_sysnum, set_sysnum, syscall_avoider, pr_void, pr_brk, pr_mmap, pr_mmap2,
  pr_mremap,
}

abbrev pub prot_read_write : ℕ
prot_read_write = 3

abbrev pub map_private_anonymous : ℕ
map_private_anonymous = 0x22

abbrev pub minus_one : ℕ
minus_one = 2 ^ 64 - 1

-- The static `heap_offset`: the size of a page, set by the first call. `page_size` is the word that
-- sysconf(3) returns.
abbrev pub update_heap_offset : ℕ → ℕ → ℕ
update_heap_offset page_size heap_offset =
    let low = page_size % 2 ^ 32 in
    if not (heap_offset == 0)
    then heap_offset
    else if (low == 0) || not (ltb low (2 ^ 31))
    then 0x1000
    else page_size

-- The end of the last mapping; a program without a mapping has none.
abbrev pub end_of_bss : List Mapping → Option ℕ
end_of_bss [] = none
end_of_bss (m ∷ []) = some ((m.addr + m.map_length) % word_modulus)
end_of_bss (m ∷ n ∷ l) = end_of_bss (n ∷ l)

-- `(int) result` is the opposite of an error number.
abbrev pub is_error : ℕ → Bool
is_error result = ltb (2 ^ 32 - 4096) (result % 2 ^ 32)

module _ (table : Abi → List ℕ) where
  -- A new mapping for the heap is asked for.
  abbrev pub allocate : ℕ → Tracee → ℕ → Tracee
  allocate heap_offset tracee bss =
      let sysnum =
        if detranslate_sysnum table (get_abi tracee) pr_mmap2 == syscall_avoider
        then pr_mmap
        else pr_mmap2 in
      let t0 = set_sysnum table tracee sysnum in
      let t1 = poke_reg t0 sysarg_1 bss in
      let t2 = poke_reg t1 sysarg_2 heap_offset in
      let t3 = poke_reg t2 sysarg_3 prot_read_write in
      let t4 = poke_reg t3 sysarg_4 map_private_anonymous in
      let t5 = poke_reg t4 sysarg_5 minus_one in poke_reg t5 sysarg_6 0

  -- The mapping of the heap is resized.
  abbrev pub resize : ℕ → Tracee → ℕ → Tracee
  resize heap_offset tracee new_brk_address =
      let heap = tracee.heap in
      let new_heap_size = new_brk_address - heap.base in
      let t0 = set_sysnum table tracee pr_mremap in
      let t1 = poke_reg t0 sysarg_1 ((heap.base + word_modulus - heap_offset) % word_modulus) in
      let t2 = poke_reg t1 sysarg_2 ((heap.size + heap_offset) % word_modulus) in
      let t3 = poke_reg t2 sysarg_3 ((new_heap_size + heap_offset) % word_modulus) in
      let t4 = poke_reg t3 sysarg_4 0 in poke_reg t4 sysarg_5 0

  -- The registers, with the heap offset of this call.
  abbrev pub enter_brk : ℕ → Tracee → Option Tracee
  enter_brk heap_offset tracee =
      let new_brk_address = peek_reg tracee current sysarg_1 in
      if tracee.heap.base == 0
      then if not (new_brk_address == 0) then some tracee else elim (end_of_bss tracee.mappings) [
        | none ↦ none
        | some bss ↦ some (allocate heap_offset tracee bss)
      ]
      else if ltb new_brk_address tracee.heap.base
      then some (set_sysnum table tracee pr_void)
      else some (resize heap_offset tracee new_brk_address)

  -- The new `heap_offset` and the new tracee.
  unfoldable pub translate_brk_enter : ℕ → ℕ → Tracee → ℕ × Option Tracee
  translate_brk_enter page_size heap_offset tracee =
      let offset = update_heap_offset page_size heap_offset in
      if tracee.heap.disabled then (heap_offset, some tracee) else (offset, enter_brk offset tracee)

  abbrev pub brk_address : Heap → ℕ
  brk_address heap = (heap.base + heap.size) % word_modulus

  abbrev pub with_heap : Tracee → Heap → Tracee
  with_heap tracee heap = poke_reg (record tracee { heap = heap }) sysarg_result (brk_address heap)

  -- The cases of the switch on the system call that was made.
  unfoldable pub exit_brk : ℕ → Tracee → ℕ → Option Tracee
  exit_brk heap_offset tracee sysnum =
      let result = peek_reg tracee current sysarg_result in
      let heap = tracee.heap in
      let base = (result + heap_offset) % word_modulus in
      let size = (peek_reg tracee modified sysarg_3 + word_modulus - heap_offset) % word_modulus in
      if sysnum == pr_void
      then some (with_heap tracee heap)
      else if (sysnum == pr_mmap) || (sysnum == pr_mmap2)
      then if is_error result
        then some (poke_reg tracee sysarg_result 0)
        else some (with_heap tracee (record heap { base = base; size = 0 }))
      else if sysnum == pr_mremap
      then if is_error result || not (heap.base == base)
        then some (with_heap tracee heap)
        else some (with_heap tracee (record heap { size = size }))
      else if sysnum == pr_brk
      then if result == peek_reg tracee original sysarg_1
        then some (record tracee { heap = record heap { disabled = true } })
        else some tracee
      else none

  -- `none` is a failed assertion, or a number of a system call that cannot be read.
  unfoldable pub translate_brk_exit : ℕ → Tracee → Option Tracee
  translate_brk_exit heap_offset tracee =
      if tracee.heap.disabled
      then some tracee
      else if heap_offset == 0
      then none
      else elim (get_sysnum table tracee modified) [
        | none ↦ none
        | some sysnum ↦ exit_brk heap_offset tracee sysnum
      ]
