-- ===== src/Mem.antt =====
-- src/tracee/mem.c for 64-bit words, with HAVE_PROCESS_VM and without HAS_POKEDATA_WORKAROUND: copying
-- to and from the memory of a tracee, by one call of process_vm_writev(2) or process_vm_readv(2),
-- and word by word through ptrace(2) where that fails.
pub mod Write
pub mod Text
pub mod Gather
pub mod Read
use Prim.Native.Nat.{min}
use proot.Prelude.{
  ℕ, zero, suc, ◌+◌, ◌-◌, ◌*◌, ◌/◌, ◌%◌, ltb, Bool, true, false, Option, none, some, List, [], ◌∷◌,
  ◌++◌, length, take, drop, ◌==◌, if◌then◌else◌, efault, Result, ok, err,
}

-- The calls of the kernel, in a state `M` that holds the memory of the tracee. A word is the list of
-- its 8 bytes in the order of their addresses. `none` is an error; an error may leave another state.
pub record Kernel (M : Type 0) : Type 0 where
  pub process_vm_writev : M → ℕ → List ℕ → M × Bool
  pub process_vm_readv : M → ℕ → ℕ → Option (List ℕ)
  pub pokedata : M → ℕ → List ℕ → M × Bool
  pub peekdata : M → ℕ → Option (List ℕ)

-- Whether a byte ends a string.
unfoldable pub index_of_nul : List ℕ → Option ℕ
index_of_nul [] = none
index_of_nul (b ∷ l) =
    let later = elim (index_of_nul l) as (λ _. Option ℕ) [ none ↦ none | some j ↦ some (j + 1) ] in
    if b == 0 then some 0 else later

-- The bytes of the buffers, as process_vm_writev(2) gathers them.
unfoldable pub gathered : List (List ℕ) → List ℕ
gathered [] = []
gathered (buffer ∷ l) = buffer ++ gathered l

-- What follows a write that succeeded.
abbrev pub and_next :
    {M : Type 0} → M × Result (Unit {0}) → (M → M × Result (Unit {0})) → M × Result (Unit {0})
and_next (m, ok _) f = f m
and_next (m, err e) f = (m, err e)

module _ {M : Type 0} (kernel : Kernel M) where
  -- The bytes that are copied over the beginning of the last word.
  unfoldable pub poke_trailing : M → ℕ → List ℕ → M × Result (Unit {0})
  poke_trailing m dest bytes = elim (kernel.peekdata m dest) [
    | none ↦ (m, err efault)
    | some word ↦
        let poked = kernel.pokedata m dest (bytes ++ drop (length bytes) word) in
        (poked.0, if poked.1 then ok tt else err efault)
  ]

  -- The words of `write_data` behind its call of process_vm_writev(2).
  unfoldable pub poke_words : M → ℕ → List ℕ → M × Result (Unit {0})
  poke_words m dest [] = (m, ok tt)
  poke_words m dest (b0 ∷ b1 ∷ b2 ∷ b3 ∷ b4 ∷ b5 ∷ b6 ∷ b7 ∷ l) =
      let poked = kernel.pokedata m dest (b0 ∷ b1 ∷ b2 ∷ b3 ∷ b4 ∷ b5 ∷ b6 ∷ b7 ∷ []) in
      let rest = poke_words poked.0 (dest + 8) l in if poked.1 then rest else (poked.0, err efault)
  poke_words m dest l = poke_trailing m dest l

  unfoldable pub write_data : M → ℕ → List ℕ → M × Result (Unit {0})
  write_data m dest bytes =
      let written = kernel.process_vm_writev m dest bytes in
      if written.1 then (written.0, ok tt) else poke_words written.0 dest bytes

  -- The loop of `writev_data` over the buffers.
  unfoldable pub write_buffers : M → ℕ → List (List ℕ) → M × Result (Unit {0})
  write_buffers m dest [] = (m, ok tt)
  write_buffers m dest (buffer ∷ l) =
      and_next (write_data m dest buffer) λ n. write_buffers n (dest + length buffer) l

  unfoldable pub writev_data : M → ℕ → List (List ℕ) → M × Result (Unit {0})
  writev_data m dest buffers =
      let written = kernel.process_vm_writev m dest (gathered buffers) in
      if written.1 then (written.0, ok tt) else write_buffers written.0 dest buffers

  -- The `full` words of `read_data` and `read_string`, and then the bytes behind them.
  unfoldable pub peek_words : M → ℕ → ℕ → Option (List ℕ)
  peek_words m src zero = some []
  peek_words m src (suc full) = elim (kernel.peekdata m src) as (λ _. Option (List ℕ)) [
    | none ↦ none
    | some word ↦ elim (peek_words m (src + 8) full) as (λ _. Option (List ℕ)) [
      | none ↦ none
      | some l ↦ some (word ++ l)
    ]
  ]

  read_words : M → ℕ → ℕ → ℕ → Result (List ℕ)
  read_words m src full trailing = elim (peek_words m src full) [
    | none ↦ err efault
    | some words ↦ if trailing == 0 then ok words else elim (kernel.peekdata m (src + 8 * full)) [
      | none ↦ err efault
      | some word ↦ ok (words ++ take trailing word)
    ]
  ]

  -- The bytes that `read_data` stores where it succeeds.
  unfoldable pub read_data : M → ℕ → ℕ → Result (List ℕ)
  unfolding read_words
  read_data m src size = elim (kernel.process_vm_readv m src size) [
    | some l ↦ ok l
    | none ↦ read_words m src (size / 8) (size % 8)
  ]

  -- `read_string` behind the label `fallback`: the number that it returns.
  unfoldable pub string_words : M → ℕ → ℕ → ℕ → Result ℕ
  string_words m src zero trailing = elim (kernel.peekdata m src) [
    | none ↦ err efault
    | some word ↦ elim (index_of_nul (take trailing word)) [
      | none ↦ ok (trailing + 1)
      | some j ↦ ok (j + 1)
    ]
  ]
  string_words m src (suc full) trailing = elim (kernel.peekdata m src) [
    | none ↦ err efault
    | some word ↦ elim (index_of_nul word) [
      | some j ↦ ok (j + 1)
      | none ↦ elim (string_words m (src + 8) full trailing) [ err e ↦ err e | ok n ↦ ok (8 + n) ]
    ]
  ]

  -- The loop over chunks, from an offset on; `none` goes to the label `fallback`. One of the fuel is
  -- used for each chunk, and a chunk has a byte at least.
  unfoldable pub string_chunks : ℕ → M → ℕ → ℕ → ℕ → ℕ → Option ℕ
  string_chunks zero m chunk_size src offset max_size = none
  string_chunks (suc fuel) m chunk_size src offset max_size =
      let size = min (chunk_size - (src + offset) % chunk_size) (max_size - offset) in
      let later = string_chunks fuel m chunk_size src (offset + size) max_size in
      elim (kernel.process_vm_readv m (src + offset) size) as (λ _. Option ℕ) [
        | none ↦ none
        | some l ↦ elim (index_of_nul l) as (λ _. Option ℕ) [
          | some j ↦ some (offset + j + 1)
          | none ↦ if ltb (offset + size) max_size then later else none
        ]
      ]

  unfoldable pub read_string : ℕ → M → ℕ → ℕ → Result ℕ
  read_string chunk_size m src max_size =
      elim (string_chunks (max_size + 1) m chunk_size src 0 max_size) as (λ _. Result ℕ) [
        | some n ↦ ok n
        | none ↦ string_words m src (max_size / 8) (max_size % 8)
      ]
