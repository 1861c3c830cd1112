-- ===== src/Mem/Gather.antt =====
-- Writing several buffers one behind the other: their bytes, joined, are in the memory, by one call
-- of process_vm_writev(2) or buffer by buffer.
use proot.Prelude.{
  ℕ, ◌+◌, ◌≡◌, refl, ap, sym, ◌∙◌, inl, inr, List, [], ◌∷◌, length, Bool-cases, Result, ok, err,
}
use proot.Mem.{Kernel, write_data, and_next, write_buffers, writev_data, gathered}
use proot.Mem.Read.{written, IsFaithful}
use proot.Mem.Write.{written_ext, written-append, write_data-written}

-- A later write is reached only where the earlier one succeeded.
and_next-ok :
    {M : Type 0}
    → (r : M × Result (Unit {0})) (f : M → M × Result (Unit {0})) (m' : M)
    → and_next r f ≡ (m', ok tt)
    → (r ≡ (r.0, ok tt)) × (f r.0 ≡ (m', ok tt))
and_next-ok (m, ok u) f m' h = (refl, h)
and_next-ok (m, err e) f m' h = cc (h)

module _ {M : Type 0} (kernel : Kernel M) (byte : M → ℕ → ℕ) (k : IsFaithful kernel byte) where
  write_buffers-written :
      (m m' : M) (dest : ℕ) (buffers : List (List ℕ)) (x : ℕ)
      → write_buffers kernel m dest buffers ≡ (m', ok tt)
      → byte m' x ≡ written (byte m) dest (gathered buffers) x
  unfolding write_buffers gathered
  write_buffers-written m m' dest [] x h = unfold written in cc (h)
  write_buffers-written m m' dest (buffer ∷ l) x h =
      let first = write_data kernel m dest buffer in
      let both = and_next-ok first (λ n. write_buffers kernel n (dest + length buffer) l) m' h in
      write_buffers-written first.0 m' (dest + length buffer) l x both.1
      ∙ written_ext (byte first.0) (written (byte m) dest buffer) (dest + length buffer)
          (gathered l) x (λ y. write_data-written kernel byte k m first.0 dest buffer y both.0)
      ∙ written-append (byte m) dest buffer (gathered l) x

  -- Where `writev_data` succeeds, the bytes of the buffers, one buffer behind the other, are in the
  -- memory from the address on, and every other byte is as it was: by one call of
  -- process_vm_writev(2), or by `write_data` for each buffer.
  pub writev_data-written :
      (m m' : M) (dest : ℕ) (buffers : List (List ℕ)) (x : ℕ)
      → writev_data kernel m dest buffers ≡ (m', ok tt)
      → byte m' x ≡ written (byte m) dest (gathered buffers) x
  unfolding writev_data
  writev_data-written m m' dest buffers x h =
      let first = kernel.process_vm_writev m dest (gathered buffers) in
      elim (Bool-cases first.1) [
        | inl p ↦
            let same : first.0 ≡ m' = cc (rw (writev_data, p) at h) in
            ap (λ s. byte s x) (sym same) ∙ k.writes m dest (gathered buffers) x p
        | inr p ↦
            write_buffers-written first.0 m' dest buffers x (rw (writev_data, p) at h)
            ∙ k.fails m dest (gathered buffers) x p
      ]
