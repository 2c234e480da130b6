-- ===== src/Read/Copy.antt =====
-- The one or two copies of `imp_read` take the bytes at consecutive positions of the ring.
use tx_queue.Base.{
  ℕ, ◌+◌, ◌-◌, ◌%◌, ◌^◌, ◌≤◌, ◌<◌, ◌≡◌, sym, ap, ap₂, ◌∙◌, Bool, ◌++◌, arith, ltb, ltb→lt, ltb→le,
  Bool-cases, inl, inr,
}
use native.Mathlib.Nat.{mod-lt}
use tx_queue.Words.{add64, sub64}
use tx_queue.Words.Modular.{mod-add_wrap}
use tx_queue.Memory.{Memory, memcpy_from}
use tx_queue.Memory.Ring.{ring, ring-append, memcpy_from-eq-ring}
use tx_queue.Read.{TxRead, copy_out}

module _ (base capacity p : ℕ) (small : capacity ≤ 2 ^ 63) (m : Memory) (size : ℕ)
    (fits : size < capacity) where
  head_in : p % capacity < capacity
  head_in = mod-lt p (omega arith)

  abbrev first_chunk : ℕ
  first_chunk = capacity - p % capacity

  -- The two copies, when the data passes the end of the storage.
  two_copies :
      capacity < p % capacity + size
      → memcpy_from m (base + p % capacity) first_chunk ++ memcpy_from m base (size - first_chunk)
        ≡ ring base capacity m p size
  two_copies over =
      ap₂ ◌++◌ (memcpy_from-eq-ring base capacity m p first_chunk (omega (arith, head_in))) (
        ap (λ t. memcpy_from m t (size - first_chunk)) wraps
        ∙ memcpy_from-eq-ring base capacity m (p + first_chunk) (size - first_chunk)
            (omega (arith, wraps)))
      ∙ sym (ring-append base capacity m p first_chunk (size - first_chunk))
      ∙ ap (ring base capacity m p) whole
    where
      whole : first_chunk + (size - first_chunk) ≡ size
      whole = omega (arith, head_in)

      wraps : base ≡ base + (p + first_chunk) % capacity
      wraps = omega (
        arith,
        head_in,
        mod-add_wrap capacity p first_chunk (omega (arith, head_in)) (omega (arith, head_in)),
      )

  -- What `imp_read` copies are the bytes at the positions from `p` on.
  pub copy_out-eq-ring :
      (tx : TxRead)
      → tx.storage ≡ base
      → tx.capacity ≡ capacity
      → tx.head ≡ p % capacity
      → copy_out tx m size ≡ ring base capacity m p size
  unfolding copy_out
  copy_out-eq-ring tx es ec et =
      rw (es, ec, et)
        (elim (Bool-cases test) [
          | inl over ↦
              let passes : capacity < p % capacity + size =
                omega (arith, head_in, ltb→lt _ _ over) in
              rw over (
                ap₂ (λ s t. memcpy_from m (base + p % capacity) s ++ memcpy_from m base t) chunk
                  (rest passes)
                ∙ two_copies passes)
          | inr inside ↦ rw inside (
              memcpy_from-eq-ring base capacity m p size
                (omega (arith, head_in, ltb→le _ _ inside)))
        ])
    where
      test : Bool
      test = ltb capacity (add64 (p % capacity) size)

      chunk : sub64 capacity (p % capacity) ≡ first_chunk
      chunk = omega (arith, head_in)

      rest :
          capacity < p % capacity + size
          → sub64 size (sub64 capacity (p % capacity)) ≡ size - first_chunk
      rest over = omega (arith, head_in)
