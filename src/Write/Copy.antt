-- ===== src/Write/Copy.antt =====
-- The one or two copies of `imp_write` put the buffer at consecutive positions of the ring.
use tx_queue.Base.{
  ℕ, ◌+◌, ◌-◌, ◌%◌, ◌^◌, ◌≤◌, ◌<◌, ◌≡◌, sym, ap, ◌∙◌, Bool, List, arith, ltb, ltb→lt, ltb→le,
  Bool-cases, inl, inr, length, take, drop, length-take, length-drop, take-append-drop,
}
use native.Mathlib.Nat.{mod-lt}
use tx_queue.Words.{add64, sub64}
use tx_queue.Words.Modular.{mod-add_wrap}
use tx_queue.Memory.{Memory, memcpy_to}
use tx_queue.Memory.Ring.{ring_put, ring_put-append, memcpy_to-eq-ring_put}
use tx_queue.Write.{TxWrite, copy_in}

module _ (base capacity p : ℕ) (small : capacity ≤ 2 ^ 63) (m : Memory) (buffer : List ℕ)
    (fits : length buffer < capacity) where
  tail_in : p % capacity < capacity
  tail_in = mod-lt p (omega arith)

  abbrev first_chunk : ℕ
  first_chunk = capacity - p % capacity

  module _ (over : capacity < p % capacity + length buffer) where
    first_full : length (take first_chunk buffer) ≡ first_chunk
    first_full = omega (arith, length-take first_chunk buffer)

    wraps : base ≡ base + (p + length (take first_chunk buffer)) % capacity
    wraps = omega (
      arith,
      tail_in,
      ap (λ t. (p + t) % capacity) first_full,
      mod-add_wrap capacity p first_chunk (omega (arith, tail_in)) (omega (arith, tail_in)),
    )

    -- The two copies, when the buffer passes the end of the storage.
    two_copies :
        memcpy_to
          (memcpy_to m (base + p % capacity) (take first_chunk buffer))
          base
          (drop first_chunk buffer)
        ≡ ring_put base capacity m p buffer
    two_copies =
        ap (λ t. memcpy_to t base (drop first_chunk buffer)) first
        ∙ ap (λ t. memcpy_to after_first t (drop first_chunk buffer)) wraps
        ∙ memcpy_to-eq-ring_put base capacity after_first next (drop first_chunk buffer) second_fits
        ∙ sym
            (ring_put-append base capacity m p (take first_chunk buffer) (drop first_chunk buffer))
        ∙ ap (ring_put base capacity m p) (take-append-drop first_chunk buffer)
      where
        next : ℕ
        next = p + length (take first_chunk buffer)

        after_first : Memory
        after_first = ring_put base capacity m p (take first_chunk buffer)

        first : memcpy_to m (base + p % capacity) (take first_chunk buffer) ≡ after_first
        first =
            memcpy_to-eq-ring_put base capacity m p (take first_chunk buffer)
              (omega (arith, first_full, tail_in))

        second_fits : next % capacity + length (drop first_chunk buffer) ≤ capacity
        second_fits = omega (arith, wraps, length-drop first_chunk buffer)

  -- What `imp_write` copies is the buffer at the positions from `p` on.
  pub copy_in-eq-ring_put :
      (tx : TxWrite)
      → tx.storage ≡ base
      → tx.capacity ≡ capacity
      → tx.tail ≡ p % capacity
      → copy_in tx m buffer ≡ ring_put base capacity m p buffer
  unfolding copy_in
  copy_in-eq-ring_put tx es ec et =
      rw (es, ec, et)
        (elim (Bool-cases test) [
          | inl over ↦ rw over (
              ap
                (λ t.
                  memcpy_to (memcpy_to m (base + p % capacity) (take t buffer)) base
                    (drop t buffer))
                chunk
              ∙ two_copies (omega (arith, tail_in, ltb→lt _ _ over)))
          | inr inside ↦ rw inside (
              memcpy_to-eq-ring_put base capacity m p buffer
                (omega (arith, tail_in, ltb→le _ _ inside)))
        ])
    where
      test : Bool
      test = ltb capacity (add64 (p % capacity) (length buffer))

      chunk : sub64 capacity (p % capacity) ≡ first_chunk
      chunk = omega (arith, tail_in)
