-- ===== src/Channel/WriteSteps.antt =====
-- The producer's steps keep the invariant.
use tx_queue.Base.{
  ℕ, ◌+◌, ◌%◌, ◌≤◌, ◌≡◌, refl, sym, ap, ◌∙◌, inl, inr, true, false, ◌++◌, some, arith, length,
  length-append, append_assoc, Bool-cases,
}
use tx_queue.Memory.Ring.{ring}
use tx_queue.Queue.{BaseTxQueue, IsReady}
use tx_queue.Write
use tx_queue.Write.{
  TxWrite, WriteLoads, Written, begin_write, imp_write, available_space, end_write,
}
use tx_queue.Write.Laws.{IsWriting}
use tx_queue.Channel.{System, HeadLoad, opened_write, dropped_write, closed_write}
use tx_queue.Channel.Invariant.{Inv, AllUpTo-le, le_of_IsIn, WriterStands, ring-join}

-- A call of `write` that changed no memory and leaves a transaction that will not commit.
pub record NotWritten (s : System) (r : Written) : Type 0 where
  pub failed : r.ok ≡ false
  pub same : r.memory ≡ s.memory
  pub bad : r.tx.invalidated ≡ true

module _ {q : BaseTxQueue} (ready : IsReady q) {s : System} (inv : Inv q s) where
  open inv use {counts, contents}

  -- A load of the head gives a position between the one loaded before and the committed one.
  pub seen_bounds : {seen : ℕ} → HeadLoad s seen → (s.head_seen ≤ seen) × (seen ≤ length s.received)
  seen_bounds load = (load.not_older, le_of_IsIn s.heads inv.heads_in load.was_stored)

  -- A valid transaction that is open stands behind the pending bytes.
  pub stands :
      (tx : TxWrite)
      → s.writer ≡ some tx
      → tx.invalidated ≡ false
      → IsWriting q s.head_seen (length s.sent + length s.pending) tx
  stands tx open_tx good =
      let at : WriterStands q s.head_seen (length s.sent + length s.pending) (some tx) =
        rw open_tx at (inv.writer_at) in
      at good

  pub lengths : length s.sent ≡ length s.received + (length s.taken + length contents.left)
  lengths =
      ap length contents.split
      ∙ length-append s.received (s.taken ++ contents.left)
      ∙ ap (λ t. length s.received + t) (length-append s.taken contents.left)

  behind_left : length s.received + length s.taken + length contents.left ≡ length s.sent
  behind_left = omega (arith, lengths)

  pub opened_write-Inv : (seen : ℕ) → HeadLoad s seen → Inv q (opened_write q s seen)
  unfolding begin_write
  opened_write-Inv seen load = record {
    tail_at = inv.tail_at;
    head_at = inv.head_at;
    tails_in = inv.tails_in;
    heads_in = inv.heads_in;
    counts = omega (arith, counts, seen_bounds load);
    contents = record {
      left = contents.left;
      split = contents.split;
      taken_stored = contents.taken_stored;
      left_stored = contents.left_stored;
      pending_stored = refl;
    };
    writer_at = λ valid. record {
      same_storage = refl;
      same_capacity = refl;
      at_tail = inv.tail_at ∙ ap (λ t. t % q.capacity) (omega arith);
      at_head = refl;
      behind = omega (arith, counts, seen_bounds load);
      room = omega (arith, counts, seen_bounds load);
    };
    reader_at = inv.reader_at;
  }

  pub dropped_write-Inv : (tx : TxWrite) → Inv q (dropped_write q s tx)
  unfolding Write.invalidate
  dropped_write-Inv tx = record {
    tail_at = inv.tail_at;
    head_at = inv.head_at;
    tails_in = inv.tails_in;
    heads_in = inv.heads_in;
    counts = counts;
    contents = contents;
    writer_at = λ valid. cc;
    reader_at = inv.reader_at;
  }

  pub closed_write-Inv : (tx : TxWrite) → s.writer ≡ some tx → Inv q (closed_write q s tx)
  closed_write-Inv tx open_tx = elim (Bool-cases tx.invalidated) [
    | inl bad ↦ aborted bad
    | inr good ↦ committed good
  ]
    where
      aborted : tx.invalidated ≡ true → Inv q (closed_write q s tx)
      aborted bad =
          unfold end_write in
          rw bad (record {
            tail_at = inv.tail_at;
            head_at = inv.head_at;
            tails_in = inv.tails_in;
            heads_in = inv.heads_in;
            counts = omega (arith, counts);
            contents = record {
              left = contents.left;
              split = contents.split;
              taken_stored = contents.taken_stored;
              left_stored = contents.left_stored;
              pending_stored = refl;
            };
            writer_at = tt;
            reader_at = inv.reader_at;
          })

      committed : tx.invalidated ≡ false → Inv q (closed_write q s tx)
      committed good =
          unfold end_write in
          rw good (record {
            tail_at =
                (stands tx open_tx good).at_tail
                ∙ ap (λ t. t % q.capacity) (sym (length-append s.sent s.pending));
            head_at = inv.head_at;
            tails_in = (
              omega arith,
              AllUpTo-le s.tails (omega (arith, length-append s.sent s.pending)) inv.tails_in,
            );
            heads_in = inv.heads_in;
            counts = omega (arith, counts, length-append s.sent s.pending);
            contents = record {
              left = contents.left ++ s.pending;
              split =
                  ap (λ t. t ++ s.pending) contents.split
                  ∙ append_assoc s.received (s.taken ++ contents.left) s.pending
                  ∙ ap (λ t. s.received ++ t) (append_assoc s.taken contents.left s.pending);
              taken_stored = contents.taken_stored;
              left_stored =
                  ring-join q.storage q.capacity s.memory (length s.received + length s.taken)
                    contents.left s.pending contents.left_stored
                    (ap (λ t. ring q.storage q.capacity s.memory t (length s.pending)) behind_left
                      ∙ contents.pending_stored);
              pending_stored = refl;
            };
            writer_at = tt;
            reader_at = inv.reader_at;
          })
