-- ===== src/Channel/ReadSteps.antt =====
-- The consumer's steps keep the invariant.
use tx_queue.Base.{
  ℕ, ◌+◌, ◌%◌, ◌≤◌, ◌≡◌, refl, sym, ap, ◌∙◌, inl, inr, true, false, ◌++◌, some, arith, length,
  length-append, append_assoc, [], Bool-cases,
}
use tx_queue.Memory.Ring.{ring}
use tx_queue.Queue.{BaseTxQueue, IsReady}
use tx_queue.Read
use tx_queue.Read.{
  TxRead, ReadLoads, ReadOut, begin_read, imp_read, read_data, available_data, end_read,
}
use tx_queue.Read.Laws.{IsReading}
use tx_queue.Channel.{System, TailLoad, opened_read, dropped_read, closed_read}
use tx_queue.Channel.Invariant.{Inv, AllUpTo-le, le_of_IsIn, ReaderStands, ring-join}

-- A call of `read` that leaves a transaction that will not commit.
pub record NotRead (r : ReadOut) : Type 0 where
  pub failed : r.ok ≡ false
  pub bad : r.tx.invalidated ≡ true

module _ {q : BaseTxQueue} (ready : IsReady q) {s : System} (inv : Inv q s) where
  open inv use {counts, contents}

  -- A load of the tail gives a position between the one loaded before and the committed one.
  pub tail_bounds : {seen : ℕ} → TailLoad s seen → (s.tail_seen ≤ seen) × (seen ≤ length s.sent)
  tail_bounds load = (load.not_older, le_of_IsIn s.tails inv.tails_in load.was_stored)

  -- A valid transaction that is open stands behind the bytes taken.
  pub stands :
      (tx : TxRead)
      → s.reader ≡ some tx
      → tx.invalidated ≡ false
      → IsReading q s.tail_seen (length s.received + length s.taken) tx
  stands tx open_tx good =
      let at : ReaderStands q s.tail_seen (length s.received + length s.taken) (some tx) =
        rw open_tx at (inv.reader_at) in
      at good

  pub lengths : length s.sent ≡ length s.received + (length s.taken + length contents.left)
  lengths =
      ap length contents.split
      ∙ length-append s.received (s.taken ++ contents.left)
      ∙ ap (λ t. length s.received + t) (length-append s.taken contents.left)

  -- The bytes taken and those left, together.
  pub together :
      ring q.storage q.capacity s.memory (length s.received) (length (s.taken ++ contents.left))
      ≡ s.taken ++ contents.left
  together =
      ring-join q.storage q.capacity s.memory (length s.received) s.taken contents.left
        contents.taken_stored contents.left_stored

  pub opened_read-Inv : (seen : ℕ) → TailLoad s seen → Inv q (opened_read q s seen)
  unfolding begin_read
  opened_read-Inv seen load = record {
    tail_at = inv.tail_at;
    head_at = inv.head_at;
    tails_in = inv.tails_in;
    heads_in = inv.heads_in;
    counts = omega (arith, counts, tail_bounds load);
    contents = record {
      left = s.taken ++ contents.left;
      split = contents.split;
      taken_stored = refl;
      left_stored = rw none_taken together;
      pending_stored = contents.pending_stored;
    };
    writer_at = inv.writer_at;
    reader_at = λ valid. record {
      same_storage = refl;
      same_capacity = refl;
      at_head = inv.head_at ∙ ap (λ t. t % q.capacity) (sym none_taken);
      at_tail = refl;
      behind = omega (arith, counts, tail_bounds load);
      within = omega (arith, counts, tail_bounds load);
    };
  }
    where
      none_taken : length s.received + length {A = ℕ} [] ≡ length s.received
      none_taken = omega arith

  pub dropped_read-Inv : (tx : TxRead) → Inv q (dropped_read q s tx)
  unfolding Read.invalidate
  dropped_read-Inv tx = record {
    tail_at = inv.tail_at;
    head_at = inv.head_at;
    tails_in = inv.tails_in;
    heads_in = inv.heads_in;
    counts = counts;
    contents = contents;
    writer_at = inv.writer_at;
    reader_at = λ valid. cc;
  }

  pub closed_read-Inv : (tx : TxRead) → s.reader ≡ some tx → Inv q (closed_read q s tx)
  closed_read-Inv tx open_tx = elim (Bool-cases tx.invalidated) [
    | inl bad ↦ aborted bad
    | inr good ↦ committed good
  ]
    where
      none_taken : length s.received + length {A = ℕ} [] ≡ length s.received
      none_taken = omega arith

      aborted : tx.invalidated ≡ true → Inv q (closed_read q s tx)
      aborted bad =
          unfold end_read in
          rw bad (record {
            tail_at = inv.tail_at;
            head_at = inv.head_at;
            tails_in = inv.tails_in;
            heads_in = inv.heads_in;
            counts = omega (arith, counts);
            contents = record {
              left = s.taken ++ contents.left;
              split = contents.split;
              taken_stored = refl;
              left_stored = rw none_taken together;
              pending_stored = contents.pending_stored;
            };
            writer_at = inv.writer_at;
            reader_at = tt;
          })

      further : length (s.received ++ s.taken) ≡ length s.received + length s.taken
      further = length-append s.received s.taken

      here : length (s.received ++ s.taken) + length {A = ℕ} [] ≡ length s.received + length s.taken
      here = omega (arith, further)

      committed : tx.invalidated ≡ false → Inv q (closed_read q s tx)
      committed good =
          unfold end_read in
          rw good (record {
            tail_at = inv.tail_at;
            head_at = (stands tx open_tx good).at_head ∙ ap (λ t. t % q.capacity) (sym further);
            tails_in = inv.tails_in;
            heads_in = (omega arith, AllUpTo-le s.heads (omega (arith, further)) inv.heads_in);
            counts = omega (arith, counts, further);
            contents = record {
              left = contents.left;
              split = contents.split ∙ sym (append_assoc s.received s.taken contents.left);
              taken_stored = refl;
              left_stored = rw here contents.left_stored;
              pending_stored = contents.pending_stored;
            };
            writer_at = inv.writer_at;
            reader_at = tt;
          })
