-- ===== src/Jobs/Run/ReadTurn.antt =====
-- From any state of a run, the steps of the consumer's job up to the end of its transaction.
use tx_queue.Base.{
  ℕ, ◌+◌, ◌≤◌, ◌<◌, ◌≡◌, refl, sym, ap, ◌∙◌, inl, inr, List, ◌++◌, arith, length, length-append,
  Bool-cases, replicate,
}
use tx_queue.Memory.{Memory}
use tx_queue.Queue.{BaseTxQueue, IsReady}
use tx_queue.Read.{begin_read}
use tx_queue.Channel.Safety.{Reach-Inv, received_in_order}
use tx_queue.Jobs.{quits, window}
use tx_queue.Jobs.Run.{
  awaiting, reading_size, reading_chunk, closing_read, Run, after_read_turn, open_read_turn,
  read_size, read_chunk, close_read_turn, begun, further,
}
use tx_queue.Jobs.Run.Parts.{gets}
use tx_queue.Jobs.Run.Invariant.{Setup, RunInv, reader_at, receiving_at, job_in_order}
use tx_queue.Jobs.Run.Intake.{marks-fit, chunk_there, size_there}
use tx_queue.Jobs.Run.Counting.{closed-received, length-window}
use tx_queue.Jobs.Run.Steps.{RunStep-RunInv}
use tx_queue.Jobs.Run.Pauses.{HasReader, latest_tail, newest, did_read-HasReader, Paused, behind}

module _ {S : Type 0} (update : S → List ℕ → S) {q : BaseTxQueue} (ready : IsReady q) (m : Memory)
    {low high : ℕ} (h : S) {src_data : List ℕ} (setup : Setup low high src_data) where
  abbrev Kept : Run S → Type 0
  Kept r = RunInv update q m low high h src_data r

  pub pause_closing :
      {r : Run S} (size : ℕ)
      → Kept r
      → r.receive_pc ≡ closing_read size
      → Paused update q low high r (HasReader r.system)
  pause_closing {r} size inv at =
      let (tx, open_tx, had) = reader_at update inv (closing_read size) at in
      record {
        after = after_read_turn update q r tx size;
        run = further begun (close_read_turn tx size at open_tx);
        pauses = elim (Bool-cases (quits size tx)) [
          | inl ends ↦ rw ends tt
          | inr goes_on ↦ rw goes_on tt
        ];
        same_transmit_pc = refl;
        same_transmit = refl;
        same_sent = refl;
        gains = λ g.
            let (tx', same, good') = g in
            let e : tx' ≡ tx = cc in
            let good = ap (λ t. t.invalidated) (sym e) ∙ good' in
            let taken = had good in
            omega (
              arith,
              ap length (closed-received q r.system tx good),
              length-append r.system.received r.system.taken,
              ap length taken.taken_eq,
              length-append taken.first taken.bytes,
              taken.eight,
            );
      }

  pub pause_reading_chunk :
      {r : Run S} (size : ℕ)
      → Kept r
      → r.receive_pc ≡ reading_chunk size
      → Paused update q low high r (HasReader r.system)
  pause_reading_chunk {r} size inv at =
      let (tx, open_tx, had) = reader_at update inv (reading_chunk size) at in
      let st =
        read_chunk tx (newest ready inv.reach) (length r.system.sent) size at open_tx
          (latest_tail ready inv.reach) (Reach-Inv ready inv.reach).tail_at in
      behind update q low high st refl refl refl refl
        (λ g.
          let (tx', same, good) = g in
          let e : tx' ≡ tx = cc in
          let (eight, said) = had (ap (λ t. t.invalidated) (sym e) ∙ good) in
          let (left, split) = received_in_order ready inv.reach in
          let there =
            chunk_there (marks-fit high r.transmit_pc)
              (receiving_at update inv (ap (gets r.announced) at)).progress setup.size_fits
              r.system.taken left
              (job_in_order update inv (receiving_at update inv (ap (gets r.announced) at))
                (r.system.taken ++ left) split)
              eight in
          did_read-HasReader ready inv.reach tx (window size r.receive.buffer) open_tx g (
            omega (
              arith,
              there,
              said,
              ap length split,
              length-append r.system.received (r.system.taken ++ left),
              length-append r.system.taken left,
              length-window size r.receive.buffer,
            )))
        (pause_closing size (RunStep-RunInv ready setup inv st) refl)

  pub pause_reading_size :
      {r : Run S}
      → Kept r
      → r.receive_pc ≡ reading_size
      → Paused update q low high r
          (HasReader r.system × (length r.system.received + 8 ≤ length r.system.sent))
  pause_reading_size {r} inv at =
      let (tx, open_tx, had) = reader_at update inv reading_size at in
      let st =
        read_size tx (newest ready inv.reach) (length r.system.sent) at open_tx
          (latest_tail ready inv.reach) (Reach-Inv ready inv.reach).tail_at in
      behind update q low high st refl refl refl refl
        (λ g.
          let (tx', same, good) = g.0 in
          let e : tx' ≡ tx = cc in
          let empty = had (ap (λ t. t.invalidated) (sym e) ∙ good) in
          did_read-HasReader ready inv.reach tx (replicate 8 0) open_tx g.0
            (omega (arith, ap length empty, g.1)))
        (pause_reading_chunk _ (RunStep-RunInv ready setup inv st) refl)

  -- A whole turn of the consumer, when something is there.
  pub pause_awaiting :
      {r : Run S}
      → Kept r
      → r.receive_pc ≡ awaiting
      → Paused update q low high r (length r.system.received < length r.system.sent)
  pause_awaiting {r} inv at =
      let st = open_read_turn (length r.system.sent) at (latest_tail ready inv.reach) in
      behind update q low high st refl refl refl refl
        (λ there.
          let (left, split) = received_in_order ready inv.reach in
          let all = r.system.taken ++ left in
          let eight =
            size_there (marks-fit high r.transmit_pc)
              (receiving_at update inv (ap (gets r.announced) at)).progress all
              (job_in_order update inv (receiving_at update inv (ap (gets r.announced) at)) all
                split)
              (omega (arith, there, ap length split, length-append r.system.received all)) in
          (
            (_, refl, unfold begin_read in ground (arith, ready.stored)),
            omega (arith, eight, ap length split, length-append r.system.received all),
          ))
        (pause_reading_size (RunStep-RunInv ready setup inv st) refl)
