-- ===== src/Jobs/Run/StampTurn.antt =====
-- From any state of a run, the consumer's steps up to the end of its read of the start time.
use tx_queue.Base.{
  ◌==◌, ℕ, ◌+◌, ◌≤◌, ◌<◌, ◌≡◌, refl, sym, ap, ◌∙◌, inl, inr, List, arith, length, length-append,
  Bool-cases, replicate,
}
use tx_queue.Memory.{Memory}
use tx_queue.Queue.{BaseTxQueue, IsReady}
use tx_queue.Read.{begin_read}
use tx_queue.Channel.Safety.{Reach-Inv}
use tx_queue.Jobs.Run.{
  unstarted, reading_stamp, closing_stamp, after_stamp_turn, open_read_stamp, read_stamp,
  close_read_stamp, Run, begun, further,
}
use tx_queue.Jobs.Run.Frames.{length-bytes_of_u64}
use tx_queue.Jobs.Run.Parts.{stamp_of, lead, lead-cases}
use tx_queue.Jobs.Run.Invariant.{Setup, RunInv, reader_at, time_at}
use tx_queue.Jobs.Run.Counting.{closed-received}
use tx_queue.Jobs.Run.Steps.{RunStep-RunInv}
use tx_queue.Jobs.Run.Pauses.{HasReader, latest_tail, newest, did_read-HasReader, Paused, behind}

module _ {S : Type 0} (update : S → List ℕ → S) {q : BaseTxQueue} (ready : IsReady q) (m : Memory)
    {low high : ℕ} (h : S) {src_data : List ℕ} (setup : Setup low high src_data) where
  abbrev Kept : Run S → Type 0
  Kept r = RunInv update q m low high h src_data r

  pub pause_closing_stamp :
      {r : Run S} (timestamp : ℕ)
      → Kept r
      → r.receive_pc ≡ closing_stamp timestamp
      → Paused update q low high r (HasReader r.system)
  pause_closing_stamp {r} timestamp inv at =
      let (tx, open_tx, had, _) = reader_at update inv (closing_stamp timestamp) at in
      record {
        after = after_stamp_turn update q r tx timestamp;
        run = further begun (close_read_stamp tx timestamp at open_tx);
        pauses = elim (Bool-cases (timestamp == 0)) [
          | inl none_yet ↦ rw none_yet tt
          | inr some_time ↦ rw some_time tt
        ];
        same_transmit_pc = refl;
        same_transmit = refl;
        same_sent = refl;
        gains = λ g.
            let (tx', same, good') = g in
            let e : tx' ≡ tx = cc in
            let good = ap (λ t. t.invalidated) (sym e) ∙ good' in
            omega (
              arith,
              ap length (closed-received q r.system tx good),
              length-append r.system.received r.system.taken,
              (had good).0,
            );
      }

  pub pause_reading_stamp :
      {r : Run S}
      → Kept r
      → r.receive_pc ≡ reading_stamp
      → Paused update q low high r
          (HasReader r.system × (length r.system.received + 8 ≤ length r.system.sent))
  pause_reading_stamp {r} inv at =
      let (tx, open_tx, had) = reader_at update inv reading_stamp at in
      let st =
        read_stamp tx (newest ready inv.reach) (length r.system.sent) at open_tx
          (latest_tail ready inv.reach) (Reach-Inv ready inv.reach).tail_at in
      behind update q low high st refl refl refl refl
        (λ g.
          let (tx', same, good) = g.0 in
          let e : tx' ≡ tx = cc in
          let empty = had (ap (λ t. t.invalidated) (sym e) ∙ good) in
          did_read-HasReader ready inv.reach tx (replicate 8 0) open_tx g.0
            (omega (arith, ap length empty, g.1)))
        (pause_closing_stamp _ (RunStep-RunInv ready setup inv st) refl)

  -- What is sent first is the eight bytes of the start time.
  stamp_first :
      {r : Run S}
      → Kept r
      → r.receive_pc ≡ unstarted
      → 0 < length r.system.sent
      → length r.system.received + 8 ≤ length r.system.sent
  stamp_first {r} inv at some_bytes =
      let ((t, given), nothing) = time_at update inv unstarted at in
      elim (lead-cases r.announced r.transmit_pc r.system.sent r.system.pending inv.before) [
        | inl same ↦ omega (
          arith,
          ap length nothing,
          ap length inv.flow.sent_is,
          length-append (lead r.announced r.transmit_pc) inv.flow.job_sent,
          ap length (same ∙ ap stamp_of given),
          length-bytes_of_u64 t,
        )
        | inr (empty, _) ↦ absurd (omega (arith, some_bytes, ap length empty))
      ]

  pub pause_unstarted :
      {r : Run S}
      → Kept r
      → r.receive_pc ≡ unstarted
      → Paused update q low high r (length r.system.received < length r.system.sent)
  pause_unstarted {r} inv at =
      let st = open_read_stamp (length r.system.sent) at (latest_tail ready inv.reach) in
      behind update q low high st refl refl refl refl
        (λ there. (
          (_, refl, unfold begin_read in ground (arith, ready.stored)),
          stamp_first inv at (omega (arith, there)),
        ))
        (pause_reading_stamp (RunStep-RunInv ready setup inv st) refl)
