-- ===== src/Jobs/Run/Sending.antt =====
-- The producer's steps in its loop keep the invariant of the run.
use tx_queue.Base.{
  subst, ℕ, ◌+◌, ◌%◌, ◌≤◌, ◌<◌, ◌≡◌, refl, sym, ap, ◌∙◌, inl, inr, List, [], ◌++◌, some, arith,
  length, take, drop, Bool-cases,
}
use tx_queue.Memory.{Memory}
use tx_queue.Queue.{BaseTxQueue, IsReady}
use tx_queue.Write.{TxWrite, WriteLoads}
use tx_queue.Channel.{HeadLoad, next, open_write, close_write, opened_write, wrote}
use tx_queue.Jobs.{bytes_of_u64, frame, chunk_size, chunk}
use tx_queue.Jobs.Transmit.{length-chunk}
use tx_queue.Jobs.Run.{TransmitPc, looping, sizing, filling, closing, Run, after_call, after_turn}
use tx_queue.Jobs.Run.Parts.{sends, Before}
use tx_queue.Jobs.Run.Flow.{more_sent}
use tx_queue.Jobs.Run.Invariant.{Setup, HasWritten, Drawn, WriterIs, RunInv, writer_at, sending_at}
use tx_queue.Jobs.Run.Outcomes.{
  wrote-HasWritten, wrote-Reach, append_chunk, closed-sent, closed-sent_bad, count_sent-good,
  count_sent-bad, count_sent-src_data,
}

module _ {S : Type 0} {update : S → List ℕ → S} {q : BaseTxQueue} (ready : IsReady q) {m : Memory}
    {low high : ℕ} {h : S} {src_data : List ℕ} (setup : Setup low high src_data) {r : Run S}
    (inv : RunInv update q m low high h src_data r) where
  pub open_turn-RunInv :
      (drawn seen : ℕ)
      → r.transmit_pc ≡ looping
      → r.transmit.total_data < length r.transmit.src_data
      → low ≤ drawn
      → drawn ≤ high
      → HeadLoad r.system seen
      → RunInv update q m low high h src_data
          (record r { system = opened_write q r.system seen; transmit_pc = sizing drawn })
  open_turn-RunInv drawn seen at more from up_to load = record {
    reach = next inv.reach (open_write seen (writer_at update inv looping at) load);
    same_source = inv.same_source;
    same_buffer = inv.same_buffer;
    writer_is = (record { from = from; up_to = up_to; more = more }, (_, refl, λ valid. refl));
    reader_is = inv.reader_is;
    flow = sending_at update inv (ap (sends r.announced) at);
    announces = inv.announces;
    before = tt;
    starts = inv.starts;
  }

  module _ (tx : TxWrite) (loads : WriteLoads) (seen : ℕ) (open_tx : r.system.writer ≡ some tx)
      (load : HeadLoad r.system seen) (loaded : loads.head ≡ seen % q.capacity) where
    -- A call of `write`, behind which the transaction is as the program counter says.
    pub after_call-RunInv :
        (buffer : List ℕ) (pc : TransmitPc)
        → WriterIs low high pc r.transmit
            (wrote q r.system tx loads seen buffer).writer
            (wrote q r.system tx loads seen buffer).pending
        → sends r.announced r.transmit_pc ≡ sends r.announced pc
        → Before r.announced pc r.system.sent (wrote q r.system tx loads seen buffer).pending
        → RunInv update q m low high h src_data (after_call update q r tx loads seen buffer pc)
    after_call-RunInv buffer pc is same before = record {
      reach = wrote-Reach ready inv.reach tx loads seen buffer open_tx load loaded;
      same_source = inv.same_source;
      same_buffer = inv.same_buffer;
      writer_is = is;
      reader_is = inv.reader_is;
      flow = sending_at update inv same;
      announces = inv.announces;
      before = before;
      starts = inv.starts;
    }

    pub write_size-RunInv :
        (drawn : ℕ)
        → r.transmit_pc ≡ sizing drawn
        → RunInv update q m low high h src_data (
            after_call update q r tx loads seen
              (bytes_of_u64 (chunk_size r.transmit drawn))
              (filling drawn))
    write_size-RunInv drawn at =
        let (draw, has) = writer_at update inv (sizing drawn) at in
        after_call-RunInv (bytes_of_u64 (chunk_size r.transmit drawn)) (filling drawn)
          (draw, wrote-HasWritten ready inv.reach tx loads seen _ open_tx load loaded [] has)
          (ap (sends r.announced) at) tt

    pub write_chunk-RunInv :
        (drawn : ℕ)
        → r.transmit_pc ≡ filling drawn
        → RunInv update q m low high h src_data
            (after_call update q r tx loads seen (chunk r.transmit drawn) (closing drawn))
    write_chunk-RunInv drawn at =
        let (draw, has) = writer_at update inv (filling drawn) at in
        let c = chunk r.transmit drawn in
        let same : bytes_of_u64 (chunk_size r.transmit drawn) ++ c ≡ frame c =
          ap (λ n. bytes_of_u64 n ++ c) (sym (length-chunk r.transmit drawn)) in
        after_call-RunInv c (closing drawn)
          (
            draw,
            subst (HasWritten _ _) same
                (wrote-HasWritten ready inv.reach tx loads seen c open_tx load loaded _ has),
          )
          (ap (sends r.announced) at) tt

  pub close_turn-RunInv :
      (tx : TxWrite) (drawn : ℕ)
      → r.transmit_pc ≡ closing drawn
      → r.system.writer ≡ some tx
      → RunInv update q m low high h src_data (after_turn update q r tx drawn)
  close_turn-RunInv tx drawn at open_tx =
      let (draw, (tx', same, has)) = writer_at update inv (closing drawn) at in
      let f = sending_at update inv (ap (sends r.announced) at) in
      let tx_same : tx' ≡ tx = cc in
      record {
        reach = next inv.reach (close_write tx open_tx);
        same_source = count_sent-src_data update drawn r.transmit tx ∙ inv.same_source;
        same_buffer = inv.same_buffer;
        writer_is = refl;
        reader_is = inv.reader_is;
        announces = inv.announces;
        before = tt;
        starts = inv.starts;
        flow = elim (Bool-cases tx.invalidated) [
          | inl bad ↦
              rw (closed-sent_bad q r.system tx bad, count_sent-bad update drawn r.transmit tx bad)
                f
          | inr good ↦
              let sent =
                closed-sent q r.system tx good (has (ap (λ t. t.invalidated) tx_same ∙ good)) in
              let (fits, inside) = drawn_size draw in
              let counted =
                count_sent-good update drawn r.transmit tx good
                  (omega (arith, inside, setup.data_fits)) in
              rw (sent, counted)
                (more_sent update f (frame (chunk r.transmit drawn)) (
                  append_chunk f.progress (chunk r.transmit drawn) (chunk_size r.transmit drawn)
                    (unfold chunk in
                      ap (λ t. take (chunk_size r.transmit drawn) (drop r.transmit.total_data t))
                        inv.same_source)
                    (length-chunk r.transmit drawn) (omega (arith, fits)) (omega (arith, fits))
                    inside))
        ];
      }
    where
      drawn_size :
          Drawn low high r.transmit drawn
          → ((0 < chunk_size r.transmit drawn) × (chunk_size r.transmit drawn ≤ high))
            × (r.transmit.total_data + chunk_size r.transmit drawn ≤ length src_data)
      drawn_size draw =
          unfold chunk_size in
          omega
            (arith, draw.from, draw.up_to, draw.more, setup.some_bytes, ap length inv.same_source)
