-- ===== src/Jobs/Run/Receiving.antt =====
-- The consumer's steps keep the invariant of the run.
use tx_queue.Base.{
  ℕ, ◌%◌, ◌≤◌, ◌≡◌, refl, sym, ap, ◌∙◌, inl, inr, false, List, [], ◌++◌, some, none, arith, dec_lt,
  length, replicate, Bool-cases, if◌then◌else◌,
}
use tx_queue.Memory.{Memory}
use tx_queue.Queue.{BaseTxQueue, IsReady}
use tx_queue.Read.{TxRead, ReadLoads, ReadOut, imp_read}
use tx_queue.Channel.{
  System, TailLoad, next, open_read, close_read, opened_read, did_read, closed_read,
}
use tx_queue.Channel.Safety.{received_in_order}
use tx_queue.Jobs.{ReceiveJob, u64_of_bytes, count_received, quits, window}
use tx_queue.Jobs.Run.{
  ReceivePc, awaiting, reading_size, reading_chunk, closing_read, stopped, Run, after_size,
  after_chunk, after_read_turn,
}
use tx_queue.Jobs.Run.Parts.{stamp_of, sends, gets, Starts, nil_of_length}
use tx_queue.Jobs.Run.Flow.{Flow, more_received}
use tx_queue.Jobs.Run.Invariant.{
  Setup, HasTaken, ReaderIs, Taken, RunInv, reader_at, receiving_at, time_at, job_in_order,
}
use tx_queue.Jobs.Run.ReadOutcomes.{read_outcome, did_read-Reach, did_read-HasTaken}
use tx_queue.Jobs.Run.Intake.{marks-fit, size_fits, take_chunk}
use tx_queue.Jobs.Run.Counting.{
  closed-received, closed_received_bad, fill_buffer-in, fill_buffer-not, fill_buffer-counts,
  read_turn-bad, read_turn-more, read_turn-last, counted_fits, length-window,
}

module _ {S : Type 0} {update : S → List ℕ → S} {q : BaseTxQueue} (ready : IsReady q) {m : Memory}
    {low high : ℕ} {h : S} {src_data : List ℕ} (setup : Setup low high src_data) {r : Run S}
    (inv : RunInv update q m low high h src_data r) where
  pub open_read_turn-RunInv :
      (seen : ℕ)
      → r.receive_pc ≡ awaiting
      → TailLoad r.system seen
      → RunInv update q m low high h src_data
          (record r { system = opened_read q r.system seen; receive_pc = reading_size })
  open_read_turn-RunInv seen at load = record {
    reach = next inv.reach (open_read seen (reader_at update inv awaiting at) load);
    same_source = inv.same_source;
    same_buffer = inv.same_buffer;
    writer_is = inv.writer_is;
    reader_is = (_, refl, λ valid. refl);
    flow = receiving_at update inv (ap (gets r.announced) at);
    announces = inv.announces;
    before = inv.before;
    starts = time_at update inv awaiting at;
  }

  -- A size that was read is not above the buffer's.
  pub size_in_buffer :
      (size : ℕ)
      → r.receive_pc ≡ reading_chunk size
      → (length r.system.taken ≡ 8) × (u64_of_bytes r.system.taken ≡ size)
      → size ≤ length r.receive.buffer
  size_in_buffer size at had =
      let (left, split) = received_in_order ready inv.reach in
      let f = receiving_at update inv (ap (gets r.announced) at) in
      let fits =
        size_fits (marks-fit high r.transmit_pc) f.progress setup.size_fits r.system.taken left
          (job_in_order update inv f (r.system.taken ++ left) split) had.0 in
      omega (arith, fits, had.1, inv.same_buffer)

  module _ (tx : TxRead) (loads : ReadLoads) (seen : ℕ) (open_tx : r.system.reader ≡ some tx)
      (load : TailLoad r.system seen) (loaded : loads.tail ≡ seen % q.capacity) where
    pub read_size-RunInv :
        r.receive_pc ≡ reading_size
        → RunInv update q m low high h src_data (after_size update q r tx loads seen)
    read_size-RunInv at = record {
      reach = did_read-Reach ready inv.reach tx loads seen (replicate 8 0) open_tx load loaded;
      same_source = inv.same_source;
      same_buffer = inv.same_buffer;
      writer_is = inv.writer_is;
      reader_is =
          did_read-HasTaken ready inv.reach tx loads seen (replicate 8 0) open_tx load loaded
            (reader_at update inv reading_size at)
            (λ empty ok eight.
              let taken : after.taken ≡ out.buffer = rw ok (ap (λ t. t ++ out.buffer) empty) in
              (ap length taken ∙ eight, ap u64_of_bytes taken));
      flow = receiving_at update inv (ap (gets r.announced) at);
      announces = inv.announces;
      before = inv.before;
      starts = time_at update inv reading_size at;
    }
      where
        out : ReadOut
        out = imp_read loads r.system.memory r.system.status.consumer_core tx (replicate 8 0)

        after : System
        after = did_read q r.system tx loads seen (replicate 8 0)

    pub read_chunk-RunInv :
        (size : ℕ)
        → r.receive_pc ≡ reading_chunk size
        → RunInv update q m low high h src_data (after_chunk update q r tx loads seen size)
    read_chunk-RunInv size at = record {
      reach = did_read-Reach ready inv.reach tx loads seen buffer open_tx load loaded;
      same_source = inv.same_source;
      same_buffer = elim (read_outcome ready inv.reach tx loads seen buffer open_tx load loaded) [
        | inl (ok, as_long, good) ↦
            let (tx', same, has) = before in
            let tx_same : tx' ≡ tx = cc in
            let had = has (ap (λ t. t.invalidated) tx_same ∙ good) in
            (fill_buffer-in size out r.receive ok (as_long ∙ length-window size r.receive.buffer)
              (size_in_buffer size at had)).0
            ∙ inv.same_buffer
        | inr (failed, _) ↦
            ap (λ t. length t.buffer) (fill_buffer-not size out r.receive failed) ∙ inv.same_buffer
      ];
      writer_is = inv.writer_is;
      reader_is =
          did_read-HasTaken ready inv.reach tx loads seen buffer open_tx load loaded before
            (λ had ok as_long. record {
              first = r.system.taken;
              bytes = out.buffer;
              taken_eq = rw ok refl;
              eight = had.0;
              said = had.1;
              as_said = as_long ∙ length-window size r.receive.buffer;
              in_buffer =
                  (fill_buffer-in size out r.receive ok
                    (as_long ∙ length-window size r.receive.buffer) (size_in_buffer size at had)).1;
            });
      flow =
          rw ((fill_buffer-counts size out r.receive).0, (fill_buffer-counts size out r.receive).1)
            (receiving_at update inv (ap (gets r.announced) at));
      announces = inv.announces;
      before = inv.before;
      starts = time_at update inv (reading_chunk size) at;
    }
      where
        buffer : List ℕ
        buffer = window size r.receive.buffer

        out : ReadOut
        out = imp_read loads r.system.memory r.system.status.consumer_core tx buffer

        before :
            HasTaken r.system.reader
              ((length r.system.taken ≡ 8) × (u64_of_bytes r.system.taken ≡ size))
        before = reader_at update inv (reading_chunk size) at

  -- The end of a turn, behind which the consumer stands at `pc` with `job`.
  closed-RunInv :
      (tx : TxRead) (size : ℕ)
      → r.system.reader ≡ some tx
      → (pc : ReceivePc) (job : ReceiveJob S) → (if quits size tx then stopped else awaiting) ≡ pc
      → count_received update size r.receive tx ≡ job
      → ReaderIs pc none [] job.buffer
      → length job.buffer ≡ high
      → Flow update high h src_data r.system.sent
          (closed_read q r.system tx).received
          r.transmit.total_data
          r.transmit.hash
          job.total_data
          job.hash
          (sends r.announced r.transmit_pc)
          (gets r.announced pc)
      → Starts r.announced pc r.start_time (closed_read q r.system tx).received
      → RunInv update q m low high h src_data (after_read_turn update q r tx size)
  closed-RunInv tx size open_tx pc job at counted is same f starts =
      rw (at, counted)
        (record {
          reach = next inv.reach (close_read tx open_tx);
          same_source = inv.same_source;
          same_buffer = same;
          writer_is = inv.writer_is;
          reader_is = is;
          flow = f;
          announces = inv.announces;
          before = inv.before;
          starts = starts;
        })

  pub close_read_turn-RunInv :
      (tx : TxRead) (size : ℕ)
      → r.receive_pc ≡ closing_read size
      → r.system.reader ≡ some tx
      → RunInv update q m low high h src_data (after_read_turn update q r tx size)
  close_read_turn-RunInv tx size at open_tx = elim (Bool-cases tx.invalidated) [
    | inl bad ↦
        closed-RunInv tx size open_tx awaiting _
          (rw (read_turn-bad update size r.receive tx bad).0 refl)
          (read_turn-bad update size r.receive tx bad).1 refl inv.same_buffer
          (rw (closed_received_bad q r.system tx bad) f) given
    | inr good ↦
        let (tx', same, has) = reader_at update inv (closing_read size) at in
        let tx_same : tx' ≡ tx = cc in committed good (has (ap (λ t. t.invalidated) tx_same ∙ good))
  ]
    where
      f :
          Flow update high h src_data r.system.sent r.system.received r.transmit.total_data
            r.transmit.hash r.receive.total_data r.receive.hash
            (sends r.announced r.transmit_pc)
            (stamp_of r.announced, [])
      f = receiving_at update inv (ap (gets r.announced) at)

      given : (t : ℕ) → r.announced ≡ some t → r.start_time ≡ t
      given = time_at update inv (closing_read size) at

      committed :
          tx.invalidated ≡ false
          → Taken r.system.taken r.receive.buffer size
          → RunInv update q m low high h src_data (after_read_turn update q r tx size)
      committed good had =
          let (left, split) = received_in_order ready inv.reach in
          let (another, last) =
            take_chunk (marks-fit high r.transmit_pc) f.progress setup.size_fits had.first had.bytes
              left (job_in_order update inv f (r.system.taken ++ left) split) had.taken_eq had.eight
              (had.as_said ∙ sym had.said) in
          let received = closed-received q r.system tx good in
          elim (dec_lt 0 size) [
            | yes pos ↦
                let more = another (omega (arith, had.as_said)) in
                let small = counted_fits setup (marks-fit high r.transmit_pc).0 more in
                let (goes_on, counted) =
                  read_turn-more update size r.receive tx good pos
                    (omega (arith, small, had.as_said)) in
                closed-RunInv tx size open_tx awaiting _ (rw goes_on refl) counted refl
                  inv.same_buffer
                  (rw (received, had.in_buffer, sym had.as_said)
                    (more_received update f r.system.taken more))
                  given
            | no none_left ↦
                let (ends, counted) = read_turn-last update size r.receive tx good (omega arith) in
                closed-RunInv tx size open_tx stopped _ (rw ends refl) counted refl inv.same_buffer
                  (rw received (
                    more_received update f r.system.taken
                      (last (nil_of_length had.bytes (omega (arith, had.as_said))))))
                  given
          ]
