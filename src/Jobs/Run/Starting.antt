-- ===== src/Jobs/Run/Starting.antt =====
-- The steps by which the start time passes the queue keep the invariant of the run: the consumer's,
-- which has the time that was announced when it leaves its loop.
use tx_queue.Base.{
  ℕ, ◌%◌, ◌<◌, ◌≡◌, refl, sym, ap, ◌∙◌, inl, inr, true, false, List, [], ◌++◌, append-nil,
  append_inj, some, none, arith, length, length-append, replicate, Bool-cases, subst, if◌then◌else◌,
  ◌==◌,
}
use tx_queue.Memory.{Memory}
use tx_queue.Queue.{BaseTxQueue, IsReady}
use tx_queue.Read.{TxRead, ReadLoads, ReadOut, imp_read, read_data, read_short, refuse}
use tx_queue.Channel.{
  System, TailLoad, next, open_read, close_read, opened_read, did_read, closed_read,
}
use tx_queue.Channel.ReadCalls.{read_cases}
use tx_queue.Channel.Safety.{Reach-Inv, received_in_order}
use tx_queue.Jobs.{u64_of_bytes}
use tx_queue.Jobs.Receive.{u64_of_bytes-bytes_of_u64}
use tx_queue.Jobs.Run.{
  ReceivePc, unstarted, reading_stamp, closing_stamp, awaiting, Run, after_read_stamp,
  after_stamp_turn,
}
use tx_queue.Jobs.Run.Frames.{length-bytes_of_u64}
use tx_queue.Jobs.Run.Parts.{stamp_of, lead, sends, gets, Announces, IsGiven, Starts, lead-cases}
use tx_queue.Jobs.Run.Flow.{Flow}
use tx_queue.Jobs.Run.Invariant.{ReaderIs, RunInv, reader_at, receiving_at, time_at}
use tx_queue.Jobs.Run.ReadOutcomes.{did_read-Reach, did_read-HasTaken}
use tx_queue.Jobs.Run.Counting.{closed-received, closed_received_bad}

imp_read-untouched :
    (loads : ReadLoads) (s : System) (tx : TxRead) (buffer : List ℕ)
    → (imp_read loads s.memory s.status.consumer_core tx buffer).ok ≡ false
    → (imp_read loads s.memory s.status.consumer_core tx buffer).buffer ≡ buffer
unfolding imp_read refuse read_short read_data
imp_read-untouched loads s tx buffer failed = ground arith

module _ {S : Type 0} {update : S → List ℕ → S} {q : BaseTxQueue} (ready : IsReady q) {m : Memory}
    {low high : ℕ} {h : S} {src_data : List ℕ} {r : Run S}
    (inv : RunInv update q m low high h src_data r) where
  pub open_read_stamp-RunInv :
      (seen : ℕ)
      → r.receive_pc ≡ unstarted
      → TailLoad r.system seen
      → RunInv update q m low high h src_data
          (record r { system = opened_read q r.system seen; receive_pc = reading_stamp })
  open_read_stamp-RunInv seen at load = record {
    reach = next inv.reach (open_read seen (reader_at update inv unstarted at) load);
    same_source = inv.same_source;
    same_buffer = inv.same_buffer;
    writer_is = inv.writer_is;
    reader_is = (_, refl, λ valid. refl);
    flow = receiving_at update inv (ap (gets r.announced) at);
    announces = inv.announces;
    before = inv.before;
    starts = time_at update inv unstarted at;
  }

  pub read_stamp-RunInv :
      (tx : TxRead) (loads : ReadLoads) (seen : ℕ)
      → r.receive_pc ≡ reading_stamp
      → r.system.reader ≡ some tx
      → TailLoad r.system seen
      → loads.tail ≡ seen % q.capacity
      → RunInv update q m low high h src_data (after_read_stamp update q r tx loads seen)
  unfolding u64_of_bytes
  read_stamp-RunInv tx loads seen at open_tx load loaded = record {
    reach = did_read-Reach ready inv.reach tx loads seen (replicate 8 0) open_tx load loaded;
    same_source = inv.same_source;
    same_buffer = inv.same_buffer;
    writer_is = inv.writer_is;
    reader_is = (
      out.tx,
      refl,
      λ valid.
          let (tx', same, has) =
            did_read-HasTaken ready inv.reach tx loads seen (replicate 8 0) open_tx load loaded
              (reader_at update inv reading_stamp at)
              (λ empty ok eight.
                let taken : after.taken ≡ out.buffer = rw ok (ap (λ t. t ++ out.buffer) empty) in
                (ap length taken ∙ eight, ap u64_of_bytes taken)) in
          let e : tx' ≡ out.tx = cc in has (ap (λ t. t.invalidated) e ∙ valid),
      λ bad.
          elim (read_cases ready (Reach-Inv ready inv.reach) tx loads seen (replicate 8 0) open_tx
            load loaded) [
              | inl done ↦ absurd (cc (bad, done.valid))
              | inr no_read ↦ as_zero no_read.failed
            ],
    );
    flow = receiving_at update inv (ap (gets r.announced) at);
    announces = inv.announces;
    before = inv.before;
    starts =
        let (given, nothing) = time_at update inv reading_stamp at in
        (
          given,
          nothing,
          λ more. elim (Bool-cases out.ok) [
            | inl ok ↦ rw ok refl
            | inr failed ↦ absurd (omega (arith, more, as_zero failed))
          ],
        );
  }
    where
      out : ReadOut
      out = imp_read loads r.system.memory r.system.status.consumer_core tx (replicate 8 0)

      after : System
      after = did_read q r.system tx loads seen (replicate 8 0)

      as_zero : out.ok ≡ false → u64_of_bytes out.buffer ≡ 0
      as_zero failed = ap u64_of_bytes (imp_read-untouched loads r.system tx (replicate 8 0) failed)

  -- The eight bytes in front of all that is sent are the start time.
  stamp_taken :
      (t : ℕ) (left : List ℕ)
      → r.announced ≡ some t
      → r.system.received ≡ []
      → length r.system.taken ≡ 8
      → r.system.sent ≡ r.system.received ++ (r.system.taken ++ left)
      → r.system.taken ≡ stamp_of r.announced
  stamp_taken t left given nothing eight split =
      elim (lead-cases r.announced r.transmit_pc r.system.sent r.system.pending inv.before) [
        | inl same ↦
            sym
              (append_inj (lead r.announced r.transmit_pc) inv.flow.job_sent r.system.taken left
                (ap length (same ∙ ap stamp_of given) ∙ length-bytes_of_u64 t ∙ sym eight)
                (sym inv.flow.sent_is ∙ split ∙ ap (λ l. l ++ (r.system.taken ++ left)) nothing)).0
            ∙ same
        | inr (empty, _) ↦ absurd (
            omega (
              arith,
              ap length empty,
              ap length split,
              length-append r.system.received (r.system.taken ++ left),
              length-append r.system.taken left,
              eight,
            ))
      ]

  -- The end of the transaction, behind which the consumer stands at `pc`.
  closed_stamp-RunInv :
      (tx : TxRead) (timestamp : ℕ) (pc : ReceivePc)
      → r.system.reader ≡ some tx
      → (if timestamp == 0 then unstarted else awaiting) ≡ pc
      → ReaderIs pc none [] r.receive.buffer
      → Flow update high h src_data r.system.sent
          (closed_read q r.system tx).received
          r.transmit.total_data
          r.transmit.hash
          r.receive.total_data
          r.receive.hash
          (sends r.announced r.transmit_pc)
          (gets r.announced pc)
      → Starts r.announced pc r.start_time (closed_read q r.system tx).received
      → RunInv update q m low high h src_data (after_stamp_turn update q r tx timestamp)
  closed_stamp-RunInv tx timestamp pc open_tx at is f starts = rw at (record {
    reach = next inv.reach (close_read tx open_tx);
    same_source = inv.same_source;
    same_buffer = inv.same_buffer;
    writer_is = inv.writer_is;
    reader_is = is;
    flow = f;
    announces = inv.announces;
    before = inv.before;
    starts = starts;
  })

  pub close_read_stamp-RunInv :
      (tx : TxRead) (timestamp : ℕ)
      → r.receive_pc ≡ closing_stamp timestamp
      → r.system.reader ≡ some tx
      → RunInv update q m low high h src_data (after_stamp_turn update q r tx timestamp)
  close_read_stamp-RunInv tx timestamp at open_tx = elim (Bool-cases tx.invalidated) [
    | inl bad ↦
        let none_yet : timestamp ≡ 0 = is_bad (ap (λ t. t.invalidated) tx_same ∙ bad) in
        let received = closed_received_bad q r.system tx bad in
        closed_stamp-RunInv tx timestamp unstarted open_tx (rw none_yet refl) refl (rw received f)
          (rw received (given, nothing))
    | inr good ↦
        let (eight, said) = had (ap (λ t. t.invalidated) tx_same ∙ good) in
        let (left, split) = received_in_order ready inv.reach in
        let (t, is_given) = given in
        let taken = stamp_taken t left is_given nothing eight split in
        let (pos, fits, _) = subst (Announces q) is_given inv.announces in
        let same : timestamp ≡ t =
          sym said
          ∙ ap u64_of_bytes (taken ∙ ap stamp_of is_given)
          ∙ u64_of_bytes-bytes_of_u64 t fits in
        let some_time : (timestamp == 0) ≡ false = ground (arith, same, pos) in
        let received =
          closed-received q r.system tx good ∙ ap (λ l. l ++ r.system.taken) nothing ∙ taken in
        closed_stamp-RunInv tx timestamp awaiting open_tx (rw some_time refl) refl
          (rw received (record {
            job_sent = f.job_sent;
            job_received = f.job_received;
            sent_is = f.sent_is;
            received_is =
                sym (append-nil (stamp_of r.announced))
                ∙ ap (λ l. stamp_of r.announced ++ l) (sym nothing ∙ f.received_is);
            progress = f.progress;
          }))
          (λ t' is_given'. as_read (omega (arith, same, pos)) ∙ same ∙ only t t' is_given is_given')
  ]
    where
      given : IsGiven r.announced
      given = (time_at update inv (closing_stamp timestamp) at).0

      nothing : r.system.received ≡ []
      nothing = (time_at update inv (closing_stamp timestamp) at).1

      as_read : 0 < timestamp → r.start_time ≡ timestamp
      as_read = (time_at update inv (closing_stamp timestamp) at).2

      tx_same : (reader_at update inv (closing_stamp timestamp) at).0 ≡ tx
      tx_same = let same = (reader_at update inv (closing_stamp timestamp) at).1 in cc

      had :
          (reader_at update inv (closing_stamp timestamp) at).0.invalidated ≡ false
          → (length r.system.taken ≡ 8) × (u64_of_bytes r.system.taken ≡ timestamp)
      had = (reader_at update inv (closing_stamp timestamp) at).2

      is_bad :
          (reader_at update inv (closing_stamp timestamp) at).0.invalidated ≡ true → timestamp ≡ 0
      is_bad = (reader_at update inv (closing_stamp timestamp) at).3

      only : (t t' : ℕ) → r.announced ≡ some t → r.announced ≡ some t' → t ≡ t'
      only t t' e e' = cc

      f :
          Flow update high h src_data r.system.sent r.system.received r.transmit.total_data
            r.transmit.hash r.receive.total_data r.receive.hash
            (sends r.announced r.transmit_pc)
            ([], [])
      f = receiving_at update inv (ap (gets r.announced) at)
