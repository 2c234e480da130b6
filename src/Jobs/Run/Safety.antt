-- ===== src/Jobs/Run/Safety.antt =====
-- What holds in every state that the two jobs can come to, however their steps are interleaved.
use tx_queue.Base.{
  Option, ℕ, ◌≤◌, ◌≡◌, refl, sym, ap, ap₂, ◌∙◌, ◌⊎◌, inl, inr, false, List, [], ◌∷◌, ◌++◌,
  append_assoc, append-nil, some, arith, length, take, drop, length-append, length-take,
  take-append, take-append-drop,
}
use tx_queue.Memory.{Memory}
use tx_queue.Queue.{BaseTxQueue, IsReady}
use tx_queue.Read.{TxRead}
use tx_queue.Jobs.Run.{
  TransmitPc, ReceivePc, finished, reading_chunk, stopped, Run, begin, RunReach,
}
use tx_queue.Jobs.Run.Frames.{joined, AllFull, cut_at_empty, none_empty}
use tx_queue.Jobs.Run.Parts.{marks, read_marks, gets, Announces}
use tx_queue.Jobs.Run.Flow.{hash_all, Progress}
use tx_queue.Jobs.Run.Invariant.{Setup, RunInv, writer_at, reader_at, receiving_at}
use tx_queue.Jobs.Run.Intake.{marks-fit, got_first}
use tx_queue.Jobs.Run.Receiving.{size_in_buffer}
use tx_queue.Jobs.Run.Steps.{RunReach-RunInv}

marks-cases : (pc : TransmitPc) → (marks pc ≡ []) ⊎ (pc ≡ finished)
marks-cases TransmitPc.announcing = inl refl
marks-cases TransmitPc.stamping = inl refl
marks-cases TransmitPc.stamped = inl refl
marks-cases TransmitPc.looping = inl refl
marks-cases (TransmitPc.sizing _) = inl refl
marks-cases (TransmitPc.filling _) = inl refl
marks-cases (TransmitPc.closing _) = inl refl
marks-cases TransmitPc.signaling = inl refl
marks-cases TransmitPc.marking = inl refl
marks-cases (TransmitPc.marked _) = inl refl
marks-cases TransmitPc.finished = inr refl

read_marks-joined : (pc : ReceivePc) → joined (read_marks pc) ≡ []
read_marks-joined ReceivePc.unstarted = refl
read_marks-joined ReceivePc.reading_stamp = refl
read_marks-joined (ReceivePc.closing_stamp _) = refl
read_marks-joined ReceivePc.awaiting = refl
read_marks-joined ReceivePc.reading_size = refl
read_marks-joined (ReceivePc.reading_chunk _) = refl
read_marks-joined (ReceivePc.closing_read _) = refl
read_marks-joined ReceivePc.stopped = refl

module _ {S : Type 0} {update : S → List ℕ → S} {q : BaseTxQueue} (ready : IsReady q) {m : Memory}
    {low : ℕ} {src_data : List ℕ} where
  -- While both jobs run, on a ready queue and in any interleaving, in one process or with a start
  -- time passed first (not 0, of 64 bits, on a queue of more than 8 bytes), with chunk sizes drawn
  -- between a least one above 0 and the size of the buffer that receives, and data whose length fits
  -- 64 bits, what the consumer has counted is the start of the data, and its hash is that of chunks that make
  -- up this start; none of them is empty.
  pub received_is_prefix :
      {announced : Option ℕ} {buffer : List ℕ} {h : S} {r : Run S}
      → Announces q announced
      → Setup low (length buffer) src_data
      → RunReach update q low (length buffer) (begin announced m src_data buffer h) r
      → (chunks : List (List ℕ)) × AllFull chunks
        × (joined chunks ≡ take r.receive.total_data src_data)
        × (r.receive.hash ≡ hash_all update h chunks)
        × (r.receive.total_data ≤ r.transmit.total_data)
  received_is_prefix {r = r} announces setup run =
      let p = (RunReach-RunInv ready announces setup run).flow.progress in
      let (more, first) =
        got_first p (marks-fit 0 r.transmit_pc).0 (read_marks-joined r.receive_pc) in
      (
        p.got,
        p.got_full,
        sym (take-append (joined p.got) (more ++ drop r.transmit.total_data src_data))
            ∙ ap₂ take (sym p.got_counted) (
                sym (append_assoc (joined p.got) more (drop r.transmit.total_data src_data))
                ∙ ap (λ t. t ++ drop r.transmit.total_data src_data) (sym first)
                ∙ take-append-drop r.transmit.total_data src_data),
        p.got_hashed,
        omega (
          arith,
          p.got_counted,
          ap length first,
          length-append (joined p.got) more,
          length-take r.transmit.total_data src_data,
        ),
      )

  -- Once the consumer's job has ended, in such a run, the producer's has too, all the data is
  -- counted, and the hashes of both sides are the same, whatever the chunks and their number.
  pub stopped_has_all :
      {announced : Option ℕ} {buffer : List ℕ} {h : S} {r : Run S}
      → Announces q announced
      → Setup low (length buffer) src_data
      → RunReach update q low (length buffer) (begin announced m src_data buffer h) r
      → r.receive_pc ≡ stopped
      → (r.transmit_pc ≡ finished)
        × (r.receive.total_data ≡ length src_data)
        × (r.receive.hash ≡ r.transmit.hash)
  stopped_has_all {announced} {buffer} {h} {r} announces setup run at =
      elim (marks-cases r.transmit_pc) [
        | inl not_yet ↦ absurd (none_empty p.chunks p.got p.rest p.full (before not_yet))
        | inr ended ↦
            let (all, _) = writer_at update inv finished ended in
            let same : p.chunks ≡ p.got =
              cut_at_empty p.chunks p.got p.rest p.full p.got_full (behind ended) in
            let whole : length (joined p.chunks) ≡ length src_data = omega (
              arith,
              ap length p.joined_eq,
              length-take r.transmit.total_data src_data,
              all,
              ap length inv.same_source,
            ) in
            (
              ended,
              p.got_counted ∙ ap (λ t. length (joined t)) (sym same) ∙ whole,
              p.got_hashed ∙ ap (hash_all update h) (sym same) ∙ sym p.hashed,
            )
      ]
    where
      inv : RunInv update q m low (length buffer) h src_data r
      inv = RunReach-RunInv ready announces setup run

      p :
          Progress update
            (length buffer)
            h
            src_data
            (receiving_at update inv (ap (gets r.announced) at)).job_sent
            (receiving_at update inv (ap (gets r.announced) at)).job_received
            r.transmit.total_data
            r.transmit.hash
            r.receive.total_data
            r.receive.hash
            (marks r.transmit_pc)
            ([] ∷ [])
      p = (receiving_at update inv (ap (gets r.announced) at)).progress

      split : p.chunks ++ marks r.transmit_pc ≡ p.got ++ ([] ∷ p.rest)
      split = p.split ∙ append_assoc p.got ([] ∷ []) p.rest

      before : marks r.transmit_pc ≡ [] → p.chunks ≡ p.got ++ ([] ∷ p.rest)
      before not_yet = sym (append-nil p.chunks) ∙ ap (λ t. p.chunks ++ t) (sym not_yet) ∙ split

      behind : r.transmit_pc ≡ finished → p.chunks ++ [] ∷ [] ≡ p.got ++ ([] ∷ p.rest)
      behind ended = ap (λ t. p.chunks ++ marks t) (sym ended) ∙ split

  -- In such a run, when the consumer is about to read a chunk in a transaction that is still valid,
  -- the size that it has read is no more than the size of its buffer, so that the read stays in it.
  pub chunk_stays_in_buffer :
      {announced : Option ℕ} {buffer : List ℕ} {h : S} {r : Run S} (size : ℕ) (tx : TxRead)
      → Announces q announced
      → Setup low (length buffer) src_data
      → RunReach update q low (length buffer) (begin announced m src_data buffer h) r
      → r.receive_pc ≡ reading_chunk size
      → r.system.reader ≡ some tx
      → tx.invalidated ≡ false
      → size ≤ length r.receive.buffer
  chunk_stays_in_buffer size tx announces setup run at open_tx good =
      let inv = RunReach-RunInv ready announces setup run in
      let (tx', same, has) = reader_at update inv (reading_chunk size) at in
      let tx_same : tx' ≡ tx = cc in
      size_in_buffer ready setup inv size at (has (ap (λ t. t.invalidated) tx_same ∙ good))
