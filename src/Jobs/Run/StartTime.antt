-- ===== src/Jobs/Run/StartTime.antt =====
-- The start time of a run in two processes: `transmision` of utests/inter/producer.cpp writes it to
-- the queue, and that of utests/inter/consumer.cpp reads it from there.
use tx_queue.Base.{
  Option, ◌<◌, ℕ, ◌≡◌, refl, ap, ◌∙◌, List, ◌++◌, some, arith, length, length-append,
}
use tx_queue.Memory.{Memory}
use tx_queue.Queue.{BaseTxQueue, IsReady}
use tx_queue.Channel.Safety.{received_in_order}
use tx_queue.Jobs.Run.{
  announcing, stamping, stamped, unstarted, reading_stamp, closing_stamp, TransmitPc, ReceivePc,
  open_stamp, write_stamp, close_stamp, open_read_stamp, read_stamp, close_read_stamp, Run, begin,
  RunStep, open_turn, write_size, write_chunk, close_turn, leave_loop, open_mark, write_mark,
  close_mark, open_read_turn, read_size, read_chunk, close_read_turn, RunReach, begun, further,
}
use tx_queue.Jobs.Run.Frames.{length-bytes_of_u64}
use tx_queue.Jobs.Run.Parts.{stamp_of, read_lead, Announces, Before, Starts}
use tx_queue.Jobs.Run.Invariant.{Setup}
use tx_queue.Jobs.Run.Steps.{RunReach-RunInv}

-- The consumer is out of the loop that waits for the start time.
abbrev pub HasStarted : ReceivePc → Type 0
HasStarted unstarted = ⊥
HasStarted reading_stamp = ⊥
HasStarted (closing_stamp _) = ⊥
HasStarted _ = Unit

-- The producer is behind the transaction with the start time.
abbrev pub HasAnnounced : TransmitPc → Type 0
HasAnnounced announcing = ⊥
HasAnnounced stamping = ⊥
HasAnnounced stamped = ⊥
HasAnnounced _ = Unit

started_lead :
    (announced : Option ℕ) (pc : ReceivePc)
    → HasStarted pc
    → read_lead announced pc ≡ stamp_of announced
started_lead announced ReceivePc.unstarted started = absurd started
started_lead announced ReceivePc.reading_stamp started = absurd started
started_lead announced (ReceivePc.closing_stamp _) started = absurd started
started_lead announced ReceivePc.awaiting started = refl
started_lead announced ReceivePc.reading_size started = refl
started_lead announced (ReceivePc.reading_chunk _) started = refl
started_lead announced (ReceivePc.closing_read _) started = refl
started_lead announced ReceivePc.stopped started = refl

started_time :
    (announced : Option ℕ) (pc : ReceivePc)
    → HasStarted pc
    → (start_time : ℕ) (received : List ℕ) → Starts announced pc start_time received
    → (t : ℕ) → announced ≡ some t
    → start_time ≡ t
started_time announced ReceivePc.unstarted started start_time received starts = absurd started
started_time announced ReceivePc.reading_stamp started start_time received starts = absurd started
started_time announced (ReceivePc.closing_stamp _) started start_time received starts =
    absurd started
started_time announced ReceivePc.awaiting started start_time received starts = starts
started_time announced ReceivePc.reading_size started start_time received starts = starts
started_time announced (ReceivePc.reading_chunk _) started start_time received starts = starts
started_time announced (ReceivePc.closing_read _) started start_time received starts = starts
started_time announced ReceivePc.stopped started start_time received starts = starts

announced_first :
    (announced : Option ℕ) (pc : TransmitPc) (sent pending : List ℕ)
    → Before announced pc sent pending
    → 0 < length sent
    → HasAnnounced pc
announced_first announced TransmitPc.announcing sent pending b some_bytes =
    absurd (omega (arith, ap length b.1))
announced_first announced TransmitPc.stamping sent pending b some_bytes =
    absurd (omega (arith, ap length b.1))
announced_first announced TransmitPc.stamped sent pending b some_bytes =
    absurd (omega (arith, ap length b.1))
announced_first announced TransmitPc.looping sent pending b some_bytes = tt
announced_first announced (TransmitPc.sizing _) sent pending b some_bytes = tt
announced_first announced (TransmitPc.filling _) sent pending b some_bytes = tt
announced_first announced (TransmitPc.closing _) sent pending b some_bytes = tt
announced_first announced TransmitPc.signaling sent pending b some_bytes = tt
announced_first announced TransmitPc.marking sent pending b some_bytes = tt
announced_first announced (TransmitPc.marked _) sent pending b some_bytes = tt
announced_first announced TransmitPc.finished sent pending b some_bytes = tt

module _ {S : Type 0} {update : S → List ℕ → S} {q : BaseTxQueue} {low high : ℕ} where
  RunStep-announced : {r s : Run S} → RunStep update q low high r s → s.announced ≡ r.announced
  RunStep-announced (open_stamp t seen at given load) = refl
  RunStep-announced (write_stamp t tx loads seen at given open_tx load loaded) = refl
  RunStep-announced (close_stamp tx at open_tx) = refl
  RunStep-announced (open_turn drawn seen at more from up_to load) = refl
  RunStep-announced (write_size tx loads seen drawn at open_tx load loaded) = refl
  RunStep-announced (write_chunk tx loads seen drawn at open_tx load loaded) = refl
  RunStep-announced (close_turn tx drawn at open_tx) = refl
  RunStep-announced (leave_loop at over) = refl
  RunStep-announced (open_mark seen at load) = refl
  RunStep-announced (write_mark tx loads seen at open_tx load loaded) = refl
  RunStep-announced (close_mark tx ok at open_tx) = refl
  RunStep-announced (open_read_stamp seen at load) = refl
  RunStep-announced (read_stamp tx loads seen at open_tx load loaded) = refl
  RunStep-announced (close_read_stamp tx timestamp at open_tx) = refl
  RunStep-announced (open_read_turn seen at load) = refl
  RunStep-announced (read_size tx loads seen at open_tx load loaded) = refl
  RunStep-announced (read_chunk tx loads seen size at open_tx load loaded) = refl
  RunStep-announced (close_read_turn tx size at open_tx) = refl

  RunReach-announced : {r s : Run S} → RunReach update q low high r s → s.announced ≡ r.announced
  RunReach-announced begun = refl
  RunReach-announced (further run st) = RunStep-announced st ∙ RunReach-announced run

module _ {S : Type 0} {update : S → List ℕ → S} {q : BaseTxQueue} (ready : IsReady q) {m : Memory}
    {low : ℕ} {src_data : List ℕ} where
  -- In a run of both jobs in two processes, on a ready queue of more than 8 bytes and in any
  -- interleaving, with a start time announced that is not 0 and fits 64 bits, chunk sizes drawn
  -- between a least one above 0 and the size of the buffer that receives, and data whose length fits
  -- 64 bits, once the consumer has left its loop for the start time, its start
  -- time is the one that the producer announced, and the producer is past its announcement.
  pub start_time_arrives :
      (t : ℕ) {buffer : List ℕ} {h : S} {r : Run S}
      → Announces q (some t)
      → Setup low (length buffer) src_data
      → RunReach update q low (length buffer) (begin (some t) m src_data buffer h) r
      → HasStarted r.receive_pc
      → (r.start_time ≡ t) × HasAnnounced r.transmit_pc
  start_time_arrives t {r = r} announces setup run started =
      let inv = RunReach-RunInv ready announces setup run in
      let same = RunReach-announced run in
      let (left, split) = received_in_order ready inv.reach in
      (
        started_time r.announced r.receive_pc started r.start_time r.system.received inv.starts t
            same,
        announced_first r.announced r.transmit_pc r.system.sent r.system.pending inv.before (
            omega (
              arith,
              ap length split,
              length-append r.system.received (r.system.taken ++ left),
              ap length inv.flow.received_is,
              ap length (started_lead r.announced r.receive_pc started),
              length-append (read_lead r.announced r.receive_pc) inv.flow.job_received,
              ap (λ a. length (stamp_of a)) same,
              length-bytes_of_u64 t,
            )),
      )
