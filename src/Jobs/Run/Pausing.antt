-- ===== src/Jobs/Run/Pausing.antt =====
-- From any state of a run, the consumer's steps up to the end of its transaction.
use tx_queue.Base.{ℕ, ◌<◌, ◌≡◌, refl, inl, inr, List, length}
use tx_queue.Memory.{Memory}
use tx_queue.Queue.{BaseTxQueue, IsReady}
use tx_queue.Jobs.Run.{ReceivePc, unstarted, awaiting, stopped, Run, RunReach, begun, further}
use tx_queue.Jobs.Run.Invariant.{Setup, RunInv}
use tx_queue.Jobs.Run.Steps.{RunStep-RunInv}
use tx_queue.Jobs.Run.Pauses.{Waits, Paused, forget, pausing}
use tx_queue.Jobs.Run.ReadTurn.{
  pause_closing, pause_reading_chunk, pause_reading_size, pause_awaiting,
}
use tx_queue.Jobs.Run.StampTurn.{pause_closing_stamp, pause_reading_stamp, pause_unstarted}

module _ {S : Type 0} (update : S → List ℕ → S) {q : BaseTxQueue} (ready : IsReady q) (m : Memory)
    {low high : ℕ} (h : S) {src_data : List ℕ} (setup : Setup low high src_data) where
  abbrev Kept : Run S → Type 0
  Kept r = RunInv update q m low high h src_data r

  -- The consumer comes to the end of its transaction, whatever it has come to.
  pub pause : {r : Run S} → Kept r → Paused update q low high r ⊥
  pause {r} inv = go r.receive_pc refl
    where
      go : (pc : ReceivePc) → r.receive_pc ≡ pc → Paused update q low high r ⊥
      go ReceivePc.unstarted at = pausing update q low high unstarted at tt
      go ReceivePc.reading_stamp at =
          forget update q low high (pause_reading_stamp update ready m h setup inv at)
      go (ReceivePc.closing_stamp t) at =
          forget update q low high (pause_closing_stamp update ready m h setup t inv at)
      go ReceivePc.awaiting at = pausing update q low high awaiting at tt
      go ReceivePc.reading_size at =
          forget update q low high (pause_reading_size update ready m h setup inv at)
      go (ReceivePc.reading_chunk size) at =
          forget update q low high (pause_reading_chunk update ready m h setup size inv at)
      go (ReceivePc.closing_read size) at =
          forget update q low high (pause_closing update ready m h setup size inv at)
      go ReceivePc.stopped at = pausing update q low high stopped at tt

  -- A whole turn of the consumer that waits, for the start time or in its job.
  pub pause_waiting :
      {r : Run S}
      → Kept r
      → Waits r.receive_pc
      → Paused update q low high r (length r.system.received < length r.system.sent)
  pause_waiting inv (inl at) = pause_awaiting update ready m h setup inv at
  pause_waiting inv (inr at) = pause_unstarted update ready m h setup inv at

  pub RunReach-Kept : {r t : Run S} → Kept r → RunReach update q low high r t → Kept t
  RunReach-Kept inv begun = inv
  RunReach-Kept inv (further run st) = RunStep-RunInv ready setup (RunReach-Kept inv run) st
