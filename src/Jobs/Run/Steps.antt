-- ===== src/Jobs/Run/Steps.antt =====
-- Every step of a run keeps its invariant, so that it holds in every state that a run comes to.
use tx_queue.Base.{Option, ℕ, List, length}
use tx_queue.Memory.{Memory}
use tx_queue.Queue.{BaseTxQueue, IsReady}
use tx_queue.Jobs.Run.{
  open_stamp, write_stamp, close_stamp, open_read_stamp, read_stamp, close_read_stamp, Run, begin,
  RunStep, open_turn, write_size, write_chunk, close_turn, leave_loop, open_mark, write_mark,
  close_mark, open_read_turn, read_size, read_chunk, close_read_turn, RunReach, begun, further,
}
use tx_queue.Jobs.Run.Parts.{Announces}
use tx_queue.Jobs.Run.Invariant.{Setup, RunInv, begin-RunInv}
use tx_queue.Jobs.Run.Announcing.{open_stamp-RunInv, write_stamp-RunInv, close_stamp-RunInv}
use tx_queue.Jobs.Run.Starting.{open_read_stamp-RunInv, read_stamp-RunInv, close_read_stamp-RunInv}
use tx_queue.Jobs.Run.Sending.{
  open_turn-RunInv, write_size-RunInv, write_chunk-RunInv, close_turn-RunInv,
}
use tx_queue.Jobs.Run.Marking.{
  leave_loop-RunInv, open_mark-RunInv, write_mark-RunInv, close_mark-RunInv,
}
use tx_queue.Jobs.Run.Receiving.{
  open_read_turn-RunInv, read_size-RunInv, read_chunk-RunInv, close_read_turn-RunInv,
}

module _ {S : Type 0} {update : S → List ℕ → S} {q : BaseTxQueue} (ready : IsReady q) {m : Memory}
    {low : ℕ} {src_data : List ℕ} where
  pub RunStep-RunInv :
      {high : ℕ} {h : S} {r s : Run S}
      → Setup low high src_data
      → RunInv update q m low high h src_data r
      → RunStep update q low high r s
      → RunInv update q m low high h src_data s
  RunStep-RunInv setup inv (open_stamp t seen at given load) =
      open_stamp-RunInv ready setup inv seen at load
  RunStep-RunInv setup inv (write_stamp t tx loads seen at given open_tx load loaded) =
      write_stamp-RunInv ready setup inv t tx loads seen at given open_tx load loaded
  RunStep-RunInv setup inv (close_stamp tx at open_tx) =
      close_stamp-RunInv ready setup inv tx at open_tx
  RunStep-RunInv setup inv (open_turn drawn seen at more from up_to load) =
      open_turn-RunInv ready setup inv drawn seen at more from up_to load
  RunStep-RunInv setup inv (write_size tx loads seen drawn at open_tx load loaded) =
      write_size-RunInv ready setup inv tx loads seen open_tx load loaded drawn at
  RunStep-RunInv setup inv (write_chunk tx loads seen drawn at open_tx load loaded) =
      write_chunk-RunInv ready setup inv tx loads seen open_tx load loaded drawn at
  RunStep-RunInv setup inv (close_turn tx drawn at open_tx) =
      close_turn-RunInv ready setup inv tx drawn at open_tx
  RunStep-RunInv setup inv (leave_loop at over) = leave_loop-RunInv ready setup inv at over
  RunStep-RunInv setup inv (open_mark seen at load) = open_mark-RunInv ready setup inv seen at load
  RunStep-RunInv setup inv (write_mark tx loads seen at open_tx load loaded) =
      write_mark-RunInv ready setup inv tx loads seen open_tx load loaded at
  RunStep-RunInv setup inv (close_mark tx ok at open_tx) =
      close_mark-RunInv ready setup inv tx ok at open_tx
  RunStep-RunInv setup inv (open_read_stamp seen at load) =
      open_read_stamp-RunInv ready inv seen at load
  RunStep-RunInv setup inv (read_stamp tx loads seen at open_tx load loaded) =
      read_stamp-RunInv ready inv tx loads seen at open_tx load loaded
  RunStep-RunInv setup inv (close_read_stamp tx timestamp at open_tx) =
      close_read_stamp-RunInv ready inv tx timestamp at open_tx
  RunStep-RunInv setup inv (open_read_turn seen at load) =
      open_read_turn-RunInv ready setup inv seen at load
  RunStep-RunInv setup inv (read_size tx loads seen at open_tx load loaded) =
      read_size-RunInv ready setup inv tx loads seen open_tx load loaded at
  RunStep-RunInv setup inv (read_chunk tx loads seen size at open_tx load loaded) =
      read_chunk-RunInv ready setup inv tx loads seen open_tx load loaded size at
  RunStep-RunInv setup inv (close_read_turn tx size at open_tx) =
      close_read_turn-RunInv ready setup inv tx size at open_tx

  pub RunReach-RunInv :
      {announced : Option ℕ} {buffer : List ℕ} {h : S} {r : Run S}
      → Announces q announced
      → Setup low (length buffer) src_data
      → RunReach update q low (length buffer) (begin announced m src_data buffer h) r
      → RunInv update q m low (length buffer) h src_data r
  RunReach-RunInv {announced} {buffer} {h} announces setup begun =
      begin-RunInv update announced announces m low h src_data buffer
  RunReach-RunInv announces setup (further run st) =
      RunStep-RunInv setup (RunReach-RunInv announces setup run) st
