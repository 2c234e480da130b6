-- ===== src/Jobs/Run.antt =====
-- The two jobs of utests/common/utest_jobs.inl at once, each in its thread on one queue: `run` of
-- `utest_job_transmit_buffer` and `run` of `utest_job_receive_buffer`, as steps between the calls of
-- the queue, in any order. In two processes, `transmision` of utests/inter/producer.cpp and of
-- utests/inter/consumer.cpp first pass the start time through the queue.
pub mod Frames
pub mod Parts
pub mod Flow
pub mod Invariant
pub mod Outcomes
pub mod Sending
pub mod Marking
pub mod Announcing
pub mod Starting
pub mod ReadOutcomes
pub mod Intake
pub mod Counting
pub mod Receiving
pub mod Steps
pub mod Safety
pub mod StartTime
pub mod Rests
pub mod Advance
pub mod Pauses
pub mod ReadTurn
pub mod StampTurn
pub mod Pausing
pub mod Drain
pub mod Ending
pub mod Completion
pub mod Verified
use tx_queue.Base.{
  ℕ, ◌%◌, ◌≤◌, ◌<◌, ◌≡◌, Bool, List, [], ◌∷◌, Option, none, some, replicate, length, if◌then◌else◌,
  ◌==◌,
}
use tx_queue.Memory.{Memory}
use tx_queue.Queue.{BaseTxQueue}
use tx_queue.Write.{TxWrite, WriteLoads, imp_write}
use tx_queue.Read.{TxRead, ReadLoads, imp_read}
use tx_queue.Channel.{
  System, HeadLoad, TailLoad, start, opened_write, wrote, closed_write, opened_read, did_read,
  closed_read,
}
use tx_queue.Jobs.{
  TransmitJob, ReceiveJob, bytes_of_u64, u64_of_bytes, chunk_size, chunk, count_sent,
  count_received, fill_buffer, quits, window,
}

-- Where the producer stands: before the transaction that writes the start time, before the write in
-- it, and before its end; then, in its job, at the test of its loop, before the write of the size, before that of
-- the chunk, before the end of the turn; then, behind the loop, before a transaction for the end of
-- the buffer, before the write in it, and before its end, with the result of the write.
pub data TransmitPc : Type 0 where
  announcing : TransmitPc
  stamping : TransmitPc
  stamped : TransmitPc
  looping : TransmitPc
  sizing : (drawn : ℕ) → TransmitPc
  filling : (drawn : ℕ) → TransmitPc
  closing : (drawn : ℕ) → TransmitPc
  signaling : TransmitPc
  marking : TransmitPc
  marked : Bool → TransmitPc
  finished : TransmitPc

-- Where the consumer stands: before a transaction that reads the start time, before the read in it,
-- and before its end, with what the time stamp is then; then, in its job, before a transaction, before the read of the size, before that of the
-- chunk, before the end of the turn, and behind the loop.
pub data ReceivePc : Type 0 where
  unstarted : ReceivePc
  reading_stamp : ReceivePc
  closing_stamp : (timestamp : ℕ) → ReceivePc
  awaiting : ReceivePc
  reading_size : ReceivePc
  reading_chunk : (chunk_size : ℕ) → ReceivePc
  closing_read : (chunk_size : ℕ) → ReceivePc
  stopped : ReceivePc

pub record Run (S : Type 0) : Type 0 where
  pub system : System
  pub transmit_pc : TransmitPc
  pub transmit : TransmitJob S
  pub receive_pc : ReceivePc
  pub receive : ReceiveJob S
  pub announced : Option ℕ
  pub start_time : ℕ

-- Both jobs behind their set-up, with nothing sent. In two processes the producer has a start time to
-- announce, and the consumer has none yet; in one process both have it from the start.
abbrev pub begin :
    {S : Type 0} → Option ℕ → Memory → (src_data buffer : List ℕ) → (hash : S) → Run S
begin announced m src_data buffer hash = record {
  system = start m;
  transmit_pc = elim announced [ none ↦ looping | some _ ↦ announcing ];
  transmit = record { src_data = src_data; total_data = 0; transaction_attempts = 0; hash = hash };
  receive_pc = elim announced [ none ↦ awaiting | some _ ↦ unstarted ];
  receive = record { buffer = buffer; total_data = 0; transaction_attempts = 0; hash = hash };
  announced = announced;
  start_time = 0;
}

module _ {S : Type 0} (update : S → List ℕ → S) (q : BaseTxQueue) (r : Run S) where
  -- A call of `write` by the producer, behind which it stands at `pc`.
  abbrev pub after_call : TxWrite → WriteLoads → (seen : ℕ) → List ℕ → TransmitPc → Run S
  after_call tx loads seen buffer pc = record r {
    system = wrote q r.system tx loads seen buffer;
    transmit_pc = pc;
  }

  abbrev pub after_turn : TxWrite → (drawn : ℕ) → Run S
  after_turn tx drawn = record r {
    system = closed_write q r.system tx;
    transmit_pc = looping;
    transmit = count_sent update drawn r.transmit tx;
  }

  abbrev pub after_mark : TxWrite → (ok : Bool) → Run S
  after_mark tx ok = record r {
    system = closed_write q r.system tx;
    transmit_pc = if ok then finished else signaling;
  }

  -- Behind the transaction with the start time, whatever its write returned, the job is started.
  abbrev pub after_stamp : TxWrite → Run S
  after_stamp tx = record r { system = closed_write q r.system tx; transmit_pc = looping }

  -- A read of the time stamp, which is 0 before it.
  abbrev pub after_read_stamp : TxRead → ReadLoads → (seen : ℕ) → Run S
  after_read_stamp tx loads seen =
      let done = imp_read loads r.system.memory r.system.status.consumer_core tx (replicate 8 0) in
      record r {
        system = did_read q r.system tx loads seen (replicate 8 0);
        receive_pc = closing_stamp (u64_of_bytes done.buffer);
        start_time = if done.ok then u64_of_bytes done.buffer else r.start_time;
      }

  -- The loop ends when the time stamp is not 0, and the job is started.
  abbrev pub after_stamp_turn : TxRead → (timestamp : ℕ) → Run S
  after_stamp_turn tx timestamp = record r {
    system = closed_read q r.system tx;
    receive_pc = if timestamp == 0 then unstarted else awaiting;
  }

  abbrev pub after_size : TxRead → ReadLoads → (seen : ℕ) → Run S
  after_size tx loads seen =
      let done = imp_read loads r.system.memory r.system.status.consumer_core tx (replicate 8 0) in
      record r {
        system = did_read q r.system tx loads seen (replicate 8 0);
        receive_pc = reading_chunk (u64_of_bytes done.buffer);
      }

  abbrev pub after_chunk : TxRead → ReadLoads → (seen chunk_size : ℕ) → Run S
  after_chunk tx loads seen size =
      let buffer = window size r.receive.buffer in
      let done = imp_read loads r.system.memory r.system.status.consumer_core tx buffer in
      record r {
        system = did_read q r.system tx loads seen buffer;
        receive_pc = closing_read size;
        receive = fill_buffer size done r.receive;
      }

  abbrev pub after_read_turn : TxRead → (chunk_size : ℕ) → Run S
  after_read_turn tx size = record r {
    system = closed_read q r.system tx;
    receive_pc = if quits size tx then stopped else awaiting;
    receive = count_received update size r.receive tx;
  }

-- The sizes are drawn between `low` and `high`, by any generator. On a queue that cannot be used no
-- turn would get past its test, so that only the turns on one that can are steps.
pub data RunStep {S : Type 0} (update : S → List ℕ → S) (q : BaseTxQueue) (low high : ℕ) (r : Run S)
    : Run S → Type 0 where
  open_stamp :
      (t seen : ℕ)
      → r.transmit_pc ≡ announcing
      → r.announced ≡ some t
      → HeadLoad r.system seen
      → RunStep update q low high r
          (record r { system = opened_write q r.system seen; transmit_pc = stamping })
  write_stamp :
      (t : ℕ) (tx : TxWrite) (loads : WriteLoads) (seen : ℕ)
      → r.transmit_pc ≡ stamping
      → r.announced ≡ some t
      → r.system.writer ≡ some tx
      → HeadLoad r.system seen
      → loads.head ≡ seen % q.capacity
      → RunStep update q low high r (after_call update q r tx loads seen (bytes_of_u64 t) stamped)
  close_stamp :
      (tx : TxWrite)
      → r.transmit_pc ≡ stamped
      → r.system.writer ≡ some tx
      → RunStep update q low high r (after_stamp update q r tx)
  open_turn :
      (drawn seen : ℕ)
      → r.transmit_pc ≡ looping
      → r.transmit.total_data < length r.transmit.src_data
      → low ≤ drawn
      → drawn ≤ high
      → HeadLoad r.system seen
      → RunStep update q low high r
          (record r { system = opened_write q r.system seen; transmit_pc = sizing drawn })
  write_size :
      (tx : TxWrite) (loads : WriteLoads) (seen drawn : ℕ)
      → r.transmit_pc ≡ sizing drawn
      → r.system.writer ≡ some tx
      → HeadLoad r.system seen
      → loads.head ≡ seen % q.capacity
      → RunStep update q low high r (
          after_call update q r tx loads seen
            (bytes_of_u64 (chunk_size r.transmit drawn))
            (filling drawn))
  write_chunk :
      (tx : TxWrite) (loads : WriteLoads) (seen drawn : ℕ)
      → r.transmit_pc ≡ filling drawn
      → r.system.writer ≡ some tx
      → HeadLoad r.system seen
      → loads.head ≡ seen % q.capacity
      → RunStep update q low high r
          (after_call update q r tx loads seen (chunk r.transmit drawn) (closing drawn))
  close_turn :
      (tx : TxWrite) (drawn : ℕ)
      → r.transmit_pc ≡ closing drawn
      → r.system.writer ≡ some tx
      → RunStep update q low high r (after_turn update q r tx drawn)
  leave_loop :
      r.transmit_pc ≡ looping
      → length r.transmit.src_data ≤ r.transmit.total_data
      → RunStep update q low high r (record r { transmit_pc = signaling })
  open_mark :
      (seen : ℕ)
      → r.transmit_pc ≡ signaling
      → HeadLoad r.system seen
      → RunStep update q low high r
          (record r { system = opened_write q r.system seen; transmit_pc = marking })
  write_mark :
      (tx : TxWrite) (loads : WriteLoads) (seen : ℕ)
      → r.transmit_pc ≡ marking
      → r.system.writer ≡ some tx
      → HeadLoad r.system seen
      → loads.head ≡ seen % q.capacity
      → RunStep update q low high r (
          after_call update q r tx loads seen (bytes_of_u64 0) (
            marked
              (imp_write loads r.system.memory r.system.status.producer_core tx
                (bytes_of_u64 0)).ok))
  close_mark :
      (tx : TxWrite) (ok : Bool)
      → r.transmit_pc ≡ marked ok
      → r.system.writer ≡ some tx
      → RunStep update q low high r (after_mark update q r tx ok)
  open_read_stamp :
      (seen : ℕ)
      → r.receive_pc ≡ unstarted
      → TailLoad r.system seen
      → RunStep update q low high r
          (record r { system = opened_read q r.system seen; receive_pc = reading_stamp })
  read_stamp :
      (tx : TxRead) (loads : ReadLoads) (seen : ℕ)
      → r.receive_pc ≡ reading_stamp
      → r.system.reader ≡ some tx
      → TailLoad r.system seen
      → loads.tail ≡ seen % q.capacity
      → RunStep update q low high r (after_read_stamp update q r tx loads seen)
  close_read_stamp :
      (tx : TxRead) (timestamp : ℕ)
      → r.receive_pc ≡ closing_stamp timestamp
      → r.system.reader ≡ some tx
      → RunStep update q low high r (after_stamp_turn update q r tx timestamp)
  open_read_turn :
      (seen : ℕ)
      → r.receive_pc ≡ awaiting
      → TailLoad r.system seen
      → RunStep update q low high r
          (record r { system = opened_read q r.system seen; receive_pc = reading_size })
  read_size :
      (tx : TxRead) (loads : ReadLoads) (seen : ℕ)
      → r.receive_pc ≡ reading_size
      → r.system.reader ≡ some tx
      → TailLoad r.system seen
      → loads.tail ≡ seen % q.capacity
      → RunStep update q low high r (after_size update q r tx loads seen)
  read_chunk :
      (tx : TxRead) (loads : ReadLoads) (seen size : ℕ)
      → r.receive_pc ≡ reading_chunk size
      → r.system.reader ≡ some tx
      → TailLoad r.system seen
      → loads.tail ≡ seen % q.capacity
      → RunStep update q low high r (after_chunk update q r tx loads seen size)
  close_read_turn :
      (tx : TxRead) (size : ℕ)
      → r.receive_pc ≡ closing_read size
      → r.system.reader ≡ some tx
      → RunStep update q low high r (after_read_turn update q r tx size)

pub data RunReach {S : Type 0} (update : S → List ℕ → S) (q : BaseTxQueue) (low high : ℕ)
    (r : Run S) : Run S → Type 0 where
  begun : RunReach update q low high r r
  further :
      {s t : Run S}
      → RunReach update q low high r s
      → RunStep update q low high s t
      → RunReach update q low high r t
