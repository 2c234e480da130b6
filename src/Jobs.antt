-- ===== src/Jobs.antt =====
-- The jobs of utests/common/utest_jobs.inl that transmit a buffer in chunks of random sizes and
-- receive it: one turn of each loop, on the queue.
pub mod Transmit
pub mod Receive
pub mod Hashes
pub mod Settings
pub mod Interactive
pub mod Run
use tx_queue.Base.{
  ℕ, ◌+◌, ◌-◌, ◌/◌, ◌%◌, ◌^◌, min, Bool, not, ◌&&◌, List, [], ◌∷◌, ◌++◌, false, ℤ, Option, none,
  some, ltb, ◌==◌, replicate, if◌then◌else◌, ◌*◌, length, take, drop,
}
use tx_queue.Words.{add64}
use tx_queue.Memory.{Memory}
use tx_queue.Queue.{BaseTxQueue}
use tx_queue.Write
use tx_queue.Write.{TxWrite, WriteLoads, Written, begin_write, imp_write, end_write}
use tx_queue.Read
use tx_queue.Read.{TxRead, ReadLoads, ReadOut, begin_read, imp_read, end_read}

-- The fields of `utest_job` and `utest_job_transmit_buffer` that the loop uses. `hash` is the status
-- of the verification that was chosen.
pub record TransmitJob (S : Type 0) : Type 0 where
  pub src_data : List ℕ
  pub total_data : ℕ
  pub transaction_attempts : ℕ
  pub hash : S

-- A `uint64_t` as it lies in memory, the low byte first.
unfoldable pub bytes_of_u64 : ℕ → List ℕ
bytes_of_u64 x =
    x % 256
    ∷ x / 2 ^ 8 % 256
    ∷ x / 2 ^ 16 % 256
    ∷ x / 2 ^ 24 % 256
    ∷ x / 2 ^ 32 % 256
    ∷ x / 2 ^ 40 % 256
    ∷ x / 2 ^ 48 % 256
    ∷ x / 2 ^ 56 % 256
    ∷ []

-- What goes over the queue for a chunk: its size, then its bytes.
abbrev pub frame : List ℕ → List ℕ
frame bytes = bytes_of_u64 (length bytes) ++ bytes

-- The number that eight bytes are.
unfoldable pub u64_of_bytes : List ℕ → ℕ
u64_of_bytes [] = 0
u64_of_bytes (b ∷ bytes) = b + 256 * u64_of_bytes bytes

-- What a turn gets from outside: the head that the constructor of the transaction loads, the loads
-- of its two writes, and the size that was drawn.
pub record TurnLoads : Type 0 where
  pub head : ℕ
  pub size_loads : WriteLoads
  pub data_loads : WriteLoads
  pub drawn : ℕ

-- What a turn leaves: the job, the memory, `producer_core_`, and `tail_` of the status words.
pub record Turn (S : Type 0) : Type 0 where
  pub job : TransmitJob S
  pub memory : Memory
  pub producer_core : ℤ
  pub tail : ℕ

module _ {S : Type 0} where
  -- The size of the next chunk, and its bytes.
  unfoldable pub chunk_size : TransmitJob S → (drawn : ℕ) → ℕ
  chunk_size job drawn = min drawn (length job.src_data - job.total_data)

  unfoldable pub chunk : TransmitJob S → (drawn : ℕ) → List ℕ
  unfolding chunk_size
  chunk job drawn = take (chunk_size job drawn) (drop job.total_data job.src_data)

module _ {S : Type 0} (update : S → List ℕ → S) where
  -- What a turn that sends does with the job, when both writes are made: an attempt is counted, or
  -- the chunk is hashed and counted.
  unfoldable pub count_sent : (drawn : ℕ) → TransmitJob S → TxWrite → TransmitJob S
  count_sent drawn job tx =
      if not (Write.is_valid tx)
      then record job { transaction_attempts = add64 job.transaction_attempts 1 }
      else record job {
        hash = update job.hash (chunk job drawn);
        total_data = add64 job.total_data (chunk_size job drawn);
      }

  -- The end of a turn, behind the two writes, with the destructor of `write_op`.
  unfoldable pub finish_turn : (drawn tail : ℕ) → TransmitJob S → Written → Turn S
  unfolding count_sent
  finish_turn drawn tail job done = record {
    job = count_sent drawn job done.tx;
    memory = done.memory;
    producer_core = done.producer_core;
    tail = end_write done.tx tail;
  }

  -- A turn of the loop that sends, from the construction of `write_op` to its destruction.
  unfoldable pub transmit_turn :
      BaseTxQueue → TurnLoads → Memory → ℤ → (tail : ℕ) → TransmitJob S → Turn S
  transmit_turn q loads m core tail job =
      let write_op = begin_write q tail loads.head in
      let size = bytes_of_u64 (chunk_size job loads.drawn) in
      let sized = imp_write loads.size_loads m core write_op size in
      let done =
        imp_write loads.data_loads sized.memory sized.producer_core sized.tx
          (chunk job loads.drawn) in
      if not (Write.is_valid write_op)
      then record { job = job; memory = m; producer_core = core; tail = tail }
      else finish_turn loads.drawn tail job done

-- The fields of `utest_job` that the loop of `utest_job_receive_buffer` uses, and its buffer of
-- `max_chunk_size_` bytes.
pub record ReceiveJob (S : Type 0) : Type 0 where
  pub buffer : List ℕ
  pub total_data : ℕ
  pub transaction_attempts : ℕ
  pub hash : S

pub record ReadTurnLoads : Type 0 where
  pub tail : ℕ
  pub size_loads : ReadLoads
  pub data_loads : ReadLoads

-- So many bytes from the start of the buffer on. Those behind it, which are not its own, are taken
-- for zeros.
abbrev pub window : (chunk_size : ℕ) (buffer : List ℕ) → List ℕ
window chunk_size buffer = take chunk_size buffer ++ replicate (chunk_size - length buffer) 0

-- What a turn leaves: the job, `consumer_core_`, `head_` of the status words, and whether the loop
-- ends.
pub record ReadTurn (S : Type 0) : Type 0 where
  pub job : ReceiveJob S
  pub consumer_core : ℤ
  pub head : ℕ
  pub quit : Bool

-- Whether the loop that receives ends with this turn.
unfoldable pub quits : (chunk_size : ℕ) → TxRead → Bool
quits chunk_size tx = Read.is_valid tx && (chunk_size == 0)

module _ {S : Type 0} where
  -- The buffer after the second read.
  unfoldable pub fill_buffer : (chunk_size : ℕ) → ReadOut → ReceiveJob S → ReceiveJob S
  fill_buffer chunk_size done job =
      if done.ok then record job { buffer = done.buffer ++ drop chunk_size job.buffer } else job

module _ {S : Type 0} (update : S → List ℕ → S) where
  -- What a turn that receives does with the job, when both reads are made: an attempt is counted, or
  -- the bytes in the buffer are hashed and counted, unless there are none.
  unfoldable pub count_received : (chunk_size : ℕ) → ReceiveJob S → TxRead → ReceiveJob S
  count_received chunk_size job tx =
      if not (Read.is_valid tx)
      then record job { transaction_attempts = add64 job.transaction_attempts 1 }
      else if chunk_size == 0
      then job
      else record job {
        hash = update job.hash (take chunk_size job.buffer);
        total_data = add64 job.total_data chunk_size;
      }

  -- The end of a turn, behind the two reads, with the destructor of `read_op`.
  unfoldable pub finish_read : (chunk_size head : ℕ) → ReceiveJob S → ReadOut → ReadTurn S
  unfolding count_received fill_buffer quits
  finish_read chunk_size head job done = record {
    job = count_received chunk_size (fill_buffer chunk_size done job) done.tx;
    consumer_core = done.consumer_core;
    head = end_read done.tx head;
    quit = quits chunk_size done.tx;
  }

  -- A turn of the loop that receives. The size is not compared with that of the buffer: `none` is
  -- a turn that writes behind the buffer.
  unfoldable pub receive_turn :
      BaseTxQueue → ReadTurnLoads → Memory → ℤ → (head : ℕ) → ReceiveJob S → Option (ReadTurn S)
  receive_turn q loads m core head job =
      let read_op = begin_read q head loads.tail in
      let sized = imp_read loads.size_loads m core read_op (replicate 8 0) in
      let chunk_size = u64_of_bytes sized.buffer in
      let done =
        imp_read loads.data_loads m sized.consumer_core sized.tx (window chunk_size job.buffer) in
      if not (Read.is_valid read_op)
      then some (record { job = job; consumer_core = core; head = head; quit = false })
      else if Read.is_valid done.tx && ltb (length job.buffer) chunk_size
      then none
      else some (finish_read chunk_size head job done)
