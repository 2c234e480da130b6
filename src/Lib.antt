-- ===== src/Lib.antt =====
-- tx-queue: transaction-based queues for one producer and one consumer, in one process or between
-- two. This library models include/tx-queue.h and include/tx-queue.inl, and the helpers of the test
-- programs under utests/common.
--
-- How the program's parts interact. A queue is storage of a power of two of bytes, and two indices
-- into it, `tail_` and `head_`, in status words that both sides share. A `tx_write_t` copies the
-- indices when it is constructed, each `write` copies bytes into the storage behind its own tail, and
-- its destructor stores that tail in the status words unless the transaction was invalidated. A
-- `tx_read_t` does the same with the head. Each side only stores to its own index. It loads the other
-- side's again when the one that it knows leaves too little room, or too little data. When that
-- fails too it notes its core number, yields if the other side noted the same one, and invalidates
-- the transaction.
--
-- Which file models what.
-- Base: names from the libraries, tests on numbers, lists, signed numbers. Words: `uint64_t`, with
--   its wrap-around, and the masks `x & (capacity - 1)`. Memory: bytes at addresses and `memcpy`, and
--   Memory/Ring, the storage seen as a ring: position p of the stream of all bytes ever written
--   stands at address storage + p % capacity.
-- Queue: `base_tx_queue_t`, `tx_queue_status_t`, the constructors `tx_queue_sp_t` (`tx_queue_sp`,
--   with the rounding `round_up`) and `tx_queue_mp_t` (`tx_queue_mp`), and `~tx_queue_sp_t`
--   (`destroy_sp`). `IsReady` is what the operations need of a queue.
-- Write: `tx_write_t`. `begin_write` is the constructor, `end_write` the destructor, `imp_write`
--   the member of that name, in the pieces `available_space`, `resync`, `write_full`, `copy_in` and
--   `write_room`; `write_item` stands for the overloads of `write`, `write_items` for the variadic one.
-- Read: `tx_read_t`, in the same way: `begin_read`, `end_read`, `imp_read`, and `read_fields` for
--   the structured `read<ARGS...>()`.
-- Channel: one producer and one consumer on a queue, as a step relation whose steps are member
--   functions of the transactions, in any order, from a queue with both indices at 0.
--   Channel/Invariant holds the invariant, WriteSteps, WriteCalls, ReadSteps and ReadCalls are about
--   single steps, Safety and
--   Progress about reachable states, Delivery about whole exchanges; Refinement sets the system
--   against a bounded queue of bytes.
-- Checksum: utests/common/checksum.h. Sha256: utests/common/sha256.h, with `process_block` in
--   Sha256/Compress; Blocks is about `update`, Padding about `to_digest`.
-- Duration: `format_duration` of utests/common/misc.h. SharedMemory:
--   utests/common/shared-memory.h and utests/common/shared-memory.inl over what the system answers.
-- Jobs: of utests/common/utest_jobs.inl, a turn of the loop that transmits a buffer
--   (`transmit_turn`) and of the one that receives it (`receive_turn`). Jobs/Run: the `run` of both
--   jobs at once, as a step relation. A step is a call on the queue with what the code does up to the
--   next one, and a program counter of each job says which is next. In two processes the steps begin
--   with those of `transmision` in utests/inter/producer.cpp and utests/inter/consumer.cpp that pass
--   the start time through the queue. Frames is about chunks in a row on the queue, Parts about what
--   stands before and behind them, Flow and Invariant hold what is true between two steps; Outcomes,
--   ReadOutcomes, Intake and Counting are about single calls, Announcing, Sending and Marking about the
--   steps of the producer, Starting and Receiving about those of the consumer; Steps, Safety and
--   StartTime are about the whole runs, Verified about the hashes of both sides. How a run goes on to
--   its end is said of the producer in Rests and Advance, of the consumer in Pauses, ReadTurn, StampTurn
--   and Pausing, of both in Drain, Ending and Completion. Jobs/Hashes: the verification of a job.
--   Jobs/Settings: construction, setters, `start`. Jobs/Interactive: a turn of each of the interactive
--   jobs; Receiver is about the one that receives.
-- Double: conversions and divisions of `double`, each exact and then rounded to 53 bits, of two as near
--   to the even one, where nothing overflows. Format: `format_size` and `format_throughput` of
--   utests/common/misc.h; a printed number is rounded in the same way to two decimals. Keyboard:
--   `wait_until_key_release` of the same file, on a list of what `GetAsyncKeyState` answers.
-- Hex: `to_string` of a digest. Timestamp: `get_timestamp_str` of utests/common/misc.h.
-- Programs: `main` of utests/intra/main.cpp (`main_intra`), utests/inter/producer.cpp
--   (`main_producer`) and utests/inter/consumer.cpp (`main_consumer`), up to the choice of a test.
--   Attempts: the shared memory that they make and find; Start: whether their queues are there.
--   Transmission: the set-up of the jobs in each `transmision`, with the runs on the queues that the
--   programs make; Result: what the first returns; Statistics: what all print. Arguments are lists of
--   character codes; `atoi` stays at 2 ^ 31 - 1 above it, as in the runtime library of the compiler
--   that the projects are made for.
-- Tests: evaluated examples.
--
-- How state is modelled. A member function takes the transaction, the memory and its own core note,
-- and returns what it leaves of them. What an atomic load of the other side's word returns, and the
-- number of the core, are arguments. In Channel a load of the other side's index returns the value at
-- any position that was ever stored to it, not older than the position that this thread loaded
-- before: that is what the coherence of a single atomic object gives. Copies to and from the storage
-- are taken to be seen in the order in which they are made, as on x64, for the constructors load the
-- other index relaxed and the language alone gives no order then. Positions are natural numbers that
-- grow for ever, the indices are those positions modulo the capacity, at most 2 ^ 63. A buffer is the
-- list of its bytes; an object is the list of the bytes that represent it. Addresses are natural
-- numbers that do not wrap. `_aligned_malloc` is the argument `alloc`. The status words of a
-- multi-process queue are constructed in place: the two core numbers have initialisers, the two
-- indices have none and keep what memory holds.
--
-- Fuel. The operations of the queue have no loops but the copies. The loops of the two `update`
-- functions take the number of bytes as fuel (one more for the checksum, whose last turn only tests),
-- and answer `none` when it is used up. A turn of SHA-256 takes at least a byte, so that is enough; in
-- the checksum the counter of 32 bits decides.
--
-- The search for the exponent of a double has fuel for values from 2 ^ -76 to 2 ^ 181, and bytes by
-- nanoseconds of 64 bits lie well inside.
--
-- The run of the jobs has no fuel: it is a relation, so that its theorems hold after any number of
-- steps. The wait of the consumer's program is given the answers that the system makes until the time
-- is over.
--
-- An array behind the first argument of the variadic `write` is passed as a pointer and is no argument
-- of the model. Both processes place a status over the shared words; the runs take the one that the
-- producer's constructor leaves.
--
-- Not modelled: the creation and the joining of threads, sleeping until the start time, the clock and
-- the texts of the console; of utests/common/misc.h, `get_random`, which asks the random device, and
-- `get_current_thread_core`, which asks the system; the decimal print of numbers, which is the
-- stream's; the yield of a thread beyond the fact that it happens.
pub mod Base
pub mod Words
pub mod Memory
pub mod Queue
pub mod Write
pub mod Read
pub mod Channel
pub mod Checksum
pub mod Sha256
pub mod Duration
pub mod SharedMemory
pub mod Jobs
pub mod Hex
pub mod Timestamp
pub mod Double
pub mod Format
pub mod Keyboard
pub mod Programs
mod Tests
