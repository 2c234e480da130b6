-- ===== src/Channel.antt =====
-- One producer and one consumer on a queue of include/tx-queue.h, interleaved in any order: a step
-- is a member function of a transaction. A load of the other side's index returns any value that
-- was stored to it, not older than the one that the thread had loaded before.
pub mod Invariant
pub mod WriteSteps
pub mod WriteCalls
pub mod ReadSteps
pub mod ReadCalls
pub mod Safety
pub mod Refinement
pub mod Progress
pub mod Delivery
use tx_queue.Base.{
  ℕ, ◌+◌, ◌%◌, ◌≤◌, ◌≡◌, ◌⊎◌, not, ◌&&◌, List, [], ◌∷◌, ◌++◌, Option, none, some, minus_one, ltb,
  if◌then◌else◌, length,
}
use tx_queue.Memory.{Memory}
use tx_queue.Queue.{BaseTxQueue, TxQueueStatus}
use tx_queue.Write
use tx_queue.Write.{
  TxWrite, WriteLoads, Written, begin_write, imp_write, available_space, end_write,
}
use tx_queue.Read
use tx_queue.Read.{TxRead, ReadLoads, ReadOut, begin_read, imp_read, available_data, end_read}

-- The shared state and the open transactions, with a record of what was done: the bytes of the
-- write transactions that were committed (`sent`) and of the one that is open (`pending`), those of
-- the read transactions (`received`, `taken`), the positions that were stored to each index, newest
-- first, and the position that each thread has last loaded of the other's index.
pub record System : Type 0 where
  pub memory : Memory
  pub status : TxQueueStatus
  pub writer : Option TxWrite
  pub reader : Option TxRead
  pub sent : List ℕ
  pub pending : List ℕ
  pub received : List ℕ
  pub taken : List ℕ
  pub tails : List ℕ
  pub heads : List ℕ
  pub head_seen : ℕ
  pub tail_seen : ℕ

abbrev pub IsIn : ℕ → List ℕ → Type 0
IsIn p [] = ⊥
IsIn p (x ∷ xs) = (p ≡ x) ⊎ IsIn p xs

-- A queue that was just made, with any bytes in its storage.
abbrev pub start : Memory → System
start m = record {
  memory = m;
  status = record { tail = 0; producer_core = minus_one; head = 0; consumer_core = minus_one };
  writer = none;
  reader = none;
  sent = [];
  pending = [];
  received = [];
  taken = [];
  tails = 0 ∷ [];
  heads = 0 ∷ [];
  head_seen = 0;
  tail_seen = 0;
}

-- What a load of `head_` in the producer may return, as a position.
pub record HeadLoad (s : System) (seen : ℕ) : Type 0 where
  pub was_stored : IsIn seen s.heads
  pub not_older : s.head_seen ≤ seen

-- What a load of `tail_` in the consumer may return, as a position.
pub record TailLoad (s : System) (seen : ℕ) : Type 0 where
  pub was_stored : IsIn seen s.tails
  pub not_older : s.tail_seen ≤ seen

module _ (q : BaseTxQueue) (s : System) where
  abbrev pub opened_write : (seen : ℕ) → System
  opened_write seen = record s {
    writer = some (begin_write q s.status.tail (seen % q.capacity));
    pending = [];
    head_seen = seen;
  }

  -- The state after a call of `write` with the result `r`, if the producer then knows `head_seen`.
  abbrev pub after_write : (r : Written) (buffer : List ℕ) (head_seen : ℕ) → System
  after_write r buffer head_seen = record s {
    memory = r.memory;
    status = record s.status { producer_core = r.producer_core };
    writer = some r.tx;
    pending = if r.ok then s.pending ++ buffer else s.pending;
    head_seen = head_seen;
  }

  -- The acquire load is made only if the head that the transaction knows leaves no room.
  abbrev pub wrote : (tx : TxWrite) (loads : WriteLoads) (seen : ℕ) (buffer : List ℕ) → System
  wrote tx loads seen buffer =
      after_write (imp_write loads s.memory s.status.producer_core tx buffer) buffer (
        if not tx.invalidated && ltb (available_space tx) (length buffer)
        then seen
        else s.head_seen)

  abbrev pub dropped_write : (tx : TxWrite) → System
  dropped_write tx = record s { writer = some (Write.invalidate tx) }

  abbrev pub closed_write : (tx : TxWrite) → System
  closed_write tx =
      let sent = if not tx.invalidated then s.sent ++ s.pending else s.sent in
      record s {
        status = record s.status { tail = end_write tx s.status.tail };
        writer = none;
        sent = sent;
        pending = [];
        tails = if not tx.invalidated then length sent ∷ s.tails else s.tails;
      }

  abbrev pub opened_read : (seen : ℕ) → System
  opened_read seen = record s {
    reader = some (begin_read q s.status.head (seen % q.capacity));
    taken = [];
    tail_seen = seen;
  }

  -- The state after a call of `read` with the result `r`, if the consumer then knows `tail_seen`.
  abbrev pub after_read : (r : ReadOut) (tail_seen : ℕ) → System
  after_read r tail_seen = record s {
    status = record s.status { consumer_core = r.consumer_core };
    reader = some r.tx;
    taken = if r.ok then s.taken ++ r.buffer else s.taken;
    tail_seen = tail_seen;
  }

  -- The acquire load is made only if the tail that the transaction knows shows too little data.
  abbrev pub did_read : (tx : TxRead) (loads : ReadLoads) (seen : ℕ) (buffer : List ℕ) → System
  did_read tx loads seen buffer =
      after_read (imp_read loads s.memory s.status.consumer_core tx buffer) (
        if not tx.invalidated && ltb (available_data tx) (length buffer) then seen else s.tail_seen)

  abbrev pub dropped_read : (tx : TxRead) → System
  dropped_read tx = record s { reader = some (Read.invalidate tx) }

  abbrev pub closed_read : (tx : TxRead) → System
  closed_read tx =
      let received = if not tx.invalidated then s.received ++ s.taken else s.received in
      record s {
        status = record s.status { head = end_read tx s.status.head };
        reader = none;
        received = received;
        taken = [];
        heads = if not tx.invalidated then length received ∷ s.heads else s.heads;
      }

-- A thread has at most one transaction at a time. The buffers, the core numbers that the loads
-- return and the moments at which transactions are dropped or closed are left open.
pub data Step (q : BaseTxQueue) (s : System) : System → Type 0 where
  open_write : (seen : ℕ) → s.writer ≡ none → HeadLoad s seen → Step q s (opened_write q s seen)
  write :
      (tx : TxWrite) (loads : WriteLoads) (seen : ℕ) (buffer : List ℕ)
      → s.writer ≡ some tx
      → HeadLoad s seen
      → loads.head ≡ seen % q.capacity
      → Step q s (wrote q s tx loads seen buffer)
  drop_write : (tx : TxWrite) → s.writer ≡ some tx → Step q s (dropped_write q s tx)
  close_write : (tx : TxWrite) → s.writer ≡ some tx → Step q s (closed_write q s tx)
  open_read : (seen : ℕ) → s.reader ≡ none → TailLoad s seen → Step q s (opened_read q s seen)
  read :
      (tx : TxRead) (loads : ReadLoads) (seen : ℕ) (buffer : List ℕ)
      → s.reader ≡ some tx
      → TailLoad s seen
      → loads.tail ≡ seen % q.capacity
      → Step q s (did_read q s tx loads seen buffer)
  drop_read : (tx : TxRead) → s.reader ≡ some tx → Step q s (dropped_read q s tx)
  close_read : (tx : TxRead) → s.reader ≡ some tx → Step q s (closed_read q s tx)

pub data Reach (q : BaseTxQueue) (m : Memory) : System → Type 0 where
  here : Reach q m (start m)
  next : {s t : System} → Reach q m s → Step q s t → Reach q m t
