-- ===== src/Jobs/Interactive.antt =====
-- The interactive jobs of utests/common/utest_jobs.inl: a random number and a timestamp are sent in
-- one transaction at each release of a key, and received with the structured read.
pub mod Receiver
pub mod Laws
use tx_queue.Base.{
  ℕ, ◌+◌, ◌-◌, ◌/◌, ◌%◌, ◌^◌, ◌≤◌, ◌<◌, ◌≡◌, refl, sym, ap, ap₂, ◌∙◌, true, false, not, Bool, List,
  [], ◌∷◌, ◌++◌, Option, none, some, ℤ, arith, length, replicate, dec_lt, if◌then◌else◌, ltb,
  length-append, append-nil,
}
use tx_queue.Memory.{Memory}
use tx_queue.Memory.Ring.{ring, ring_put, ring-ring_put_self}
use tx_queue.Queue.{BaseTxQueue, IsReady}
use tx_queue.Write
use tx_queue.Write.{
  TxWrite, WriteLoads, Written, object, by_value, begin_write, write_item, write_items, imp_write,
  end_write,
}
use tx_queue.Write.Laws.{IsWriting, imp_write-Succeeds, imp_write-Refused}
use tx_queue.Write.Variants.{AllWritten, write_items-AllWritten}
use tx_queue.Read
use tx_queue.Read.{TxRead, ReadLoads, begin_read, read_fields, end_read}
use tx_queue.Read.Laws.{IsReading}
use tx_queue.Read.Variants.{AllRead, read_fields-AllRead}
use tx_queue.Channel.Invariant.{ring-take, ring-drop}
use tx_queue.Jobs.{bytes_of_u64, u64_of_bytes}
use tx_queue.Jobs.Receive.{u64_of_bytes-bytes_of_u64}

-- A `uint16_t` as it lies in memory.
unfoldable pub bytes_of_u16 : ℕ → List ℕ
bytes_of_u16 x = x % 256 ∷ x / 2 ^ 8 % 256 ∷ []

-- The timestamp, an `int64_t`, is given by its 64 bits.
pub record Message : Type 0 where
  pub number : ℕ
  pub timestamp : ℕ

-- What a turn of the transmitter leaves, and the message that it says it has sent.
pub record Told : Type 0 where
  pub memory : Memory
  pub producer_core : ℤ
  pub tail : ℕ
  pub sent : Option Message

-- A turn of the transmitter, behind the release of the key. The result of the write is not looked at.
unfoldable pub transmit_message :
    BaseTxQueue
    → (head : ℕ) (number_loads timestamp_loads : WriteLoads) → Memory
    → ℤ
    → (tail : ℕ) → Message
    → Told
transmit_message q head number_loads timestamp_loads m core tail message =
    let tx = begin_write q tail head in
    let done =
      write_items m core tx (number_loads, object (bytes_of_u16 message.number))
        ((timestamp_loads, by_value (bytes_of_u64 message.timestamp)) ∷ []) in
    if Write.is_valid tx
    then record {
      memory = done.memory;
      producer_core = done.producer_core;
      tail = end_write done.tx tail;
      sent = some message;
    }
    else record { memory = m; producer_core = core; tail = tail; sent = none }

-- What a turn of the receiver leaves, and the message that it prints.
pub record Heard : Type 0 where
  pub consumer_core : ℤ
  pub head : ℕ
  pub received : Option Message

abbrev pub message_of : List (List ℕ) → Message
message_of (number ∷ timestamp ∷ _) = record {
  number = u64_of_bytes number;
  timestamp = u64_of_bytes timestamp;
}
message_of _ = record { number = 0; timestamp = 0 }

unfoldable pub receive_message :
    BaseTxQueue
    → (tail : ℕ) (number_loads timestamp_loads : ReadLoads) → Memory
    → ℤ
    → (head : ℕ) → Heard
receive_message q tail number_loads timestamp_loads m core head =
    let tx = begin_read q head tail in
    let done =
      read_fields m core tx
        ((number_loads, replicate 2 0) ∷ (timestamp_loads, replicate 8 0) ∷ []) in
    if Read.is_valid tx
    then record {
      consumer_core = done.consumer_core;
      head = end_read done.tx head;
      received = if Read.is_valid done.tx then some (message_of done.values) else none;
    }
    else record { consumer_core = core; head = head; received = none }
