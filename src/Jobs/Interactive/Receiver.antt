-- ===== src/Jobs/Interactive/Receiver.antt =====
-- What the interactive receiver prints in front of the bytes of a message.
use tx_queue.Base.{
  if◌then◌else◌, ℕ, ◌+◌, ◌%◌, ◌^◌, ◌<◌, ◌≡◌, refl, ap, ap₂, ◌∙◌, false, List, [], ◌∷◌, ◌++◌, none,
  some, ℤ, arith, replicate,
}
use tx_queue.Memory.{Memory}
use tx_queue.Memory.Ring.{ring}
use tx_queue.Queue.{BaseTxQueue, IsReady}
use tx_queue.Read
use tx_queue.Read.{Fields, TxRead, ReadLoads, begin_read, read_fields, end_read}
use tx_queue.Read.Laws.{IsReading}
use tx_queue.Read.Variants.{read_fields-AllRead}
use tx_queue.Channel.Invariant.{ring-take, ring-drop}
use tx_queue.Jobs.{bytes_of_u64, u64_of_bytes}
use tx_queue.Jobs.Receive.{u64_of_bytes-bytes_of_u64}
use tx_queue.Jobs.Interactive.{bytes_of_u16, Message, Heard, message_of, receive_message}

u64_of_bytes-bytes_of_u16 : (x : ℕ) → x < 2 ^ 16 → u64_of_bytes (bytes_of_u16 x) ≡ x
unfolding u64_of_bytes bytes_of_u16
u64_of_bytes-bytes_of_u16 x fits = omega arith

-- A receiver in front of the bytes of a message, with a tail behind them.
pub receive_message_prints :
    {q : BaseTxQueue} (ready : IsReady q) (m : Memory) (p : ℕ) (message : Message)
    (number_loads timestamp_loads : ReadLoads) (core : ℤ)
    → number_loads.tail ≡ (p + 10) % q.capacity
    → timestamp_loads.tail ≡ (p + 10) % q.capacity
    → 10 < q.capacity
    → message.number < 2 ^ 16
    → message.timestamp < 2 ^ 64
    → ring q.storage q.capacity m p 10
      ≡ bytes_of_u16 message.number ++ bytes_of_u64 message.timestamp
    → let heard =
        receive_message q
          ((p + 10) % q.capacity)
          number_loads
          timestamp_loads
          m
          core
          (p % q.capacity) in
      (heard.received ≡ some message) × (heard.head ≡ (p + 10) % q.capacity)
unfolding receive_message Read.is_valid end_read
receive_message_prints {q} ready m p message number_loads timestamp_loads core first second big
      small small' stored =
    let fields : List (ReadLoads × List ℕ) =
      (number_loads, replicate 2 0) ∷ (timestamp_loads, replicate 8 0) ∷ [] in
    let done =
      read_fields-AllRead ready (p + 10) m fields core (p + 10) p
        (begin_read q (p % q.capacity) ((p + 10) % q.capacity)) valid stands (omega arith)
        (omega arith) (first, (second, tt)) (omega arith) in
    let printed : heard.received ≡ some message =
      ap (λ t. t.received) heard-eq ∙ rw (done.valid, done.values_eq) same in
    let behind : heard.head ≡ (p + 10) % q.capacity =
      ap (λ t. t.head) heard-eq ∙ rw (done.valid) (done.stands.at_head) in
    (printed, behind)
  where
    read_op : TxRead
    read_op = begin_read q (p % q.capacity) ((p + 10) % q.capacity)

    valid : read_op.invalidated ≡ false
    valid = unfold begin_read in ground (arith, ready.stored)

    got : Fields
    got =
        read_fields m core read_op
          ((number_loads, replicate 2 0) ∷ (timestamp_loads, replicate 8 0) ∷ [])

    heard : Heard
    heard =
        receive_message q ((p + 10) % q.capacity) number_loads timestamp_loads m core
          (p % q.capacity)

    heard-eq : heard ≡ record {
      consumer_core = got.consumer_core;
      head = end_read got.tx (p % q.capacity);
      received = if Read.is_valid got.tx then some (message_of got.values) else none;
    }
    heard-eq = unfold receive_message Read.is_valid in rw valid refl

    number_there : ring q.storage q.capacity m p 2 ≡ bytes_of_u16 message.number
    number_there =
        unfold bytes_of_u16 bytes_of_u64 in
        ring-take q.storage q.capacity m 2 p
          (bytes_of_u16 message.number ++ bytes_of_u64 message.timestamp) (omega arith) stored

    timestamp_there : ring q.storage q.capacity m (p + 2) 8 ≡ bytes_of_u64 message.timestamp
    timestamp_there =
        unfold bytes_of_u16 bytes_of_u64 in
        ring-drop q.storage q.capacity m 2 p
          (bytes_of_u16 message.number ++ bytes_of_u64 message.timestamp) (omega arith) stored

    same :
        some (
          message_of (ring q.storage q.capacity m p 2 ∷ ring q.storage q.capacity m (p + 2) 8 ∷ []))
        ≡ some message
    same =
        ap₂ (λ a b. some (record { number = a; timestamp = b }))
          (ap u64_of_bytes number_there ∙ u64_of_bytes-bytes_of_u16 message.number small)
          (ap u64_of_bytes timestamp_there ∙ u64_of_bytes-bytes_of_u64 message.timestamp small')

    stands : IsReading q (p + 10) p (begin_read q (p % q.capacity) ((p + 10) % q.capacity))
    stands =
        unfold begin_read in
        record {
          same_storage = refl;
          same_capacity = refl;
          at_head = refl;
          at_tail = refl;
          behind = omega arith;
          within = omega arith;
        }
