-- ===== src/Jobs/Interactive/Laws.antt =====
-- What the interactive jobs send and receive, and say that they do.
use tx_queue.Base.{
  if◌then◌else◌, ℕ, ◌+◌, ◌%◌, ◌^◌, ◌≤◌, ◌<◌, ◌≡◌, refl, ap, ◌∙◌, true, false, List, [], ◌∷◌, ◌++◌,
  some, ℤ, arith, length, dec_lt, ltb,
}
use tx_queue.Memory.{Memory}
use tx_queue.Memory.Ring.{ring, ring-ring_put_self}
use tx_queue.Queue.{BaseTxQueue, IsReady}
use tx_queue.Write
use tx_queue.Write.{
  TxWrite, WriteLoads, Written, object, by_value, begin_write, write_item, write_items, imp_write,
  end_write,
}
use tx_queue.Write.Laws.{IsWriting, imp_write-Succeeds, imp_write-Refused}
use tx_queue.Write.Variants.{AllWritten, write_items-AllWritten}
use tx_queue.Read.{ReadLoads}
use tx_queue.Jobs.{bytes_of_u64}
use tx_queue.Jobs.Interactive.{bytes_of_u16, Message, Told, transmit_message, receive_message}
use tx_queue.Jobs.Interactive.Receiver.{receive_message_prints}

module _ {q : BaseTxQueue} (ready : IsReady q) (m : Memory) (h g p : ℕ) (later : h ≤ g)
    (bounded : g ≤ p) (room : p < h + q.capacity) (message : Message)
    (number_loads timestamp_loads : WriteLoads) (first : number_loads.head ≡ g % q.capacity)
    (second : timestamp_loads.head ≡ g % q.capacity) (core : ℤ) where
  abbrev pub told : Told
  told =
      transmit_message q (h % q.capacity) number_loads timestamp_loads m core (p % q.capacity)
        message

  write_op : TxWrite
  write_op = begin_write q (p % q.capacity) (h % q.capacity)

  valid : write_op.invalidated ≡ false
  unfolding write_op begin_write
  valid = ground (arith, ready.stored)

  stands : IsWriting q h p write_op
  unfolding write_op begin_write
  stands = record {
    same_storage = refl;
    same_capacity = refl;
    at_tail = refl;
    at_head = refl;
    behind = omega arith;
    room = room;
  }

  bytes : List ℕ
  bytes = bytes_of_u16 message.number ++ bytes_of_u64 message.timestamp

  done : Written
  done =
      write_items m core write_op (number_loads, object (bytes_of_u16 message.number))
        ((timestamp_loads, by_value (bytes_of_u64 message.timestamp)) ∷ [])

  told-eq : told ≡ record {
    memory = done.memory;
    producer_core = done.producer_core;
    tail = end_write done.tx (p % q.capacity);
    sent = some message;
  }
  unfolding transmit_message Write.is_valid done write_op
  told-eq = rw valid refl

  written : p + 10 < g + q.capacity → AllWritten q g p m bytes done
  unfolding bytes done bytes_of_u16 bytes_of_u64
  written fits =
      write_items-AllWritten ready g m core h p write_op number_loads
        (object (bytes_of_u16 message.number))
        ((timestamp_loads, by_value (bytes_of_u64 message.timestamp)) ∷ []) valid stands later
        bounded first tt (second, tt) (omega arith)

  -- The first part is refused, or the second.
  invalid : g + q.capacity ≤ p + 10 → done.tx.invalidated ≡ true
  unfolding done bytes_of_u16 bytes_of_u64 write_items write_item
  invalid full = elim (dec_lt (p + 2) (g + q.capacity)) [
    | yes fits ↦
        let w =
          imp_write-Succeeds ready number_loads m core h g p write_op (bytes_of_u16 message.number)
            valid stands later bounded first fits in
        let number = imp_write number_loads m core write_op (bytes_of_u16 message.number) in
        let r =
          imp_write-Refused ready timestamp_loads number.memory number.producer_core
            (if ltb (p + 2) (h + q.capacity) then h else g) g (p + 2) number.tx
            (bytes_of_u64 message.timestamp) w.valid w.stands (ground arith) (omega arith) second
            (omega arith) in
        rw (w.ok) (r.invalid)
    | no none_fits ↦
        let r =
          imp_write-Refused ready number_loads m core h g p write_op (bytes_of_u16 message.number)
            valid stands later bounded first (omega arith) in
        rw (r.ok) (r.invalid)
  ]

  -- When the number and the timestamp do not both fit in front of the head that the loads return, a
  -- turn of the interactive transmitter on a ready queue says that it has sent the message, and has
  -- committed nothing.
  pub unsent_is_told :
      g + q.capacity ≤ p + 10 → (told.sent ≡ some message) × (told.tail ≡ p % q.capacity)
  unfolding end_write
  unsent_is_told full = rw (told-eq, invalid full) (refl, refl)

  -- A message of a number of 16 bits and a timestamp of 64 that an interactive transmitter sends on a
  -- ready queue with room for it is the one that a receiver at its place prints, once it loads the
  -- tail behind it; each side then stands behind the message.
  pub message_arrives :
      (number_loads' timestamp_loads' : ReadLoads) (core' : ℤ)
      → number_loads'.tail ≡ (p + 10) % q.capacity
      → timestamp_loads'.tail ≡ (p + 10) % q.capacity
      → p + 10 < g + q.capacity
      → message.number < 2 ^ 16
      → message.timestamp < 2 ^ 64
      → let heard =
          receive_message q told.tail number_loads' timestamp_loads' told.memory core'
            (p % q.capacity) in
        (told.sent ≡ some message)
        × (heard.received ≡ some message)
        × (told.tail ≡ (p + 10) % q.capacity)
        × (heard.head ≡ (p + 10) % q.capacity)
  unfolding end_write bytes bytes_of_u16 bytes_of_u64
  message_arrives number_loads' timestamp_loads' core' first' second' fits small small' =
      let w = written fits in
      let tail : told.tail ≡ (p + 10) % q.capacity =
        rw (told-eq, w.valid) (w.stands.at_tail ∙ ap (λ n. n % q.capacity) size) in
      let stored : ring q.storage q.capacity told.memory p 10 ≡ bytes =
        ap (λ t. ring q.storage q.capacity t.memory p 10) told-eq
        ∙ ap (λ t. ring q.storage q.capacity t p 10) w.stored
        ∙ ring-ring_put_self q.storage q.capacity m p bytes (omega arith) in
      let (heard, head) =
        receive_message_prints ready told.memory p message number_loads' timestamp_loads' core'
          first' second' (omega arith) small small' stored in
      (
        ap (λ t. t.sent) told-eq,
        ap
              (λ t.
                (receive_message q t number_loads' timestamp_loads' told.memory core'
                  (p % q.capacity)).received)
              tail
            ∙ heard,
        tail,
        ap
              (λ t.
                (receive_message q t number_loads' timestamp_loads' told.memory core'
                  (p % q.capacity)).head)
              tail
            ∙ head,
      )
    where
      size : p + length bytes ≡ p + 10
      size = unfold bytes bytes_of_u16 bytes_of_u64 in refl
