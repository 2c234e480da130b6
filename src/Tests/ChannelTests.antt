-- ===== src/Tests/ChannelTests.antt =====
-- The system of both threads at the run of the samples.
use tx_queue.Base.{
  ℕ, ◌+◌, ◌-◌, ◌≤◌, ◌<◌, ◌≡◌, refl, inl, inr, ◌↔◌, true, false, List, [], ◌∷◌, ◌++◌, none, length,
  arith,
}
use tx_queue.Memory.Ring.{ring}
use tx_queue.Write
use tx_queue.Write.{
  TxWrite, imp_write, begin_write, available_space, write_room, end_write, copy_in,
}
use tx_queue.Read.{imp_read, begin_read, available_data, read_data, copy_out}
use tx_queue.Memory.{memcpy_from, memcpy_to, store}
use tx_queue.Queue.{is_ok}
use tx_queue.Channel.{System, IsIn, close_write, write, dropped_write, closed_write}
use tx_queue.Channel.Safety.{received_in_order, unread_stored, Step-outside, arrives_whole}
use tx_queue.Channel.Refinement.{FifoStep, abstracted, Step-refines}
use tx_queue.Channel.Progress.{write-ok_iff, read-ok_iff}
use tx_queue.Channel.Delivery.{WriteTransaction, ReadTransaction, can_deliver}
use tx_queue.Tests.Samples.{
  eight, eight-IsReady, head_loads, tail_loads, message, opened, first_tx, first_write, written,
  committed, reader_open, first_reader, first_read, one_taken, opened-load, opened-Reach,
  written-Reach, committed-Reach, reader_open-Reach, one_taken-Reach,
}

run_takes_first :
    (one_taken.sent ≡ message) × (one_taken.taken ≡ 1 ∷ []) × (one_taken.status.tail ≡ 3)
unfolding imp_write begin_write is_ok available_space write_room end_write imp_read begin_read
    available_data read_data copy_out memcpy_from copy_in memcpy_to store
run_takes_first = (refl, refl, refl)

received_in_order_example :
    (left : List ℕ) × (one_taken.sent ≡ one_taken.received ++ (one_taken.taken ++ left))
received_in_order_example = received_in_order eight-IsReady one_taken-Reach

unread_stored_example :
    (unread : List ℕ) × (written.sent ≡ written.received ++ unread)
    × (length unread + length written.pending < 8)
    × (ring 1000 8 written.memory (length written.received) (length unread) ≡ unread)
    × (ring 1000 8 written.memory (length written.sent) (length written.pending) ≡ written.pending)
unread_stored_example = unread_stored eight-IsReady written-Reach

Step-outside_example : written.memory 999 ≡ opened.memory 999
Step-outside_example =
    Step-outside eight-IsReady opened-Reach
      (write first_tx (head_loads 0) 0 message refl opened-load refl) 999 (inl (omega arith))

abbrev dropped_tx : TxWrite
dropped_tx = Write.invalidate first_write.tx

abbrev dropped : System
dropped = dropped_write eight written first_write.tx

abbrev dropped_closed : System
dropped_closed = closed_write eight dropped dropped_tx

one_taken-good : first_read.tx.invalidated ≡ false
unfolding imp_write begin_write is_ok available_space write_room end_write imp_read begin_read
    available_data read_data copy_out memcpy_from copy_in memcpy_to store
one_taken-good = refl

one_taken-begun : 0 < length one_taken.received + length one_taken.taken
unfolding imp_write begin_write is_ok available_space write_room end_write imp_read begin_read
    available_data read_data copy_out memcpy_from copy_in memcpy_to store
one_taken-begun = omega arith

one_taken-tails : (b : ℕ) → IsIn b one_taken.tails → 0 < b → 3 ≤ b
unfolding imp_write begin_write is_ok available_space write_room
one_taken-tails b (inl e) h = omega arith
one_taken-tails b (inr (inl e)) h = omega arith
one_taken-tails b (inr (inr e)) h = absurd e

one_taken-fits : length one_taken.received + length one_taken.taken + 2 ≤ 3
unfolding imp_write begin_write is_ok available_space write_room end_write imp_read begin_read
    available_data read_data copy_out memcpy_from copy_in memcpy_to store
one_taken-fits = omega arith

arrives_whole_example :
    (imp_read
      (tail_loads 3)
      one_taken.memory
      one_taken.status.consumer_core
      first_read.tx
      (0 ∷ 0 ∷ [])).ok
    ≡ true
arrives_whole_example =
    arrives_whole eight-IsReady one_taken-Reach refl one_taken-good 0 3 one_taken-begun
      one_taken-tails (tail_loads 3) (0 ∷ 0 ∷ []) one_taken-fits

first_tx-good : first_tx.invalidated ≡ false
unfolding begin_write is_ok
first_tx-good = refl

write-ok_iff_example :
    ((imp_write (head_loads 0) opened.memory opened.status.producer_core first_tx message).ok
      ≡ true)
    ↔ (length opened.sent - length opened.received + length opened.pending + length message < 8)
write-ok_iff_example =
    write-ok_iff eight-IsReady opened-Reach refl first_tx-good (head_loads 0) message refl

first_reader-good : first_reader.invalidated ≡ false
unfolding begin_read is_ok
first_reader-good = refl

tail-three : (tail_loads 3).tail ≡ reader_open.status.tail
unfolding imp_write begin_write is_ok available_space write_room end_write
tail-three = refl

first_read-ok :
    (imp_read
      (tail_loads 3)
      reader_open.memory
      reader_open.status.consumer_core
      first_reader
      (0 ∷ [])).ok
    ≡ true
unfolding imp_write begin_write is_ok available_space write_room end_write imp_read begin_read
    available_data read_data copy_out memcpy_from copy_in memcpy_to store
first_read-ok = refl

read-ok_iff_example :
    ((imp_read
        (tail_loads 3)
        reader_open.memory
        reader_open.status.consumer_core
        first_reader
        (0 ∷ [])).ok
      ≡ true)
    ↔ (length reader_open.received + length reader_open.taken + 1 ≤ length reader_open.sent)
read-ok_iff_example =
    read-ok_iff eight-IsReady reader_open-Reach refl first_reader-good (tail_loads 3) (0 ∷ [])
      tail-three

committed-fits : length committed.sent - length committed.received + 3 < 8
unfolding imp_write begin_write is_ok available_space write_room end_write
committed-fits = omega arith

can_deliver_example :
    (between : System) × (t : System) × (into : List ℕ) × WriteTransaction eight committed message
      between
    × ReadTransaction eight between into t
    × (t.sent ≡ committed.sent ++ message)
    × (t.received ≡ committed.sent ++ message)
    × (t.writer ≡ none)
    × (t.reader ≡ none)
can_deliver_example = can_deliver eight-IsReady committed-Reach refl refl message committed-fits

Step-refines_example : FifoStep 8 (abstracted written) (abstracted committed)
Step-refines_example = Step-refines eight-IsReady written-Reach (close_write first_write.tx refl)
