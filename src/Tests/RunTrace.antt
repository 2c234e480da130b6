-- ===== src/Tests/RunTrace.antt =====
-- A run of both jobs on a queue of 64 bytes, to its end: two bytes are sent in one chunk.
use tx_queue.Base.{ℕ, ◌≡◌, refl, false, inl, Bool, List, [], ◌∷◌, none, replicate, arith}
use tx_queue.Memory.{memcpy_from, memcpy_to, store}
use tx_queue.Queue.{is_ok}
use tx_queue.Write
use tx_queue.Write.{
  TxWrite, begin_write, imp_write, available_space, write_room, copy_in, end_write,
}
use tx_queue.Read
use tx_queue.Read.{TxRead, begin_read, imp_read, available_data, read_data, copy_out, end_read}
use tx_queue.Channel.{HeadLoad, opened_write, opened_read}
use tx_queue.Jobs.{
  bytes_of_u64, u64_of_bytes, chunk_size, chunk, count_sent, count_received, fill_buffer, quits,
  window,
}
use tx_queue.Jobs.Run.{
  sizing, filling, closing, signaling, marking, marked, reading_size, reading_chunk, stopped, Run,
  begin, after_call, after_turn, after_mark, after_size, after_chunk, after_read_turn, open_turn,
  write_size, write_chunk, close_turn, leave_loop, open_mark, write_mark, close_mark,
  open_read_turn, read_size, read_chunk, close_read_turn, RunReach, begun, further,
}
use tx_queue.Jobs.Run.Invariant.{Setup}
use tx_queue.Tests.Samples.{blank, head_loads, tail_loads}
use tx_queue.Tests.JobTests.{line}

abbrev pub two : List ℕ
two = 7 ∷ 8 ∷ []

abbrev pub zeros : List ℕ
zeros = replicate 4 0

module _ {S : Type 0} (update : S → List ℕ → S) (h : S) where
  abbrev pub r0 : Run S
  r0 = begin none blank two zeros h

  abbrev pub r1 : Run S
  r1 = record r0 { system = opened_write line r0.system 0; transmit_pc = sizing 3 }

  abbrev tx1 : TxWrite
  tx1 = begin_write line 0 0

  abbrev pub r2 : Run S
  r2 =
      after_call update line r1 tx1 (head_loads 0) 0 (bytes_of_u64 (chunk_size r1.transmit 3))
        (filling 3)

  abbrev tx2 : TxWrite
  tx2 =
      (imp_write (head_loads 0) r1.system.memory r1.system.status.producer_core tx1
        (bytes_of_u64 (chunk_size r1.transmit 3))).tx

  abbrev pub r3 : Run S
  r3 = after_call update line r2 tx2 (head_loads 0) 0 (chunk r2.transmit 3) (closing 3)

  abbrev tx3 : TxWrite
  tx3 =
      (imp_write (head_loads 0) r2.system.memory r2.system.status.producer_core tx2
        (chunk r2.transmit 3)).tx

  abbrev pub r4 : Run S
  r4 = after_turn update line r3 tx3 3

  abbrev pub r5 : Run S
  r5 = record r4 { transmit_pc = signaling }

  abbrev pub r6 : Run S
  r6 = record r5 { system = opened_write line r5.system 0; transmit_pc = marking }

  abbrev tx6 : TxWrite
  tx6 = begin_write line r5.system.status.tail 0

  abbrev mark_ok : Bool
  mark_ok =
      (imp_write (head_loads 0) r6.system.memory r6.system.status.producer_core tx6
        (bytes_of_u64 0)).ok

  abbrev pub r7 : Run S
  r7 = after_call update line r6 tx6 (head_loads 0) 0 (bytes_of_u64 0) (marked mark_ok)

  abbrev tx7 : TxWrite
  tx7 =
      (imp_write (head_loads 0) r6.system.memory r6.system.status.producer_core tx6
        (bytes_of_u64 0)).tx

  abbrev pub r8 : Run S
  r8 = after_mark update line r7 tx7 mark_ok

  abbrev pub r9 : Run S
  r9 = record r8 { system = opened_read line r8.system 18; receive_pc = reading_size }

  abbrev tx9 : TxRead
  tx9 = begin_read line 0 18

  abbrev pub r10 : Run S
  r10 = after_size update line r9 tx9 (tail_loads 18) 18

  abbrev pub tx10 : TxRead
  tx10 =
      (imp_read (tail_loads 18) r9.system.memory r9.system.status.consumer_core tx9
        (replicate 8 0)).tx

  abbrev pub r11 : Run S
  r11 = after_chunk update line r10 tx10 (tail_loads 18) 18 2

  abbrev tx11 : TxRead
  tx11 =
      (imp_read (tail_loads 18) r10.system.memory r10.system.status.consumer_core tx10
        (window 2 r10.receive.buffer)).tx

  abbrev pub r12 : Run S
  r12 = after_read_turn update line r11 tx11 2

  abbrev pub r13 : Run S
  r13 = record r12 { system = opened_read line r12.system 18; receive_pc = reading_size }

  abbrev tx13 : TxRead
  tx13 = begin_read line r12.system.status.head 18

  abbrev pub r14 : Run S
  r14 = after_size update line r13 tx13 (tail_loads 18) 18

  abbrev tx14 : TxRead
  tx14 =
      (imp_read (tail_loads 18) r13.system.memory r13.system.status.consumer_core tx13
        (replicate 8 0)).tx

  abbrev pub r15 : Run S
  r15 = after_chunk update line r14 tx14 (tail_loads 18) 18 0

  abbrev tx15 : TxRead
  tx15 =
      (imp_read (tail_loads 18) r14.system.memory r14.system.status.consumer_core tx14
        (window 0 r14.receive.buffer)).tx

  abbrev pub r16 : Run S
  r16 = after_read_turn update line r15 tx15 0

  -- The steps, and what is so on the way.
  trace :
      RunReach update line 1 4 r0 r10
      × RunReach update line 1 4 r0 r12
      × RunReach update line 1 4 r0 r16
      × (tx10.invalidated ≡ false)
      × (r10.receive_pc ≡ reading_chunk 2)
      × (r16.receive_pc ≡ stopped)
  unfolding imp_write begin_write available_space is_ok write_room end_write copy_in memcpy_to store
      imp_read begin_read available_data read_data copy_out memcpy_from end_read bytes_of_u64
      u64_of_bytes chunk_size chunk count_sent count_received fill_buffer quits Write.is_valid
      Read.is_valid
  trace =
      let to_r4 : RunReach update line 1 4 r0 r4 =
        let load : HeadLoad r0.system 0 = record {
          was_stored = inl refl;
          not_older = omega arith;
        } in
        further
          (further
            (further
              (further begun (open_turn 3 0 refl (omega arith) (omega arith) (omega arith) load))
              (write_size tx1 (head_loads 0) 0 3 refl refl
                (record { was_stored = inl refl; not_older = omega arith }) refl))
            (write_chunk tx2 (head_loads 0) 0 3 refl refl
              (record { was_stored = inl refl; not_older = omega arith }) refl))
          (close_turn tx3 3 refl refl) in
      let to_r8 : RunReach update line 1 4 r0 r8 =
        further
          (further
            (further (further to_r4 (leave_loop refl (omega arith)))
              (open_mark 0 refl (record { was_stored = inl refl; not_older = omega arith })))
            (write_mark tx6 (head_loads 0) 0 refl refl
              (record { was_stored = inl refl; not_older = omega arith }) refl))
          (close_mark tx7 mark_ok refl refl) in
      let to_r10 : RunReach update line 1 4 r0 r10 =
        further
          (further to_r8
            (open_read_turn 18 refl (record { was_stored = inl refl; not_older = omega arith })))
          (read_size tx9 (tail_loads 18) 18 refl refl
            (record { was_stored = inl refl; not_older = omega arith }) refl) in
      let to_r12 : RunReach update line 1 4 r0 r12 =
        further
          (further to_r10 (
            read_chunk tx10 (tail_loads 18) 18 2 refl refl
              (record { was_stored = inl refl; not_older = omega arith }) refl))
          (close_read_turn tx11 2 refl refl) in
      let to_r16 : RunReach update line 1 4 r0 r16 =
        further
          (further
            (further
              (further to_r12 (
                open_read_turn 18 refl (record { was_stored = inl refl; not_older = omega arith })))
              (read_size tx13 (tail_loads 18) 18 refl refl
                (record { was_stored = inl refl; not_older = omega arith }) refl))
            (read_chunk tx14 (tail_loads 18) 18 0 refl refl
              (record { was_stored = inl refl; not_older = omega arith }) refl))
          (close_read_turn tx15 0 refl refl) in
      (to_r10, to_r12, to_r16, refl, refl, refl)

  pub to_r10 : RunReach update line 1 4 r0 r10
  to_r10 = trace.0

  pub to_r12 : RunReach update line 1 4 r0 r12
  to_r12 = trace.1

  pub to_r16 : RunReach update line 1 4 r0 r16
  to_r16 = trace.2

  pub tx10-good : tx10.invalidated ≡ false
  tx10-good = trace.3

  pub at_chunk : r10.receive_pc ≡ reading_chunk 2
  at_chunk = trace.4

  pub at_end : r16.receive_pc ≡ stopped
  at_end = trace.5

pub two-Setup : Setup 1 4 two
two-Setup = record { some_bytes = omega arith; size_fits = omega arith; data_fits = omega arith }
