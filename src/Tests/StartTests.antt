-- ===== src/Tests/StartTests.antt =====
-- A run in two processes on a queue of 64 bytes, up to the start of the consumer's job: the start
-- time 300 passes the queue.
use tx_queue.Base.{ℕ, ◌≡◌, refl, inl, List, [], some, replicate, arith}
use tx_queue.Memory.{memcpy_from, memcpy_to, store}
use tx_queue.Queue.{is_ok}
use tx_queue.Write.{
  TxWrite, begin_write, imp_write, available_space, write_room, copy_in, end_write,
}
use tx_queue.Read.{TxRead, begin_read, imp_read, available_data, read_data, copy_out, end_read}
use tx_queue.Channel.{opened_write, opened_read}
use tx_queue.Jobs.{bytes_of_u64, u64_of_bytes}
use tx_queue.Jobs.Run.{
  looping, stamping, stamped, reading_stamp, awaiting, Run, begin, after_call, after_stamp,
  after_read_stamp, after_stamp_turn, open_stamp, write_stamp, close_stamp, open_read_stamp,
  read_stamp, close_read_stamp, RunReach, begun, further,
}
use tx_queue.Jobs.Run.StartTime.{HasAnnounced, start_time_arrives}
use tx_queue.Tests.Samples.{blank, head_loads, tail_loads}
use tx_queue.Tests.JobTests.{line, line-IsReady, keep}
use tx_queue.Tests.RunTrace.{two, zeros, two-Setup}

abbrev s0 : Run (List ℕ)
s0 = begin (some 300) blank two zeros []

abbrev s1 : Run (List ℕ)
s1 = record s0 { system = opened_write line s0.system 0; transmit_pc = stamping }

abbrev tx1 : TxWrite
tx1 = begin_write line 0 0

abbrev s2 : Run (List ℕ)
s2 = after_call keep line s1 tx1 (head_loads 0) 0 (bytes_of_u64 300) stamped

abbrev tx2 : TxWrite
tx2 =
    (imp_write (head_loads 0) s1.system.memory s1.system.status.producer_core tx1
      (bytes_of_u64 300)).tx

abbrev s3 : Run (List ℕ)
s3 = after_stamp keep line s2 tx2

abbrev s4 : Run (List ℕ)
s4 = record s3 { system = opened_read line s3.system 8; receive_pc = reading_stamp }

abbrev tx4 : TxRead
tx4 = begin_read line 0 8

abbrev s5 : Run (List ℕ)
s5 = after_read_stamp keep line s4 tx4 (tail_loads 8) 8

abbrev tx5 : TxRead
tx5 =
    (imp_read (tail_loads 8) s4.system.memory s4.system.status.consumer_core tx4 (replicate 8 0)).tx

abbrev s6 : Run (List ℕ)
s6 = after_stamp_turn keep line s5 tx5 300

to_s6 : RunReach keep line 1 4 s0 s6
unfolding imp_write begin_write available_space is_ok write_room end_write copy_in memcpy_to store
    imp_read begin_read available_data read_data copy_out memcpy_from end_read bytes_of_u64
    u64_of_bytes
to_s6 =
    further
      (further
        (further
          (further
            (further
              (further begun (
                open_stamp 300 0 refl refl
                  (record { was_stored = inl refl; not_older = omega arith })))
              (write_stamp 300 tx1 (head_loads 0) 0 refl refl refl
                (record { was_stored = inl refl; not_older = omega arith }) refl))
            (close_stamp tx2 refl refl))
          (open_read_stamp 8 refl (record { was_stored = inl refl; not_older = omega arith })))
        (read_stamp tx4 (tail_loads 8) 8 refl refl
          (record { was_stored = inl refl; not_older = omega arith }) refl))
      (close_read_stamp tx5 300 refl refl)

-- The consumer has the time, and both jobs are at their start.
at_start : (s6.start_time ≡ 300) × (s6.transmit_pc ≡ looping) × (s6.receive_pc ≡ awaiting)
unfolding imp_write begin_write available_space is_ok write_room end_write copy_in memcpy_to store
    imp_read begin_read available_data read_data copy_out memcpy_from end_read bytes_of_u64
    u64_of_bytes
at_start = (refl, refl, refl)

start_time_arrives_example : (s6.start_time ≡ 300) × HasAnnounced s6.transmit_pc
start_time_arrives_example =
    start_time_arrives line-IsReady 300 (omega arith, omega arith, omega arith) two-Setup to_s6 tt
