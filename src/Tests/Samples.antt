-- ===== src/Tests/Samples.antt =====
-- A queue of eight bytes at address 1000, transactions on it, and states that a run reaches.
use tx_queue.Base.{ℕ, refl, false, List, [], ◌∷◌, pos, minus_one, arith, inl}
use tx_queue.Memory.{Memory}
use tx_queue.Queue.{BaseTxQueue, IsReady, is_ok}
use tx_queue.Write.{
  TxWrite, WriteLoads, Written, begin_write, imp_write, write_room, available_space,
}
use tx_queue.Write.Laws.{IsWriting}
use tx_queue.Read.{TxRead, ReadLoads, ReadOut, begin_read, imp_read}
use tx_queue.Read.Laws.{IsReading}
use tx_queue.Channel.{
  System, HeadLoad, TailLoad, Reach, here, next, start, open_write, write, close_write, open_read,
  read, opened_write, wrote, closed_write, opened_read, did_read,
}

abbrev pub blank : Memory
blank = λ _. 0

abbrev pub eight : BaseTxQueue
eight = record { storage = 1000; capacity = 8 }

pub eight-IsReady : IsReady eight
eight-IsReady = record { log = 3; power = refl; small = omega arith; stored = unfold is_ok in refl }

-- A write transaction at position 6, two bytes before the end of the storage, that knows the head
-- at position 5.
abbrev pub writing : TxWrite
writing = record { storage = 1000; tail = 6; cached_head = 5; capacity = 8; invalidated = false }

pub writing-IsWriting : IsWriting eight 5 6 writing
writing-IsWriting = record {
  same_storage = refl;
  same_capacity = refl;
  at_tail = refl;
  at_head = refl;
  behind = omega arith;
  room = omega arith;
}

abbrev pub head_loads : ℕ → WriteLoads
head_loads head = record { head = head; consumer_core = pos 2; current_core = pos 2 }

-- A read transaction at position 6 that knows the tail at position 9.
abbrev pub reading : TxRead
reading = record { storage = 1000; head = 6; cached_tail = 1; capacity = 8; invalidated = false }

pub reading-IsReading : IsReading eight 9 6 reading
reading-IsReading = record {
  same_storage = refl;
  same_capacity = refl;
  at_head = refl;
  at_tail = refl;
  behind = omega arith;
  within = omega arith;
}

abbrev pub tail_loads : ℕ → ReadLoads
tail_loads tail = record { tail = tail; producer_core = pos 2; current_core = pos 2 }

abbrev pub message : List ℕ
message = 1 ∷ 2 ∷ 3 ∷ []

-- A run: three bytes are written in one transaction and committed, and one of them is read.
abbrev pub opened : System
opened = opened_write eight (start blank) 0

abbrev pub first_tx : TxWrite
first_tx = begin_write eight 0 0

abbrev pub first_write : Written
first_write = imp_write (head_loads 0) blank minus_one first_tx message

abbrev pub written : System
written = wrote eight opened first_tx (head_loads 0) 0 message

abbrev pub committed : System
committed = closed_write eight written first_write.tx

abbrev pub reader_open : System
reader_open = opened_read eight committed 3

abbrev pub first_reader : TxRead
first_reader = begin_read eight committed.status.head 3

abbrev pub first_read : ReadOut
first_read =
    imp_read (tail_loads 3) committed.memory committed.status.consumer_core first_reader (0 ∷ [])

abbrev pub one_taken : System
one_taken = did_read eight reader_open first_reader (tail_loads 3) 3 (0 ∷ [])

pub opened-load : HeadLoad opened 0
opened-load = record { was_stored = inl refl; not_older = omega arith }

pub opened-Reach : Reach eight blank opened
opened-Reach =
    next here (open_write 0 refl (record { was_stored = inl refl; not_older = omega arith }))

pub written-Reach : Reach eight blank written
written-Reach = next opened-Reach (write first_tx (head_loads 0) 0 message refl opened-load refl)

pub committed-Reach : Reach eight blank committed
committed-Reach = next written-Reach (close_write first_write.tx refl)

pub committed-load : TailLoad committed 3
unfolding imp_write begin_write is_ok available_space write_room
committed-load = record { was_stored = inl refl; not_older = omega arith }

pub reader_open-Reach : Reach eight blank reader_open
reader_open-Reach = next committed-Reach (open_read 3 refl committed-load)

pub reader_open-load : TailLoad reader_open 3
unfolding imp_write begin_write is_ok available_space write_room
reader_open-load = record { was_stored = inl refl; not_older = omega arith }

pub one_taken-Reach : Reach eight blank one_taken
one_taken-Reach =
    next reader_open-Reach (read first_reader (tail_loads 3) 3 (0 ∷ []) refl reader_open-load refl)
