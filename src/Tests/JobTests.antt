-- ===== src/Tests/JobTests.antt =====
-- A turn of the transmission and one of the reception, on a queue of 64 bytes.
use tx_queue.Base.{ℕ, ◌≡◌, refl, List, [], ◌∷◌, ◌++◌, minus_one, replicate, length, arith}
use tx_queue.Memory.{Memory, store}
use tx_queue.Memory.Ring.{ring, ring_put}
use tx_queue.Queue.{BaseTxQueue, IsReady, is_ok}
use tx_queue.Jobs.{
  TransmitJob, TurnLoads, Turn, ReceiveJob, ReadTurnLoads, bytes_of_u64, frame, transmit_turn,
}
use tx_queue.Tests.Samples.{blank, head_loads, tail_loads, message}

abbrev pub line : BaseTxQueue
line = record { storage = 1000; capacity = 64 }

pub line-IsReady : IsReady line
line-IsReady = record { log = 6; power = refl; small = omega arith; stored = unfold is_ok in refl }

-- The verification keeps the bytes.
abbrev pub keep : List ℕ → List ℕ → List ℕ
keep hash bytes = hash ++ bytes

abbrev sending : TransmitJob (List ℕ)
sending = record { src_data = 9 ∷ message; total_data = 1; transaction_attempts = 0; hash = 9 ∷ [] }

abbrev sending_loads : ℕ → TurnLoads
sending_loads head = record {
  head = head;
  size_loads = head_loads head;
  data_loads = head_loads head;
  drawn = 100;
}

abbrev turn : ℕ → Turn (List ℕ)
turn head = transmit_turn keep line (sending_loads head) blank minus_one 60 sending

abbrev receiving : ReceiveJob (List ℕ)
receiving = record {
  buffer = replicate 5 0;
  total_data = 1;
  transaction_attempts = 0;
  hash = 9 ∷ [];
}

abbrev receiving_loads : ReadTurnLoads
receiving_loads = record { tail = 7; size_loads = tail_loads 7; data_loads = tail_loads 7 }

abbrev sent : Memory
sent = ring_put 1000 64 blank 60 (frame message)

sent-frame : ring 1000 64 sent 60 (length (frame message)) ≡ frame message
unfolding bytes_of_u64 store
sent-frame = refl
