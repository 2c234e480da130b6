-- ===== src/Tests/QueueTests.antt =====
-- Queues that are set up, and those that are not.
use tx_queue.Base.{ℕ, ◌+◌, ◌-◌, ◌^◌, ◌≤◌, ◌<◌, ◌≡◌, refl, ◌⊎◌, ◌↔◌, true, some, none, arith, pos}
use tx_queue.Words.Mask.{IsPowerOfTwo}
use tx_queue.Queue.{
  TxQueueStatus, IsReady, is_ok, usable_capacity, smear, round_up, tx_queue_sp, mp_queue,
  tx_queue_mp, destroy_sp, no_queue,
}
use tx_queue.Queue.RoundUp.{round_up_wraps}
use tx_queue.Queue.Construct.{IsFresh, tx_queue_sp-IsReady, mp_queue-is_ok}

-- An allocation that always succeeds, at one address.
abbrev heap : ℕ → ℕ
heap _ = 4096

abbrev left_there : TxQueueStatus
left_there = record { tail = 7; producer_core = pos 3; head = 5; consumer_core = pos 4 }

round_up_runs : (round_up 100 ≡ 128) × (round_up 128 ≡ 128) × (round_up 1 ≡ 1)
unfolding round_up smear
round_up_runs = (refl, refl, refl)

small_sp : (tx_queue_sp heap 1 2 63).queue ≡ no_queue
unfolding tx_queue_sp
small_sp = refl

freed : destroy_sp (tx_queue_sp heap 1 2 64) ≡ some 4096
unfolding destroy_sp tx_queue_sp
freed = refl

-- With no bytes behind the status words the queue passes for a good one, and its usable capacity
-- is 2 ^ 64 - 1.
empty_mp : (is_ok (mp_queue 4096 128) ≡ true) × (usable_capacity (mp_queue 4096 128) ≡ 2 ^ 64 - 1)
unfolding mp_queue is_ok usable_capacity
empty_mp = (refl, refl)

null_mp : tx_queue_mp left_there 0 1152 ≡ none
unfolding tx_queue_mp
null_mp = refl

round_up_wraps_example : round_up (2 ^ 63 + 1) ≡ 0
round_up_wraps_example = round_up_wraps (2 ^ 63 + 1) (omega arith) (omega arith)

tx_queue_sp-IsReady_example :
    IsReady (tx_queue_sp heap 1 2 100).queue
    × IsFresh (tx_queue_sp heap 1 2 100).status
    × (100 ≤ usable_capacity (tx_queue_sp heap 1 2 100).queue + 1)
    × (usable_capacity (tx_queue_sp heap 1 2 100).queue + 1 < 200)
tx_queue_sp-IsReady_example =
    tx_queue_sp-IsReady heap 1 2 100 (omega arith) (omega arith) (omega arith)

mp_queue-is_ok_example :
    (is_ok (mp_queue 4096 1152) ≡ true)
    ↔ ((◌≡◌ {A = ℕ} 0 0) × ((◌≡◌ {A = ℕ} 1024 0) ⊎ IsPowerOfTwo 1024))
mp_queue-is_ok_example = mp_queue-is_ok 4096 1152 (omega arith)
