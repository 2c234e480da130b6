-- ===== src/Queue.antt =====
-- include/tx-queue.h and the constructors of include/tx-queue.inl: the queue, the status words that
-- both sides share, and how a single-process and a multi-process queue are set up.
pub mod RoundUp
pub mod Construct
use Prim.Native.Nat.{bit_and, bit_or}
use tx_queue.Base.{
  ℕ, ◌+◌, ◌-◌, ◌^◌, ◌≤◌, ◌≡◌, Bool, true, false, not, ◌||◌, Option, none, some, ℤ, minus_one, ltb,
  ◌==◌, if◌then◌else◌,
}
use tx_queue.Words.{add64, sub64, shr}
use tx_queue.Memory.{nullptr}

-- `hardware_destructive_interference_size` on x64.
abbrev pub cache_line_size : ℕ
cache_line_size = 64

-- Two cache lines: each index is aligned to one, with the core number behind it.
abbrev pub sizeof_tx_queue_status : ℕ
sizeof_tx_queue_status = 128

pub record BaseTxQueue : Type 0 where
  pub storage : ℕ
  pub capacity : ℕ

pub record TxQueueStatus : Type 0 where
  pub tail : ℕ
  pub producer_core : ℤ
  pub head : ℕ
  pub consumer_core : ℤ

unfoldable pub is_ok : BaseTxQueue → Bool
is_ok q = not (q.storage == nullptr)

-- The method `capacity()`, one less than the field.
unfoldable pub usable_capacity : BaseTxQueue → ℕ
usable_capacity q = sub64 q.capacity 1

-- The member initialisers of `base_tx_queue_t`.
abbrev pub no_queue : BaseTxQueue
no_queue = record { storage = nullptr; capacity = 0 }

-- `capacity_ |= capacity_ >> k`
unfoldable pub smear : ℕ → ℕ → ℕ
smear k c = bit_or c (shr c k)

-- "force capacity power of 2"
unfoldable pub round_up : ℕ → ℕ
round_up c = add64 (smear 32 (smear 16 (smear 8 (smear 4 (smear 2 (smear 1 (sub64 c 1))))))) 1

pub record TxQueueSp : Type 0 where
  pub queue : BaseTxQueue
  pub status : TxQueueStatus

-- `tx_queue_sp_t(_capacity)`. `alloc` is the aligned allocation, which answers `nullptr` on failure.
-- The indices are indeterminate until they are stored: `raw_tail` and `raw_head` are what is there.
unfoldable pub tx_queue_sp : (alloc : ℕ → ℕ) (raw_tail raw_head capacity : ℕ) → TxQueueSp
tx_queue_sp alloc raw_tail raw_head capacity =
    if ltb capacity cache_line_size
    then record { queue = no_queue; status = status raw_tail raw_head }
    else record {
      queue = record { storage = alloc (round_up capacity); capacity = round_up capacity };
      status = status 0 0;
    }
  where
    status : ℕ → ℕ → TxQueueStatus
    status tail head = record {
      tail = tail;
      producer_core = minus_one;
      head = head;
      consumer_core = minus_one;
    }

-- `~tx_queue_sp_t()`: the address that is freed, if any.
unfoldable pub destroy_sp : TxQueueSp → Option ℕ
destroy_sp q = if q.queue.storage == nullptr then none else some q.queue.storage

-- The body of `tx_queue_mp_t(_prealloc_and_init, _capacity)`.
unfoldable pub mp_queue : (prealloc capacity : ℕ) → BaseTxQueue
mp_queue prealloc capacity =
    if prealloc == nullptr
    then no_queue
    else (let actual_storage = prealloc + sizeof_tx_queue_status in
        let actual_capacity = sub64 capacity sizeof_tx_queue_status in
        if not (bit_and actual_storage (cache_line_size - 1) == 0)
          || not (bit_and actual_capacity (sub64 actual_capacity 1) == 0)
        then no_queue
        else record { storage = actual_storage; capacity = actual_capacity })

-- A queue over memory that holds `there` in front. The status is constructed in place before the
-- body runs: that resets the core numbers, leaves the indices as they are, and faults (`none`) at
-- the null pointer.
unfoldable pub tx_queue_mp :
    (there : TxQueueStatus) (prealloc capacity : ℕ) → Option (BaseTxQueue × TxQueueStatus)
unfolding mp_queue
tx_queue_mp there prealloc capacity =
    if prealloc == nullptr
    then none
    else some (
      mp_queue prealloc capacity,
      record there { producer_core = minus_one; consumer_core = minus_one },
    )

-- What every operation relies on: storage is there, and the capacity is a power of two.
pub record IsReady (q : BaseTxQueue) : Type 0 where
  pub log : ℕ
  pub power : q.capacity ≡ 2 ^ log
  pub small : log ≤ 63
  pub stored : is_ok q ≡ true
