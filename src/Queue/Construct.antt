-- ===== src/Queue/Construct.antt =====
-- When a constructor leaves a queue that can be used.
use Prim.Native.Nat.{bit_and}
use native.Mathlib.Nat.{one-le-pow}
use tx_queue.Base.{
  ℕ, ◌+◌, ◌-◌, ◌*◌, ◌%◌, ◌^◌, ◌≤◌, ◌<◌, ◌≡◌, refl, sym, ◌∙◌, ◌⊎◌, inr, ◌↔◌, ◌≢◌, true, some,
  minus_one, arith, ℕ_discrete,
}
use tx_queue.Words.{sub64}
use tx_queue.Words.Bits.{bit_and_mask}
use tx_queue.Words.Mask.{IsPowerOfTwo, IsPowerOfTwo-test, zero-bit_and}
use tx_queue.Memory.{nullptr}
use tx_queue.Queue.{
  BaseTxQueue, TxQueueStatus, IsReady, is_ok, usable_capacity, round_up, tx_queue_sp, mp_queue,
  tx_queue_mp, cache_line_size, sizeof_tx_queue_status,
}
use tx_queue.Queue.RoundUp.{round_up_lem}

-- A queue that a constructor has just made: empty, with no core noted.
pub record IsFresh (s : TxQueueStatus) : Type 0 where
  pub at_start : (s.tail ≡ 0) × (s.head ≡ 0)
  pub no_cores : (s.producer_core ≡ minus_one) × (s.consumer_core ≡ minus_one)

module _ (alloc : ℕ → ℕ) (raw_tail raw_head : ℕ) where
  -- A single-process queue is usable exactly when a cache line fits and the allocation succeeds.
  pub tx_queue_sp-is_ok :
      (c : ℕ)
      → (is_ok (tx_queue_sp alloc raw_tail raw_head c).queue ≡ true)
        ↔ ((cache_line_size ≤ c) × (alloc (round_up c) ≢ nullptr))
  unfolding tx_queue_sp is_ok
  tx_queue_sp-is_ok c = ground arith

  -- A single-process queue of a cache line of bytes or more, at most 2 ^ 63, whose allocation
  -- succeeds, is ready and empty, with no core noted, and its capacity is at least what was asked
  -- for and less than twice that.
  pub tx_queue_sp-IsReady :
      (c : ℕ)
      → cache_line_size ≤ c
      → c ≤ 2 ^ 63
      → alloc (round_up c) ≢ nullptr
      → let q = tx_queue_sp alloc raw_tail raw_head c in
        IsReady q.queue
        × IsFresh q.status
        × (c ≤ usable_capacity q.queue + 1)
        × (usable_capacity q.queue + 1 < 2 * c)
  unfolding tx_queue_sp is_ok usable_capacity
  tx_queue_sp-IsReady c low high there =
      let (k, up, e, least, tight) = round_up_lem c (omega arith) high in
      (
        record { log = k; power = ground arith; small = up; stored = ground arith },
        ground arith,
        ground arith,
        ground arith,
      )

-- The predecessor wraps at 0 only, where the other side of the test is 0.
wrapped_test : (x : ℕ) → x < 2 ^ 64 → bit_and x (sub64 x 1) ≡ bit_and x (x - 1)
wrapped_test x small = elim (ℕ_discrete x 0) [
  | yes e ↦ rw e (zero-bit_and (sub64 0 1) ∙ sym (zero-bit_and (0 - 1)))
  | no ne ↦ let e : sub64 x 1 ≡ x - 1 = omega arith in rw e
]

-- A multi-process queue over memory that is there is usable exactly when the memory is aligned to
-- the cache line and what is left behind the status words is a power of two, or nothing at all.
pub mp_queue-is_ok :
    (p c : ℕ)
    → p ≢ nullptr
    → let left = sub64 c sizeof_tx_queue_status in
      (is_ok (mp_queue p c) ≡ true) ↔ ((p % cache_line_size ≡ 0) × ((left ≡ 0) ⊎ IsPowerOfTwo left))
unfolding mp_queue is_ok
mp_queue-is_ok p c there =
    let left = sub64 c sizeof_tx_queue_status in
    ground (
      arith,
      bit_and_mask 6 (p + sizeof_tx_queue_status),
      wrapped_test left (omega arith),
      IsPowerOfTwo-test left,
    )

-- Memory that is there, aligned to the cache line, for a power of two of bytes behind the status
-- words (below 2 ^ 64 in all), gives a ready queue of that capacity. The core numbers are reset, and
-- the indices that another process may have left there stay.
pub tx_queue_mp-IsReady :
    (there : TxQueueStatus) (p c k : ℕ)
    → p ≢ nullptr
    → p % cache_line_size ≡ 0
    → k ≤ 63
    → c ≡ sizeof_tx_queue_status + 2 ^ k
    → c < 2 ^ 64
    → (q : BaseTxQueue) × (s : TxQueueStatus) × (tx_queue_mp there p c ≡ some (q, s))
      × IsReady q
      × (q.capacity ≡ 2 ^ k)
      × (s.tail ≡ there.tail)
      × (s.head ≡ there.head)
      × (s.producer_core ≡ minus_one)
      × (s.consumer_core ≡ minus_one)
unfolding tx_queue_mp mp_queue is_ok
tx_queue_mp-IsReady there p c k present aligned small size fits = (
  record { storage = p + sizeof_tx_queue_status; capacity = 2 ^ k },
  record there { producer_core = minus_one; consumer_core = minus_one },
  ground (arith, bit_and_mask 6 (p + sizeof_tx_queue_status), passes, left),
  record { log = k; power = refl; small = small; stored = ground arith },
  refl,
  refl,
  refl,
  refl,
  refl,
)
  where
    left : sub64 c sizeof_tx_queue_status ≡ 2 ^ k
    left = omega (arith, one-le-pow k 2)

    passes : bit_and (sub64 c sizeof_tx_queue_status) (sub64 (sub64 c sizeof_tx_queue_status) 1) ≡ 0
    passes =
        wrapped_test (sub64 c sizeof_tx_queue_status) (omega arith)
        ∙ (IsPowerOfTwo-test (sub64 c sizeof_tx_queue_status)).1 (inr (k, left))
