-- ===== src/Jobs/Settings.antt =====
-- The construction, the setters and getters and the start of the jobs of utests/common/utest_jobs.h,
-- with `set_thread_affinity` of utests/common/misc.h.
use tx_queue.Base.{
  ℕ, ◌^◌, ◌%◌, ◌<◌, ◌≡◌, refl, Bool, true, false, not, Option, none, some, List, ℤ, pos, negsuc,
  minus_one, ◌==ℤ◌, if◌then◌else◌, arith,
}

-- The fields of `utest_job` that are set from outside or asked for. Times are in nanoseconds.
pub record UtestJob : Type 0 where
  pub core : ℤ
  pub transaction_attempts : ℕ
  pub total_data : ℕ
  pub start_time : ℕ
  pub total_time : ℕ

-- The constructor leaves three fields as they are: `raw`.
unfoldable pub utest_job : (raw : UtestJob) → UtestJob
utest_job raw = record raw { core = minus_one; transaction_attempts = 0 }

unfoldable pub set_core : (core : ℤ) → UtestJob → UtestJob
set_core core job = record job { core = core }

unfoldable pub set_start_time : (start_time : ℕ) → UtestJob → UtestJob
set_start_time start_time job = record job { start_time = start_time }

unfoldable pub get_total_data : UtestJob → ℕ
get_total_data job = job.total_data

unfoldable pub get_total_duration_ns : UtestJob → ℕ
get_total_duration_ns job = job.total_time

unfoldable pub get_transaction_attempts : UtestJob → ℕ
get_transaction_attempts job = job.transaction_attempts

-- What the job that transmits is given, and the buffer size of the one that receives.
pub record TransmitSettings : Type 0 where
  pub src_data : List ℕ
  pub min_chunk_size : ℕ
  pub max_chunk_size : ℕ

unfoldable pub set_data : List ℕ → TransmitSettings → TransmitSettings
set_data src_data s = record s { src_data = src_data }

unfoldable pub set_minmax_chunk_size : (low high : ℕ) → TransmitSettings → TransmitSettings
set_minmax_chunk_size low high s = record s { min_chunk_size = low; max_chunk_size = high }

pub record ReceiveSettings : Type 0 where
  pub max_chunk_size : ℕ

unfoldable pub set_max_chunk_size : ℕ → ReceiveSettings → ReceiveSettings
set_max_chunk_size size s = record s { max_chunk_size = size }

-- `set_thread_affinity`, with whether the thread has a handle and what the system answers to a mask:
-- the result, and the mask that was asked for, if any. x64 shifts by the count modulo 64.
unfoldable pub set_thread_affinity :
    (handle : Bool) (answer : ℕ → Bool) (core : ℤ) → Bool × Option ℕ
set_thread_affinity handle answer (negsuc _) = (false, none)
set_thread_affinity handle answer (pos core) =
    let mask = 2 ^ (core % 64) in if not handle then (false, none) else (answer mask, some mask)

-- `start`: its result, and the mask that was asked for. The result of the affinity is not looked at.
unfoldable pub start : (handle : Bool) (answer : ℕ → Bool) → UtestJob → Bool × Option ℕ
unfolding set_thread_affinity
start handle answer job =
    if not (job.core ==ℤ minus_one)
    then (true, (set_thread_affinity handle answer job.core).1)
    else (true, none)

-- A job whose core was set to one below 64 is pinned to exactly this one when it starts, one that was
-- not set is not pinned; `start` returns true in both cases, even when the system refuses.
pub start_pins :
    (raw : UtestJob) (answer : ℕ → Bool) (core : ℕ)
    → core < 64
    → (start true answer (set_core (pos core) (utest_job raw)) ≡ (true, some (2 ^ core)))
      × (start true answer (utest_job raw) ≡ (true, none))
unfolding start set_core utest_job set_thread_affinity
start_pins raw answer core small = let e : core % 64 ≡ core = omega arith in (rw e refl, refl)
