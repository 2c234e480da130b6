-- ===== src/Programs/Result.antt =====
-- The result of the transmission in one process.
use tx_queue.Base.{
  ℕ, zero, suc, ◌+◌, ◌^◌, ◌<◌, ◌≡◌, refl, true, ◌==◌, List, [], ◌∷◌, Option, none, some, arith,
  length,
}
use tx_queue.Memory.{Memory}
use tx_queue.Queue.{BaseTxQueue, IsReady}
use tx_queue.Jobs.Hashes.{Verification, Hashes, initial_hashes, update_hashes, get_hash_str}
use tx_queue.Jobs.Run.{stopped, Run, begin, RunReach}
use tx_queue.Jobs.Run.Invariant.{Setup}
use tx_queue.Jobs.Run.Verified.{both_hashed}
use tx_queue.Programs.{
  same_text, k_min_chunk_size, k_max_chunk_size, sample_data, transmision_result,
}

same_text_self : (s : List ℕ) → same_text s s ≡ true
same_text_self [] = refl
same_text_self (c ∷ s) =
    let same : (c == c) ≡ true = ground arith in rw (same, same_text_self s) refl

pub transmision_result_same : (v : Verification) (h : Hashes) → transmision_result v h h ≡ 0
unfolding transmision_result
transmision_result_same Verification.unverified h = refl
transmision_result_same Verification.checksum h =
    rw (same_text_self (get_hash_str Verification.checksum h)) refl
transmision_result_same Verification.sha256 h =
    rw (same_text_self (get_hash_str Verification.sha256 h)) refl

pub length-sample_data :
    (dis_byte : ℕ → ℕ) (i size : ℕ) → length (sample_data dis_byte i size) ≡ size
length-sample_data dis_byte i zero = refl
length-sample_data dis_byte i (suc size) = omega (arith, length-sample_data dis_byte (i + 1) size)

-- The program's own chunk sizes are what the runs of the jobs ask for.
pub program-Setup :
    (dis_byte : ℕ → ℕ) (size : ℕ)
    → size < 2 ^ 32
    → Setup k_min_chunk_size k_max_chunk_size (sample_data dis_byte 0 size)
program-Setup dis_byte size small = record {
  some_bytes = omega arith;
  size_fits = omega arith;
  data_fits = omega (arith, length-sample_data dis_byte 0 size);
}

-- The transmission in one process of less than 2 ^ 32 bytes of random data, with any verification,
-- on a ready queue and in any interleaving of the two jobs, with chunk sizes drawn between a least
-- one above 0 and the size of the buffer that receives: when the consumer's job has ended, both jobs
-- have hashes, and the program's comparison of their prints makes it return 0.
pub transmision_returns_0 :
    {q : BaseTxQueue} {m : Memory} {low : ℕ} {buffer : List ℕ} (v : Verification) (dis_byte : ℕ → ℕ)
    (size : ℕ) {r : Run (Option Hashes)}
    → IsReady q
    → Setup low (length buffer) (sample_data dis_byte 0 size)
    → size < 2 ^ 32
    → RunReach
        (update_hashes v)
        q
        low
        (length buffer)
        (begin none m (sample_data dis_byte 0 size) buffer (some initial_hashes))
        r
    → r.receive_pc ≡ stopped
    → (producer : Hashes) × (consumer : Hashes) × (r.transmit.hash ≡ some producer)
      × (r.receive.hash ≡ some consumer)
      × (transmision_result v producer consumer ≡ 0)
transmision_returns_0 v dis_byte size ready setup small run at =
    let (h, received, sent) =
      both_hashed ready {announced = none} tt setup v
        (omega (arith, length-sample_data dis_byte 0 size)) run at in
    (h, h, sent, received, transmision_result_same v h)
