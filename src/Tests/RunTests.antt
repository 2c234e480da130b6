-- ===== src/Tests/RunTests.antt =====
-- Examples on the run of both jobs on a queue of 64 bytes.
use tx_queue.Base.{◌+◌, ℕ, ◌≤◌, ◌≡◌, refl, List, [], Option, none, some, length, take, arith}
use tx_queue.Jobs.Run.{finished, stopped, Run, RunReach}
use tx_queue.Jobs.Run.Frames.{AllFull, joined}
use tx_queue.Jobs.Run.Flow.{hash_all}
use tx_queue.Jobs.Run.Safety.{received_is_prefix, stopped_has_all, chunk_stays_in_buffer}
use tx_queue.Jobs.Run.Completion.{can_stop}
use tx_queue.Jobs.Run.Verified.{summed, sha256_verified, checksum_verified}
use tx_queue.Jobs.Hashes.{
  Verification, checksum, sha256, Hashes, initial_hashes, with_sha256, update_hashes,
}
use tx_queue.Programs.{transmision_result}
use tx_queue.Programs.Result.{transmision_returns_0}
use tx_queue.Sha256
use tx_queue.Tests.JobTests.{line, line-IsReady, keep}
use tx_queue.Tests.RunTrace.{
  two, zeros, two-Setup, r10, r12, r16, to_r12, to_r10, to_r16, at_end, tx10, tx10-good, at_chunk,
}

received_is_prefix_example :
    (chunks : List (List ℕ)) × AllFull chunks
    × (joined chunks ≡ take (r12 keep []).receive.total_data two)
    × ((r12 keep []).receive.hash ≡ hash_all keep [] chunks)
    × ((r12 keep []).receive.total_data ≤ (r12 keep []).transmit.total_data)
received_is_prefix_example =
    received_is_prefix line-IsReady {announced = none} tt two-Setup (to_r12 keep [])

stopped_has_all_example :
    ((r16 keep []).transmit_pc ≡ finished)
    × ((r16 keep []).receive.total_data ≡ 2)
    × ((r16 keep []).receive.hash ≡ (r16 keep []).transmit.hash)
stopped_has_all_example =
    stopped_has_all line-IsReady {announced = none} tt two-Setup (to_r16 keep []) (at_end keep [])

can_stop_example :
    (t : Run (List ℕ)) × RunReach keep line 1 4 (r10 keep []) t
    × (t.receive_pc ≡ stopped)
    × (t.transmit_pc ≡ finished)
    × (t.receive.total_data ≡ 2)
    × (t.receive.hash ≡ t.transmit.hash)
can_stop_example =
    can_stop {buffer = zeros} {announced = none} line-IsReady tt two-Setup (omega arith)
      (omega arith) (to_r10 keep [])

chunk_stays_in_buffer_example : 2 ≤ length (r10 keep []).receive.buffer
chunk_stays_in_buffer_example =
    chunk_stays_in_buffer line-IsReady {announced = none} 2 (tx10 keep []) tt two-Setup
      (to_r10 keep []) (at_chunk keep []) refl (tx10-good keep [])

abbrev pub end_of : Verification → Run (Option Hashes)
end_of v = r16 (update_hashes v) (some initial_hashes)

sha256_verified_example :
    ((end_of sha256).receive.hash ≡ with_sha256 initial_hashes (Sha256.update Sha256.initial two))
    × ((end_of sha256).transmit.hash
        ≡ with_sha256 initial_hashes (Sha256.update Sha256.initial two))
sha256_verified_example =
    sha256_verified line-IsReady {announced = none} tt two-Setup
      (to_r16 (update_hashes sha256) (some initial_hashes))
      (at_end (update_hashes sha256) (some initial_hashes))

checksum_verified_example :
    ((end_of checksum).receive.hash ≡ some (summed initial_hashes 15))
    × ((end_of checksum).transmit.hash ≡ some (summed initial_hashes 15))
checksum_verified_example =
    checksum_verified line-IsReady {announced = none} tt two-Setup (omega arith)
      (to_r16 (update_hashes checksum) (some initial_hashes))
      (at_end (update_hashes checksum) (some initial_hashes))

transmision_returns_0_example :
    (producer : Hashes) × (consumer : Hashes) × ((end_of sha256).transmit.hash ≡ some producer)
    × ((end_of sha256).receive.hash ≡ some consumer)
    × (transmision_result sha256 producer consumer ≡ 0)
transmision_returns_0_example =
    transmision_returns_0 {buffer = zeros} sha256 (λ i. i + 7) 2 line-IsReady two-Setup
      (omega arith) (to_r16 (update_hashes sha256) (some initial_hashes))
      (at_end (update_hashes sha256) (some initial_hashes))
