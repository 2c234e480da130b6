-- ===== src/Jobs/Hashes.antt =====
-- The verification that the jobs of utests/common/utest_jobs.h are made with, and the hashes that
-- they keep for it.
use tx_queue.Base.{ℕ, List, [], Option, none, some}
use tx_queue.Checksum
use tx_queue.Sha256
use tx_queue.Hex.{checksum_to_string, sha256_to_string}

-- `everification`; `unverified` is its `NONE`.
pub data Verification : Type 0 where
  unverified : Verification
  checksum : Verification
  sha256 : Verification

-- The two statuses of a `utest_job`.
pub record Hashes : Type 0 where
  pub checksum_hash_status : Checksum.Status
  pub sha256_hash_status : Sha256.Status

abbrev pub initial_hashes : Hashes
initial_hashes = record {
  checksum_hash_status = Checksum.initial;
  sha256_hash_status = Sha256.initial;
}

abbrev pub with_checksum : Hashes → Option Checksum.Status → Option Hashes
with_checksum h none = none
with_checksum h (some status) = some (record h { checksum_hash_status = status })

abbrev pub with_sha256 : Hashes → Option Sha256.Status → Option Hashes
with_sha256 h none = none
with_sha256 h (some status) = some (record h { sha256_hash_status = status })

-- The update of a job's hashes with a chunk: `none` is an update that does not end.
abbrev pub update_hashes : Verification → Option Hashes → (chunk : List ℕ) → Option Hashes
update_hashes v none chunk = none
update_hashes unverified (some h) chunk = some h
update_hashes checksum (some h) chunk =
    with_checksum h (Checksum.update h.checksum_hash_status chunk)
update_hashes sha256 (some h) chunk = with_sha256 h (Sha256.update h.sha256_hash_status chunk)

unfoldable pub get_hash_str : Verification → Hashes → List ℕ
get_hash_str checksum h = checksum_to_string (Checksum.to_digest h.checksum_hash_status)
get_hash_str sha256 h = sha256_to_string (Sha256.to_digest h.sha256_hash_status)
get_hash_str unverified h = []
