-- ===== src/Checksum.antt =====
-- utests/common/checksum.h: a sum of bytes, which the test jobs compute on both sides.
pub mod Laws
use tx_queue.Base.{
  ℕ, zero, suc, Bool, List, Option, none, some, ltb, ◌==◌, if◌then◌else◌, length, get_or,
}
use tx_queue.Words.{add32}

pub record Status : Type 0 where
  pub checksum : ℕ

pub record Digest : Type 0 where
  pub checksum : ℕ

-- `status_t{}`
abbrev pub initial : Status
initial = record { checksum = 0 }

-- The loop of `update`, from the counter `i` on. The counter has 32 bits, the size has 64: the
-- loop is given `fuel`, and `none` says that it has not ended by then.
unfoldable pub update_from : (fuel i : ℕ) → Status → (buffer : List ℕ) → Option Status
update_from zero i status buffer = none
update_from (suc fuel) i status buffer =
    let added : Status = record { checksum = add32 status.checksum (get_or buffer i 0) } in
    let rest = update_from fuel (add32 i 1) added buffer in
    if ltb i (length buffer) then rest else some status

-- One turn for each byte, and the last test.
unfoldable pub update : Status → (buffer : List ℕ) → Option Status
update status buffer = update_from (suc (length buffer)) 0 status buffer

unfoldable pub to_digest : Status → Digest
to_digest status = record { checksum = status.checksum }

-- `operator==`
unfoldable pub same_digest : Digest → Digest → Bool
same_digest a b = a.checksum == b.checksum
