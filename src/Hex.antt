-- ===== src/Hex.antt =====
-- What an output stream prints of a number under `hex`, as the test programs use it for the digests
-- (`to_string` of utests/common/checksum.h and of utests/common/sha256.h): character codes.
pub mod Laws
use tx_queue.Base.{
  ℕ, zero, suc, ◌+◌, ◌-◌, ◌/◌, ◌%◌, List, [], ◌∷◌, ◌++◌, ltb, if◌then◌else◌, length, replicate,
}
use tx_queue.Checksum
use tx_queue.Sha256

-- "0" to "9", "a" to "f"
abbrev pub hex_digit : ℕ → ℕ
hex_digit d = if ltb d 10 then 48 + d else 87 + d

-- The digits of `x`, at most one more than `fuel`.
abbrev pub hex_from : (fuel : ℕ) → ℕ → List ℕ
hex_from zero x = hex_digit (x % 16) ∷ []
hex_from (suc fuel) x =
    let high = hex_from fuel (x / 16) in
    if ltb x 16 then hex_digit x ∷ [] else high ++ hex_digit (x % 16) ∷ []

-- Sixteen digits are enough for 64 bits.
unfoldable pub print_hex : ℕ → List ℕ
print_hex x = hex_from 15 x

-- `setw` with `setfill('0')`
unfoldable pub fill_zeros : (width : ℕ) → List ℕ → List ℕ
fill_zeros width text = replicate (width - length text) 48 ++ text

unfoldable pub checksum_to_string : Checksum.Digest → List ℕ
checksum_to_string digest = print_hex digest.checksum

unfoldable pub sha256_to_string : Sha256.Digest → List ℕ
sha256_to_string digest =
    fill_zeros 16 (print_hex digest.a)
    ++ (fill_zeros 16 (print_hex digest.b)
        ++ (fill_zeros 16 (print_hex digest.c) ++ fill_zeros 16 (print_hex digest.d)))
