-- ===== src/Sha256.antt =====
-- utests/common/sha256.h: SHA-256 of a buffer that is given in pieces.
pub mod Compress
pub mod Blocks
pub mod Padding
use tx_queue.Base.{
  ℕ, zero, suc, ◌+◌, ◌*◌, ◌/◌, ◌%◌, ◌^◌, min, Bool, ◌&&◌, List, [], ◌∷◌, ◌++◌, Option, none, some,
  ltb, leb, ◌==◌, if◌then◌else◌, length, take, drop, replicate,
}
use Prim.Native.Nat.{bit_or}
use tx_queue.Words.{add64, sub64}
use Compress.{Hash, compress, initial_hash}

pub record Status : Type 0 where
  pub curr_block : List ℕ
  pub total_num_bits : ℕ
  pub h : Hash
  pub cur : ℕ

pub record Digest : Type 0 where
  pub a : ℕ
  pub b : ℕ
  pub c : ℕ
  pub d : ℕ

-- `status_t{}`
abbrev pub initial : Status
initial = record { curr_block = replicate 64 0; total_num_bits = 0; h = initial_hash; cur = 0 }

-- `memcpy` or `memset` of some bytes at a place of the block.
abbrev pub overwrite : (at : ℕ) (bytes block : List ℕ) → List ℕ
overwrite at bytes [] = []
overwrite zero [] (x ∷ block) = x ∷ block
overwrite zero (b ∷ bytes) (x ∷ block) = b ∷ overwrite zero bytes block
overwrite (suc at) bytes (x ∷ block) = x ∷ overwrite at bytes block

unfoldable pub process_block : Status → Status
process_block s = record s { h = compress s.h s.curr_block }

-- The end of a turn of the loop in `update`: a full block is processed.
unfoldable pub flush : Status → Status
flush s = if leb 64 s.cur then record (process_block s) { cur = 0 } else s

-- A turn of the loop in `update` with `bytes_to_copy` bytes.
unfoldable pub update_turn : Status → (bytes : List ℕ) → Status
update_turn s bytes = flush (record s {
  curr_block = overwrite s.cur bytes s.curr_block;
  cur = add64 s.cur (length bytes);
  total_num_bits = add64 s.total_num_bits (length bytes * 8);
})

-- The loop of `update`. It is given `fuel`, and `none` says that it has not ended by then.
unfoldable pub update_from : (fuel : ℕ) → Status → (buffer : List ℕ) → Option Status
update_from fuel s [] = some s
update_from zero s (b ∷ buffer) = none
update_from (suc fuel) s (b ∷ buffer) =
    let bytes_to_copy = min (sub64 64 s.cur) (length (b ∷ buffer)) in
    update_from fuel (update_turn s (take bytes_to_copy (b ∷ buffer)))
      (drop bytes_to_copy (b ∷ buffer))

-- No turn is without a byte.
unfoldable pub update : Status → (buffer : List ℕ) → Option Status
update s buffer = update_from (length buffer) s buffer

-- "add end tag (there is always room for 1 byte)"
unfoldable pub add_tag : Status → Status
add_tag s = record s { curr_block = overwrite s.cur (0x80 ∷ []) s.curr_block; cur = add64 s.cur 1 }

-- `((55 - total_num_bits / 8) % 64 + 64) % 64`
unfoldable pub after_end_zeros : Status → ℕ
after_end_zeros s = add64 (sub64 55 (s.total_num_bits / 8) % 64) 64 % 64

-- "add padding (from 0 to potentially up to 2 blocks)"
unfoldable pub add_zeros : Status → (zeros : ℕ) → Status
add_zeros s zeros =
    let remaining_in_block = sub64 64 s.cur in
    if zeros == 0
    then s
    else if ltb remaining_in_block zeros
    then (let filled : Status = record s {
      curr_block = overwrite s.cur (replicate remaining_in_block 0) s.curr_block;
    } in
        let processed = process_block filled in
        record processed {
          curr_block =
              overwrite 0 (replicate (sub64 zeros remaining_in_block) 0) processed.curr_block;
          cur = sub64 zeros remaining_in_block;
        })
    else record s {
      curr_block = overwrite s.cur (replicate zeros 0) s.curr_block;
      cur = add64 s.cur zeros;
    }

-- The bytes of `portable_bswap64(x)` as they lie in memory, on a machine that stores the low byte
-- first: those of `x` with the high byte first.
unfoldable pub swapped_bytes : ℕ → List ℕ
swapped_bytes x =
    x / 2 ^ 56 % 256
    ∷ x / 2 ^ 48 % 256
    ∷ x / 2 ^ 40 % 256
    ∷ x / 2 ^ 32 % 256
    ∷ x / 2 ^ 24 % 256
    ∷ x / 2 ^ 16 % 256
    ∷ x / 2 ^ 8 % 256
    ∷ x % 256
    ∷ []

-- "add length"
unfoldable pub add_length : Status → Status
add_length s =
    process_block
      (record s { curr_block = overwrite s.cur (swapped_bytes s.total_num_bits) s.curr_block })

-- The copy of the status, padded and processed.
unfoldable pub padded : Status → Status
padded s = let tagged = add_tag s in add_length (add_zeros tagged (after_end_zeros tagged))

unfoldable pub to_digest : Status → Digest
to_digest s =
    let h = (padded s).h in
    record { a = pair h.a h.b; b = pair h.c h.d; c = pair h.e h.f; d = pair h.g h.h }
  where
    pair : ℕ → ℕ → ℕ
    pair high low = bit_or (high * 2 ^ 32) low

-- `operator==`
unfoldable pub same_digest : Digest → Digest → Bool
same_digest x y = (x.a == y.a) && (x.b == y.b) && (x.c == y.c) && (x.d == y.d)
