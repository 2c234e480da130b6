-- ===== src/Sha256/Padding.antt =====
-- `to_digest` of utests/common/sha256.h: the padding, against the standard's.
use tx_queue.Base.{
  ℕ, zero, suc, ◌+◌, ◌-◌, ◌%◌, ◌/◌, ◌^◌, ◌<◌, ◌≡◌, refl, sym, ap, ◌∙◌, true, false, List, [], ◌∷◌,
  ◌++◌, arith, ltb, ◌==◌, lt→ltb, le→ltb, length, replicate, length-replicate, dec_le,
}
use tx_queue.Words.{add64, sub64}
use tx_queue.Sha256.{
  Status, overwrite, process_block, add_tag, after_end_zeros, add_zeros, add_length, swapped_bytes,
  padded,
}
use tx_queue.Sha256.Compress.{compress}
use tx_queue.Sha256.Blocks.{IsBetween, put, overwrite-cons}

-- Bytes of padding, which are not counted.
abbrev pub put_all : Status → List ℕ → Status
put_all s [] = s
put_all s (b ∷ bytes) = put_all (put s b) bytes

put_all-append : (s : Status) (xs ys : List ℕ) → put_all s (xs ++ ys) ≡ put_all (put_all s xs) ys
put_all-append s [] ys = refl
put_all-append s (x ∷ xs) ys = put_all-append (put s x) xs ys

overwrite-nil : (at : ℕ) (block : List ℕ) → overwrite at [] block ≡ block
overwrite-nil at [] = refl
overwrite-nil zero (x ∷ block) = refl
overwrite-nil (suc at) (x ∷ block) = ap (λ t. x ∷ t) (overwrite-nil at block)

put-short :
    (s : Status) (b : ℕ)
    → s.cur + 1 < 64
    → put s b ≡ record s { curr_block = overwrite s.cur (b ∷ []) s.curr_block; cur = suc s.cur }
unfolding put
put-short s b short =
    let e : (s.cur + 1 == 64) ≡ false = ground arith in
    let n : s.cur + 1 ≡ suc s.cur = omega arith in rw (e, n) refl

-- Bytes that do not fill the block are copied.
put_all-short :
    (s : Status) (bytes : List ℕ)
    → s.cur + length bytes < 64
    → put_all s bytes
      ≡ record s { curr_block = overwrite s.cur bytes s.curr_block; cur = s.cur + length bytes }
put_all-short s [] fits =
    let same : s.cur + 0 ≡ s.cur = omega arith in rw (overwrite-nil s.cur s.curr_block, same) refl
put_all-short s (b ∷ bytes) fits =
    let n : s.cur + suc (length bytes) ≡ suc s.cur + length bytes = omega arith in
    rw (put-short s b (omega arith), overwrite-cons s.cur b bytes s.curr_block, n)
      (put_all-short _ bytes (omega arith))

-- Bytes that just fill the block are copied, and the block is processed.
put_all-full :
    (s : Status) (b : ℕ) (bytes : List ℕ)
    → s.cur + suc (length bytes) ≡ 64
    → put_all s (b ∷ bytes)
      ≡ record (process_block
          (record s { curr_block = overwrite s.cur (b ∷ bytes) s.curr_block })) { cur = 0 }
unfolding process_block put
put_all-full s b [] fits = let e : (s.cur + 1 == 64) ≡ true = ground arith in rw e refl
put_all-full s b (c ∷ bytes) fits =
    rw (put-short s b (omega arith), overwrite-cons s.cur b (c ∷ bytes) s.curr_block)
      (put_all-full
        (record s { curr_block = overwrite s.cur (b ∷ []) s.curr_block; cur = suc s.cur }) c bytes
        (omega arith))

-- The number of zeros leaves room for the eight bytes of the length, and no more.
pub after_end_zeros-fits :
    (s : Status) → IsBetween s → (s.cur + 1 + after_end_zeros (add_tag s)) % 64 ≡ 56
unfolding after_end_zeros add_tag
after_end_zeros-fits s between = omega (arith, between.counted, between.bits_fit)

abbrev pub zero_bytes : ℕ → List ℕ
zero_bytes n = replicate n 0

zero_bytes-add : (m n : ℕ) → zero_bytes (m + n) ≡ zero_bytes m ++ zero_bytes n
zero_bytes-add zero n = let e : 0 + n ≡ n = omega arith in rw e refl
zero_bytes-add (suc m) n =
    let e : suc m + n ≡ suc (m + n) = omega arith in rw e (ap (λ t. 0 ∷ t) (zero_bytes-add m n))

-- The tag and the zeros in one block.
add_zeros-short :
    (s : Status) (zeros : ℕ)
    → s.cur + suc zeros ≡ 56
    → (add_zeros (add_tag s) zeros ≡ put_all s (0x80 ∷ zero_bytes zeros))
      × ((put_all s (0x80 ∷ zero_bytes zeros)).cur ≡ 56)
unfolding add_zeros add_tag
add_zeros-short s zeros fits =
    (same zeros fits, ap (λ t. t.cur) (put_all-short s all (omega (arith, size))) ∙ size)
  where
    all : List ℕ
    all = 0x80 ∷ zero_bytes zeros

    size : s.cur + length all ≡ 56
    size = omega (arith, length-replicate {A = ℕ} zeros 0)

    same :
        (zeros : ℕ)
        → s.cur + suc zeros ≡ 56
        → add_zeros (add_tag s) zeros ≡ put_all s (0x80 ∷ zero_bytes zeros)
    same zero fits =
        let n : add64 s.cur 1 ≡ suc s.cur = omega arith in
        rw (put-short s 0x80 (omega arith), n) refl
    same (suc z) fits =
        let bytes = zero_bytes (suc z) in
        let size : s.cur + length (0x80 ∷ bytes) ≡ 56 =
          omega (arith, length-replicate {A = ℕ} (suc z) 0) in
        let one_block : ltb (sub64 64 (add64 s.cur 1)) (suc z) ≡ false =
          le→ltb (sub64 64 (add64 s.cur 1)) (suc z) (omega arith) in
        let there : (suc z == 0) ≡ false = ground arith in
        let end : add64 (add64 s.cur 1) (suc z) ≡ 56 = omega arith in
        let tagged : add64 s.cur 1 ≡ suc s.cur = omega arith in
        rw
          (
            put_all-short s (0x80 ∷ bytes) (omega arith),
            overwrite-cons s.cur 0x80 bytes s.curr_block,
            size,
            one_block,
            there,
            end,
            tagged,
          )
          refl

-- The zeros go on in a second block.
add_zeros-long :
    (s : Status) (zeros : ℕ)
    → s.cur < 64
    → s.cur + suc zeros ≡ 120
    → (add_zeros (add_tag s) zeros ≡ put_all s (0x80 ∷ zero_bytes zeros))
      × ((put_all s (0x80 ∷ zero_bytes zeros)).cur ≡ 56)
unfolding add_zeros add_tag process_block
add_zeros-long s zeros room fits = (same ∙ sym whole, ap (λ t. t.cur) whole)
  where
    r : ℕ
    r = 63 - s.cur

    size : length (zero_bytes r) ≡ r
    size = length-replicate {A = ℕ} r 0

    full : Status
    full =
        record (process_block
          (record s { curr_block = overwrite s.cur (0x80 ∷ zero_bytes r) s.curr_block })) {
            cur = 0;
          }

    after : Status
    after = record full { curr_block = overwrite 0 (zero_bytes 56) full.curr_block; cur = 56 }

    split : zero_bytes zeros ≡ zero_bytes r ++ zero_bytes 56
    split = let sum : zeros ≡ r + 56 = omega arith in ap zero_bytes sum ∙ zero_bytes-add r 56

    whole : put_all s (0x80 ∷ zero_bytes zeros) ≡ after
    whole =
        ap (λ t. put_all s (0x80 ∷ t)) split
        ∙ put_all-append s (0x80 ∷ zero_bytes r) (zero_bytes 56)
        ∙ ap (λ t. put_all t (zero_bytes 56))
            (put_all-full s 0x80 (zero_bytes r) (omega (arith, size)))
        ∙ put_all-short full (zero_bytes 56) (omega arith)

    same : add_zeros (add_tag s) zeros ≡ after
    same =
        let two_blocks : ltb (sub64 64 (add64 s.cur 1)) zeros ≡ true =
          lt→ltb (sub64 64 (add64 s.cur 1)) zeros (omega arith) in
        let there : (zeros == 0) ≡ false = ground arith in
        let left : sub64 64 (add64 s.cur 1) ≡ r = omega arith in
        let others : sub64 zeros r ≡ 56 = omega arith in
        let tagged : add64 s.cur 1 ≡ suc s.cur = omega arith in
        rw
          (
            there,
            two_blocks,
            left,
            others,
            tagged,
            overwrite-cons s.cur 0x80 (zero_bytes r) s.curr_block,
          )
          refl

put_all-bits : (s : Status) (bytes : List ℕ) → (put_all s bytes).total_num_bits ≡ s.total_num_bits
unfolding put
put_all-bits s [] = refl
put_all-bits s (b ∷ bytes) = put_all-bits (put s b) bytes ∙ one s b
  where
    one : (s : Status) (b : ℕ) → (put s b).total_num_bits ≡ s.total_num_bits
    one s b = ground arith

-- The bytes of a number, the high one first.
abbrev pub high_first : (count x : ℕ) → List ℕ
high_first zero x = []
high_first (suc count) x = x / 256 ^ count % 256 ∷ high_first count x

swapped_bytes-high_first : (x : ℕ) → swapped_bytes x ≡ high_first 8 x
unfolding swapped_bytes
swapped_bytes-high_first x = let e : x / 1 ≡ x = omega arith in rw e refl

-- The hash words that `to_digest` starts from.
padded_with :
    (s : Status)
    → IsBetween s
    → (padded s).h
      ≡ (put_all s
          (0x80 ∷ zero_bytes (after_end_zeros (add_tag s)) ++ swapped_bytes s.total_num_bits)).h
unfolding padded add_length process_block swapped_bytes
padded_with s between =
    ap (λ t. (add_length t).h) there.0
    ∙ ap (λ n. compress u.h (overwrite u.cur (swapped_bytes n) u.curr_block)) (put_all-bits s first)
    ∙ sym (ap (λ t. t.h) (put_all-full u _ _ (omega (arith, there.1))))
    ∙ sym (ap (λ t. t.h) (put_all-append s first (swapped_bytes s.total_num_bits)))
  where
    zeros : ℕ
    zeros = after_end_zeros (add_tag s)

    first : List ℕ
    first = 0x80 ∷ zero_bytes zeros

    fits : (s.cur + 1 + zeros) % 64 ≡ 56
    fits = after_end_zeros-fits s between

    few : zeros < 64
    few = unfold after_end_zeros in omega arith

    u : Status
    u = put_all s first

    there : (add_zeros (add_tag s) zeros ≡ u) × (u.cur ≡ 56)
    there = elim (dec_le (s.cur + 1) 56) [
      | yes one ↦ add_zeros-short s zeros (omega (arith, fits, few, between.room))
      | no two ↦ add_zeros-long s zeros between.room (omega (arith, fits, few, between.room))
    ]

-- The hash words that `to_digest` starts from are those of the message that the standard pads: the
-- bytes absorbed, then 0x80, then the least number of zeros that leaves eight bytes to the end of a
-- block, then the number of bits in eight bytes, the high one first. Each byte goes behind those in
-- the block, and a block that is full of 64 is compressed into the hash words. The status is one that
-- holds between two calls.
pub padded-put_all :
    (s : Status)
    → IsBetween s
    → (zeros : ℕ) × (zeros < 64)
      × ((s.total_num_bits / 8 + 1 + zeros + 8) % 64 ≡ 0)
      × ((padded s).h ≡ (put_all s (0x80 ∷ zero_bytes zeros ++ high_first 8 s.total_num_bits)).h)
padded-put_all s between = (
  zeros,
  unfold after_end_zeros in omega arith,
  omega (arith, after_end_zeros-fits s between, between.counted),
  padded_with s between
      ∙ ap (λ t. (put_all s (0x80 ∷ zero_bytes zeros ++ t)).h)
          (swapped_bytes-high_first s.total_num_bits),
)
  where
    zeros : ℕ
    zeros = after_end_zeros (add_tag s)
