-- ===== src/Sha256/Blocks.antt =====
-- `update` of utests/common/sha256.h, which takes a buffer in blocks, against one byte at a time.
use tx_queue.Base.{
  ℕ, zero, suc, ◌+◌, ◌*◌, ◌/◌, ◌%◌, ◌^◌, ◌≤◌, ◌<◌, min, ◌≡◌, refl, sym, ap, ◌∙◌, true, false, List,
  [], ◌∷◌, ◌++◌, some, arith, leb, le→leb, lt→leb, ◌==◌, if◌then◌else◌, length, take, drop,
  length-take, length-drop, take-append-drop, dec_le,
}
use tx_queue.Sha256.Compress.{compress}
use tx_queue.Words.{add64, sub64}
use tx_queue.Sha256.{
  initial, Status, overwrite, process_block, flush, update_turn, update_from, update,
}

pub length-overwrite :
    (at : ℕ) (bytes block : List ℕ) → length (overwrite at bytes block) ≡ length block
length-overwrite at bytes [] = refl
length-overwrite zero [] (x ∷ block) = refl
length-overwrite zero (b ∷ bytes) (x ∷ block) = ap suc (length-overwrite zero bytes block)
length-overwrite (suc at) bytes (x ∷ block) = ap suc (length-overwrite at bytes block)

pub overwrite-cons :
    (at b : ℕ) (bytes block : List ℕ)
    → overwrite at (b ∷ bytes) block ≡ overwrite (suc at) bytes (overwrite at (b ∷ []) block)
overwrite-cons at b bytes [] = refl
overwrite-cons zero b bytes (x ∷ []) = refl
overwrite-cons zero b bytes (x ∷ y ∷ block) = refl
overwrite-cons (suc at) b bytes (x ∷ block) = ap (λ t. x ∷ t) (overwrite-cons at b bytes block)

-- What holds of a status between two calls: the block has room for a byte, and the number of bytes
-- in it is that of all bytes, modulo the size of a block.
pub record IsBetween (s : Status) : Type 0 where
  pub room : s.cur < 64
  pub block_size : length s.curr_block ≡ 64
  pub bits_fit : s.total_num_bits < 2 ^ 64
  pub whole_bytes : s.total_num_bits % 8 ≡ 0
  pub counted : s.cur ≡ s.total_num_bits / 8 % 64

pub initial-IsBetween : IsBetween initial
initial-IsBetween = record {
  room = omega arith;
  block_size = refl;
  bits_fit = omega arith;
  whole_bytes = refl;
  counted = refl;
}

-- A byte goes behind those in the block. When the block is full of 64 it is compressed into the hash
-- words, and the next byte is the first of a block.
unfoldable pub put : Status → ℕ → Status
put s b =
    let block = overwrite s.cur (b ∷ []) s.curr_block in
    if s.cur + 1 == 64
    then record s { curr_block = block; h = compress s.h block; cur = 0 }
    else record s { curr_block = block; cur = s.cur + 1 }

-- A byte of the message: its eight bits are counted too, in 64 bits.
unfoldable pub absorb : Status → ℕ → Status
unfolding put
absorb s b = record (put s b) { total_num_bits = (s.total_num_bits + 8) % 2 ^ 64 }

-- A turn with one byte.
update_turn-absorb : (s : Status) (b : ℕ) → s.cur < 64 → update_turn s (b ∷ []) ≡ absorb s b
unfolding update_turn flush process_block absorb put
update_turn-absorb s b room = elim (dec_le 64 (s.cur + 1)) [
  | yes full ↦
      let e : leb 64 (add64 s.cur 1) ≡ true = le→leb 64 (add64 s.cur 1) (omega arith) in
      let e' : (s.cur + 1 == 64) ≡ true = ground arith in rw (e, e') refl
  | no short ↦
      let e : leb 64 (add64 s.cur 1) ≡ false = lt→leb 64 (add64 s.cur 1) (omega arith) in
      let e' : (s.cur + 1 == 64) ≡ false = ground arith in
      let n : add64 s.cur 1 ≡ s.cur + 1 = omega arith in rw (e, e', n) refl
]

abbrev pub absorb_all : Status → List ℕ → Status
absorb_all s [] = s
absorb_all s (b ∷ bytes) = absorb_all (absorb s b) bytes

pub absorb_all-append :
    (s : Status) (xs ys : List ℕ) → absorb_all s (xs ++ ys) ≡ absorb_all (absorb_all s xs) ys
absorb_all-append s [] ys = refl
absorb_all-append s (x ∷ xs) ys = absorb_all-append (absorb s x) xs ys

pub absorb-IsBetween : (s : Status) (b : ℕ) → IsBetween s → IsBetween (absorb s b)
unfolding absorb put
absorb-IsBetween s b between = elim (dec_le 64 (s.cur + 1)) [
  | yes full ↦
      let e : (s.cur + 1 == 64) ≡ true = ground arith in
      rw e (record {
        room = omega arith;
        block_size = length-overwrite s.cur (b ∷ []) s.curr_block ∙ between.block_size;
        bits_fit = omega arith;
        whole_bytes = omega arith;
        counted = omega arith;
      })
  | no short ↦
      let e : (s.cur + 1 == 64) ≡ false = ground arith in
      rw e (record {
        room = omega arith;
        block_size = length-overwrite s.cur (b ∷ []) s.curr_block ∙ between.block_size;
        bits_fit = omega arith;
        whole_bytes = omega arith;
        counted = omega arith;
      })
]

pub absorb_all-IsBetween :
    (s : Status) (bytes : List ℕ) → IsBetween s → IsBetween (absorb_all s bytes)
absorb_all-IsBetween s [] between = between
absorb_all-IsBetween s (b ∷ bytes) between =
    absorb_all-IsBetween (absorb s b) bytes (absorb-IsBetween s b between)

absorb-short :
    (s : Status) (b : ℕ)
    → s.cur + 1 < 64
    → absorb s b ≡ record s {
      curr_block = overwrite s.cur (b ∷ []) s.curr_block;
      cur = suc s.cur;
      total_num_bits = add64 s.total_num_bits 8;
    }
unfolding absorb put
absorb-short s b short =
    let e : (s.cur + 1 == 64) ≡ false = ground arith in
    let n : s.cur + 1 ≡ suc s.cur = omega arith in rw (e, n) refl

-- The first byte of a turn that does not fill the block with it.
turn-split :
    (s : Status) (b c : ℕ) (bytes : List ℕ)
    → IsBetween s
    → s.cur + suc (length (c ∷ bytes)) ≤ 64
    → update_turn s (b ∷ c ∷ bytes) ≡ update_turn (absorb s b) (c ∷ bytes)
unfolding update_turn
turn-split s b c bytes between fits =
    let m = length (c ∷ bytes) in
    let cur : add64 s.cur (suc m) ≡ add64 (suc s.cur) m = omega arith in
    let bits : add64 s.total_num_bits (suc m * 8) ≡ add64 (add64 s.total_num_bits 8) (m * 8) =
      omega (arith, between.bits_fit) in
    rw (absorb-short s b (omega arith), overwrite-cons s.cur b (c ∷ bytes) s.curr_block, cur, bits)
      refl

-- A turn that does not go beyond the block takes its bytes one by one.
turn-absorb :
    (s : Status) (b : ℕ) (bytes : List ℕ)
    → IsBetween s
    → s.cur + suc (length bytes) ≤ 64
    → update_turn s (b ∷ bytes) ≡ absorb_all s (b ∷ bytes)
turn-absorb s b [] between fits = update_turn-absorb s b between.room
turn-absorb s b (c ∷ bytes) between fits =
    turn-split s b c bytes between fits
    ∙ turn-absorb (absorb s b) c bytes (absorb-IsBetween s b between)
        (rw (absorb-short s b (omega arith)) (omega arith))

turn-take :
    (s : Status) (n : ℕ) (bytes : List ℕ)
    → IsBetween s
    → 0 < n
    → n ≤ length bytes
    → s.cur + n ≤ 64
    → update_turn s (take n bytes) ≡ absorb_all s (take n bytes)
turn-take s zero bytes between pos inside fits = absurd (omega arith)
turn-take s (suc n) [] between pos inside fits = absurd (omega arith)
turn-take s (suc n) (b ∷ bytes) between pos inside fits =
    turn-absorb s b (take n bytes) between (omega (arith, length-take n bytes))

update_from-absorb :
    (fuel : ℕ) (s : Status) (buffer : List ℕ)
    → IsBetween s
    → length buffer ≤ fuel
    → update_from fuel s buffer ≡ some (absorb_all s buffer)
unfolding update_from
update_from-absorb zero s [] between enough = refl
update_from-absorb (suc fuel) s [] between enough = refl
update_from-absorb zero s (b ∷ buffer) between enough = absurd (omega arith)
update_from-absorb (suc fuel) s (b ∷ buffer) between enough =
    let all = b ∷ buffer in
    let n = min (sub64 64 s.cur) (length all) in
    let size = length-drop n all in
    let inside = absorb_all-IsBetween s (take n all) between in
    ap (λ t. update_from fuel t (drop n all))
      (turn-take s n all between (omega (arith, between.room)) (omega arith)
        (omega (arith, between.room)))
    ∙ update_from-absorb fuel (absorb_all s (take n all)) (drop n all) inside
        (omega (arith, between.room, size))
    ∙ ap some (
        sym (absorb_all-append s (take n all) (drop n all))
        ∙ ap (absorb_all s) (take-append-drop n all))

-- The loop of `update` ends with what comes of the bytes one by one: each goes behind those in the
-- block, with eight bits counted for it in 64, and a block that is full of 64 is compressed into the
-- hash words and begun again. The status is one that holds between two calls.
pub update-absorb_all :
    (s : Status) (buffer : List ℕ) → IsBetween s → update s buffer ≡ some (absorb_all s buffer)
unfolding update
update-absorb_all s buffer between =
    update_from-absorb (length buffer) s buffer between (omega arith)

-- What comes of a buffer does not depend on how it is split between two calls, from any status that
-- holds between two calls.
pub update-append :
    (s : Status) (xs ys : List ℕ)
    → IsBetween s
    → (t : Status) × (update s xs ≡ some t) × (update t ys ≡ update s (xs ++ ys)) × IsBetween t
update-append s xs ys between =
    let inside = absorb_all-IsBetween s xs between in
    (
      absorb_all s xs,
      update-absorb_all s xs between,
      update-absorb_all (absorb_all s xs) ys inside
          ∙ ap some (sym (absorb_all-append s xs ys))
          ∙ sym (update-absorb_all s (xs ++ ys) between),
      inside,
    )
