-- ===== src/Sha256/Compress.antt =====
-- `process_block` of utests/common/sha256.h, and the functions on words that it uses.
use Prim.Native.Nat.{bit_and, bit_or, bit_xor}
use tx_queue.Base.{ℕ, zero, suc, ◌+◌, ◌-◌, ◌*◌, ◌%◌, ◌^◌, List, [], ◌∷◌, ◌++◌, get_or}
use tx_queue.Words.{u32_mod, add32, shr}

pub record Hash : Type 0 where
  pub a : ℕ
  pub b : ℕ
  pub c : ℕ
  pub d : ℕ
  pub e : ℕ
  pub f : ℕ
  pub g : ℕ
  pub h : ℕ

abbrev pub initial_hash : Hash
initial_hash = record {
  a = 0x6A09E667;
  b = 0xBB67AE85;
  c = 0x3C6EF372;
  d = 0xA54FF53A;
  e = 0x510E527F;
  f = 0x9B05688C;
  g = 0x1F83D9AB;
  h = 0x5BE0CD19;
}

abbrev pub k : List ℕ
k =
    0x428A2F98 ∷ 0x71374491 ∷ 0xB5C0FBCF ∷ 0xE9B5DBA5 ∷ 0x3956C25B ∷ 0x59F111F1 ∷ 0x923F82A4
    ∷ 0xAB1C5ED5 ∷ 0xD807AA98 ∷ 0x12835B01 ∷ 0x243185BE ∷ 0x550C7DC3 ∷ 0x72BE5D74 ∷ 0x80DEB1FE
    ∷ 0x9BDC06A7 ∷ 0xC19BF174 ∷ 0xE49B69C1 ∷ 0xEFBE4786 ∷ 0x0FC19DC6 ∷ 0x240CA1CC ∷ 0x2DE92C6F
    ∷ 0x4A7484AA ∷ 0x5CB0A9DC ∷ 0x76F988DA ∷ 0x983E5152 ∷ 0xA831C66D ∷ 0xB00327C8 ∷ 0xBF597FC7
    ∷ 0xC6E00BF3 ∷ 0xD5A79147 ∷ 0x06CA6351 ∷ 0x14292967 ∷ 0x27B70A85 ∷ 0x2E1B2138 ∷ 0x4D2C6DFC
    ∷ 0x53380D13 ∷ 0x650A7354 ∷ 0x766A0ABB ∷ 0x81C2C92E ∷ 0x92722C85 ∷ 0xA2BFE8A1 ∷ 0xA81A664B
    ∷ 0xC24B8B70 ∷ 0xC76C51A3 ∷ 0xD192E819 ∷ 0xD6990624 ∷ 0xF40E3585 ∷ 0x106AA070 ∷ 0x19A4C116
    ∷ 0x1E376C08 ∷ 0x2748774C ∷ 0x34B0BCB5 ∷ 0x391C0CB3 ∷ 0x4ED8AA4A ∷ 0x5B9CCA4F ∷ 0x682E6FF3
    ∷ 0x748F82EE ∷ 0x78A5636F ∷ 0x84C87814 ∷ 0x8CC70208 ∷ 0x90BEFFFA ∷ 0xA4506CEB ∷ 0xBEF9A3F7
    ∷ 0xC67178F2 ∷ []

-- `(_x >> _n) | (_x << (32 - _n))`
unfoldable pub rotr : ℕ → ℕ → ℕ
rotr x n = bit_or (shr x n) (x * 2 ^ (32 - n) % u32_mod)

unfoldable pub sigma0 : ℕ → ℕ
sigma0 x = bit_xor (bit_xor (rotr x 2) (rotr x 13)) (rotr x 22)

unfoldable pub sigma1 : ℕ → ℕ
sigma1 x = bit_xor (bit_xor (rotr x 6) (rotr x 11)) (rotr x 25)

unfoldable pub sigma0_256 : ℕ → ℕ
sigma0_256 x = bit_xor (bit_xor (rotr x 7) (rotr x 18)) (shr x 3)

unfoldable pub sigma1_256 : ℕ → ℕ
sigma1_256 x = bit_xor (bit_xor (rotr x 17) (rotr x 19)) (shr x 10)

-- `~_x` is `2 ^ 32 - 1 - x`.
unfoldable pub ch : ℕ → ℕ → ℕ → ℕ
ch x y z = bit_xor (bit_and x y) (bit_and (u32_mod - 1 - x) z)

unfoldable pub maj : ℕ → ℕ → ℕ → ℕ
maj x y z = bit_xor (bit_xor (bit_and x y) (bit_and x z)) (bit_and y z)

-- The first 16 words: four bytes of the block each, the high byte first.
unfoldable pub load_words : (count j : ℕ) → (block : List ℕ) → List ℕ
load_words zero j block = []
load_words (suc count) j block =
    bit_or
      (bit_or (bit_or (get_or block (j * 4 + 0) 0 * 2 ^ 24) (get_or block (j * 4 + 1) 0 * 2 ^ 16))
        (get_or block (j * 4 + 2) 0 * 2 ^ 8))
      (get_or block (j * 4 + 3) 0)
    ∷ load_words count (j + 1) block

-- The words from `j` on, one behind the other.
unfoldable pub extend_words : (count j : ℕ) → (w : List ℕ) → List ℕ
extend_words zero j w = w
extend_words (suc count) j w =
    let next =
      add32
        (add32 (add32 (sigma1_256 (get_or w (j - 2) 0)) (get_or w (j - 7) 0))
          (sigma0_256 (get_or w (j - 15) 0)))
        (get_or w (j - 16) 0) in
    extend_words count (j + 1) (w ++ next ∷ [])

unfoldable pub round : Hash → (kj wj : ℕ) → Hash
round s kj wj =
    let temp1 = add32 (add32 (add32 (add32 s.h (sigma1 s.e)) (ch s.e s.f s.g)) kj) wj in
    let temp2 = add32 (sigma0 s.a) (maj s.a s.b s.c) in
    record {
      a = add32 temp1 temp2;
      b = s.a;
      c = s.b;
      d = s.c;
      e = add32 s.d temp1;
      f = s.e;
      g = s.f;
      h = s.g;
    }

unfoldable pub rounds : (count j : ℕ) → (w : List ℕ) → Hash → Hash
rounds zero j w s = s
rounds (suc count) j w s = rounds count (j + 1) w (round s (get_or k j 0) (get_or w j 0))

-- What `process_block` makes of the hash words and the block.
unfoldable pub compress : Hash → (block : List ℕ) → Hash
compress s block =
    let w = extend_words 48 16 (load_words 16 0 block) in
    let r = rounds 64 0 w s in
    record {
      a = add32 s.a r.a;
      b = add32 s.b r.b;
      c = add32 s.c r.c;
      d = add32 s.d r.d;
      e = add32 s.e r.e;
      f = add32 s.f r.f;
      g = add32 s.g r.g;
      h = add32 s.h r.h;
    }
