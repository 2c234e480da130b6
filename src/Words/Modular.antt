-- ===== src/Words/Modular.antt =====
-- Positions that grow for ever, and their remainders by the capacity: what the index arithmetic of a
-- transaction computes from the remainders alone.
use Prim.Native.Nat.{bit_and}
use native.Mathlib.Nat.{
  mod-add-mod, mod-eq_of_lt, mod-eq-sub-mod, mod-lt, one-le-pow, add-mod_right, pow-le-pow_right,
}
use tx_queue.Base.{ℕ, ◌+◌, ◌-◌, ◌%◌, ◌^◌, ◌≤◌, ◌<◌, ◌≡◌, ap, ◌∙◌, ◌≢◌, ◌⊎◌, inl, inr, arith, dec_lt}
use tx_queue.Words.{add64, sub64}
use tx_queue.Words.Bits.{bit_and_mask}

-- Going on from a position without passing the end of the storage.
pub mod-add :
    (capacity p k : ℕ) → p % capacity + k < capacity → (p + k) % capacity ≡ p % capacity + k
mod-add capacity p k h = omega (arith, mod-add-mod p capacity k, mod-eq_of_lt h)

-- Going on past the end.
pub mod-add_wrap :
    (capacity p k : ℕ)
    → capacity ≤ p % capacity + k
    → p % capacity + k < capacity + capacity
    → (p + k) % capacity ≡ p % capacity + k - capacity
mod-add_wrap capacity p k h g = omega (
  arith,
  mod-add-mod p capacity k,
  mod-eq-sub-mod h,
  mod-eq_of_lt {n = p % capacity + k - capacity} {m = capacity} (omega arith),
)

-- Two positions less than one round apart have different addresses.
pub mod-ne : (capacity p r : ℕ) → p < r → r < p + capacity → r % capacity ≢ p % capacity
mod-ne capacity p r h g = elim (dec_lt (p % capacity + (r - p)) capacity) [
  | yes less ↦ omega (arith, mod-add capacity p (r - p) less, ap (λ t. t % capacity) back)
  | no more ↦ omega (
    arith,
    mod-lt p {m = capacity} (omega arith),
    mod-add_wrap capacity p (r - p) (omega arith)
        (omega (arith, mod-lt p {m = capacity} (omega arith))),
    ap (λ t. t % capacity) back,
  )
]
  where
    back : p + (r - p) ≡ r
    back = omega arith

mod-eq : (capacity x v : ℕ) → (x ≡ v) ⊎ (x ≡ v + capacity) → v < capacity → x % capacity ≡ v
mod-eq capacity x v (inl e) small = rw e (mod-eq_of_lt small)
mod-eq capacity x v (inr e) small = rw (e, add-mod_right) (mod-eq_of_lt small)

-- A step of less than one round, by the remainders of its ends.
step_mod :
    (capacity h p : ℕ)
    → h ≤ p
    → p < h + capacity
    → (p % capacity ≡ h % capacity + (p - h)) ⊎ (p % capacity + capacity ≡ h % capacity + (p - h))
step_mod capacity h p up down = elim (dec_lt (h % capacity + (p - h)) capacity) [
  | yes less ↦ inl (back ∙ mod-add capacity h (p - h) less)
  | no more ↦ inr (
      omega (
        arith,
        back,
        mod-add_wrap capacity h (p - h) (omega arith)
            (omega (arith, mod-lt h {m = capacity} (omega arith))),
      ))
]
  where
    back : p % capacity ≡ (h + (p - h)) % capacity
    back = ap (λ t. t % capacity) (omega arith)

-- The word arithmetic does not lose anything: the wraps cancel.
room_words :
    (a b c : ℕ) → (a < c) × (b < c) × (c ≤ 2 ^ 63) → add64 (sub64 (sub64 a b) 1) c ≡ a + c - b - 1
room_words a b c h = omega arith

between_words : (a b c : ℕ) → (a < c) × (b < c) × (c ≤ 2 ^ 63) → add64 (sub64 b a) c ≡ b + c - a
between_words a b c h = omega arith

-- `x & (capacity - 1)`
mask :
    (capacity k : ℕ)
    → k ≤ 63
    → capacity ≡ 2 ^ k
    → (x : ℕ) → bit_and x (sub64 capacity 1) ≡ x % capacity
mask capacity k small power x =
    let top = pow-le-pow_right {n = 2} (omega arith) {i = k} {j = 63} small in
    let low : sub64 capacity 1 ≡ 2 ^ k - 1 = omega (arith, top, power, one-le-pow k 2) in
    rw (low, power) (bit_and_mask k x)

-- `(tail + size) & (capacity - 1)`
pub advance_masked :
    (capacity k p n : ℕ)
    → k ≤ 63
    → capacity ≡ 2 ^ k
    → n ≤ capacity
    → bit_and (add64 (p % capacity) n) (sub64 capacity 1) ≡ (p + n) % capacity
advance_masked capacity k p n small power fits =
    mask capacity k small power _ ∙ ap (λ t. t % capacity) no_wrap ∙ mod-add-mod p capacity n
  where
    top : 2 ^ k ≤ 2 ^ 63
    top = pow-le-pow_right {n = 2} (omega arith) small

    no_wrap : add64 (p % capacity) n ≡ p % capacity + n
    no_wrap = omega (
      arith,
      top,
      power,
      one-le-pow k 2,
      mod-lt p {m = capacity} (omega (arith, power, one-le-pow k 2)),
    )

module _ (capacity h p : ℕ) (up : h ≤ p) (down : p < h + capacity) where
  pos : 0 < capacity
  pos = omega arith

  -- The room left in front of `p` when the other side stands at `h`.
  room_mod : (h % capacity + capacity - p % capacity - 1) % capacity ≡ h + capacity - 1 - p
  room_mod =
      mod-eq capacity _ (h + capacity - 1 - p)
        (omega (arith, step_mod capacity h p up down, mod-lt h pos, mod-lt p pos)) (omega arith)

  -- What lies between `h` and `p`.
  between_mod : (p % capacity + capacity - h % capacity) % capacity ≡ p - h
  between_mod =
      mod-eq capacity _ (p - h)
        (omega (arith, step_mod capacity h p up down, mod-lt h pos, mod-lt p pos)) (omega arith)

  module _ (k : ℕ) (small : k ≤ 63) (power : capacity ≡ 2 ^ k) where
    bounds : (h % capacity < capacity) × (p % capacity < capacity) × (capacity ≤ 2 ^ 63)
    bounds = (
      mod-lt h pos,
      mod-lt p pos,
      rw power (pow-le-pow_right {n = 2} (omega arith) {i = k} {j = 63} small),
    )

    -- `(head - tail - 1 + capacity) & (capacity - 1)`
    pub room_masked :
        bit_and (add64 (sub64 (sub64 (h % capacity) (p % capacity)) 1) capacity) (sub64 capacity 1)
        ≡ h + capacity - 1 - p
    room_masked =
        mask capacity k small power _
        ∙ ap (λ t. t % capacity) (room_words (h % capacity) (p % capacity) capacity bounds)
        ∙ room_mod

    -- `(tail - head + capacity) & (capacity - 1)`
    pub between_masked :
        bit_and (add64 (sub64 (p % capacity) (h % capacity)) capacity) (sub64 capacity 1) ≡ p - h
    between_masked =
        mask capacity k small power _
        ∙ ap (λ t. t % capacity) (between_words (h % capacity) (p % capacity) capacity bounds)
        ∙ between_mod
