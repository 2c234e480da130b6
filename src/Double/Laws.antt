-- ===== src/Double/Laws.antt =====
-- How near the rounding of a whole number and of a quotient is.
use tx_queue.Base.{
  ℕ, zero, suc, ◌+◌, ◌-◌, dec_lt, ◌*◌, ◌/◌, ◌^◌, ◌≤◌, ◌<◌, ◌⊎◌, ◌≡◌, refl, ap, ◌∙◌, false, ltb,
  arith, Bool-cases, inl, inr,
}
use tx_queue.Double.{round_half_even, spacing, of_u64, raise, lower, quotient, Double}

-- The rounded number is at most a half away.
pub round_half_even_near :
    (num den : ℕ)
    → 0 < den
    → (2 * num ≤ 2 * (round_half_even num den * den) + den)
      × (2 * (round_half_even num den * den) ≤ 2 * num + den)
unfolding round_half_even
round_half_even_near num den pos = grind arith

pub spacing_bounds :
    (fuel x : ℕ) → x < 2 ^ 53 * 2 ^ fuel → (0 < spacing fuel x) × (spacing fuel x ≤ 2 ^ fuel)
unfolding spacing
spacing_bounds zero x h = omega arith
spacing_bounds (suc fuel) x h = ground (arith, spacing_bounds fuel (x / 2))

-- A whole number of 64 bits is not changed below 2 ^ 53, and by at most 1024 above.
pub of_u64_near :
    (x : ℕ)
    → x < 2 ^ 64
    → ((of_u64 x).den ≡ 1)
      × (x < 2 ^ 53 → (of_u64 x).num ≡ x)
      × ((of_u64 x).num ≤ x + 1024)
      × (x ≤ (of_u64 x).num + 1024)
unfolding of_u64
of_u64_near x small =
    let (pos, far) = spacing_bounds 11 x (omega arith) in
    let (low, high) = round_half_even_near x (spacing 11 x) pos in
    (refl, λ below. exact below, omega (arith, high, far), omega (arith, low, far))
  where
    exact : x < 2 ^ 53 → round_half_even x (spacing 11 x) * spacing 11 x ≡ x
    exact below =
        let one : spacing 11 x ≡ 1 = unfold spacing in ground arith in
        rw one (unfold round_half_even in ground arith)

pub product_pos : (a b : ℕ) → 0 < a → 0 < b → 0 < a * b
product_pos a b h k = grind arith

le_product : (a b : ℕ) → 0 < a → b ≤ a * b
le_product a b h = grind arith

geb : (a b : ℕ) → ltb a b ≡ false → b ≤ a
geb a b h = ground arith

pub raise_bounds :
    (fuel num den : ℕ)
    → 2 ^ 52 * den ≤ num * 2 ^ fuel
    → (0 < raise fuel num den) × (2 ^ 52 * den ≤ raise fuel num den * num)
unfolding raise
raise_bounds zero num den h = omega arith
raise_bounds (suc fuel) num den h = elim (Bool-cases (ltb num (2 ^ 52 * den))) [
  | inl small ↦
      let doubled : num * 2 ^ suc fuel ≡ 2 * num * 2 ^ fuel =
        let p : 2 ^ suc fuel ≡ 2 * 2 ^ fuel = omega arith in rw p (grind arith) in
      let (pos, big) = raise_bounds fuel (2 * num) den (omega (arith, h, doubled)) in
      let r = raise fuel (2 * num) den in
      let same : r * (2 * num) ≡ 2 * r * num = grind arith in
      rw small (omega (arith, pos), omega (arith, big, same))
  | inr enough ↦ rw enough (omega arith, ground arith)
]

pub lower_bounds :
    (fuel num den : ℕ)
    → (0 < lower fuel num den)
      × ((lower fuel num den ≡ 1) ⊎ (2 ^ 52 * (lower fuel num den * den) ≤ num))
unfolding lower
lower_bounds zero num den = (omega arith, inl refl)
lower_bounds (suc fuel) num den = elim (Bool-cases (ltb num (2 ^ 53 * den))) [
  | inl small ↦ rw small (omega arith, inl refl)
  | inr large ↦
      let (pos, either) = lower_bounds fuel num (2 * den) in
      let r = lower fuel num (2 * den) in
      let same : r * (2 * den) ≡ 2 * r * den = grind arith in
      rw large (
        omega (arith, pos),
        inr (elim either [
          | inl one ↦
              let twice : 2 * r * den ≡ 2 * den = ap (λ n. 2 * n * den) one ∙ omega arith in
              omega (arith, twice, geb num (2 ^ 53 * den) large)
          | inr big ↦ omega (arith, big, same)
        ]),
      )
]

-- A quotient in range is as near as one part in 2 ^ 53.
pub record IsNear (num den : ℕ) (r : Double) : Type 0 where
  pub den_pos : 0 < r.den
  pub num_pos : 0 < r.num
  pub not_above : 2 ^ 53 * (r.num * den) ≤ (2 ^ 53 + 1) * (num * r.den)
  pub not_below : (2 ^ 53 - 1) * (num * r.den) ≤ 2 ^ 53 * (r.num * den)

pub quotient-IsNear :
    (num den : ℕ)
    → 0 < num
    → 0 < den
    → 2 ^ 52 * den ≤ num * 2 ^ 128
    → IsNear num den (quotient num den)
unfolding quotient
quotient-IsNear num den some_num some_den in_range = record {
  den_pos = up_pos;
  num_pos = product_pos q down q_pos down_pos;
  not_above = omega (arith, high, big, same, turned);
  not_below = omega (arith, low, big, same, turned);
}
  where
    up : ℕ
    up = raise 128 num den

    down : ℕ
    down = lower 128 num den

    q : ℕ
    q = round_half_even (up * num) (down * den)

    up_pos : 0 < up
    up_pos = (raise_bounds 128 num den in_range).0

    down_pos : 0 < down
    down_pos = (lower_bounds 128 num den).0

    big : 2 ^ 52 * (down * den) ≤ up * num
    big = elim ((lower_bounds 128 num den).1) [
      | inl one ↦
          let e : down * den ≡ den = ap (λ n. n * den) one ∙ omega arith in
          omega (arith, e, (raise_bounds 128 num den in_range).1)
      | inr large ↦ omega (arith, large, le_product up num up_pos)
    ]

    divisor_pos : 0 < down * den
    divisor_pos = product_pos down den down_pos some_den

    low : 2 * (up * num) ≤ 2 * (q * (down * den)) + down * den
    low = (round_half_even_near (up * num) (down * den) divisor_pos).0

    high : 2 * (q * (down * den)) ≤ 2 * (up * num) + down * den
    high = (round_half_even_near (up * num) (down * den) divisor_pos).1

    q_pos : 0 < q
    q_pos = elim (dec_lt 0 q) [
      | yes p ↦ p
      | no none_left ↦
          let z : q ≡ 0 = omega (arith, none_left) in
          let e : q * (down * den) ≡ 0 = ap (λ n. n * (down * den)) z ∙ omega arith in
          absurd (omega (arith, low, e, big, divisor_pos))
    ]

    same : q * down * den ≡ q * (down * den)
    same = grind arith

    turned : num * up ≡ up * num
    turned = grind arith
