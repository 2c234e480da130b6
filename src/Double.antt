-- ===== src/Double.antt =====
-- The arithmetic of `double` as far as utests/common/misc.h computes with it: positive numbers of a
-- size at which nothing overflows and nothing is subnormal.
pub mod Laws
pub mod Chains
use tx_queue.Base.{ℕ, zero, suc, ◌+◌, ◌*◌, ◌/◌, ◌%◌, ◌^◌, ltb, if◌then◌else◌}

-- The value `num` / `den`.
pub record Double : Type 0 where
  pub num : ℕ
  pub den : ℕ

-- The whole number next to `num` / `den`, of two as near the even one.
unfoldable pub round_half_even : (num den : ℕ) → ℕ
round_half_even num den =
    let whole = num / den in
    let left = 2 * (num % den) in
    if ltb left den then whole else if ltb den left then whole + 1 else whole + whole % 2

-- How far the doubles about `x` lie apart, where they are whole numbers, of which `fuel` + 53 bits
-- are enough.
unfoldable pub spacing : (fuel x : ℕ) → ℕ
spacing zero x = 1
spacing (suc fuel) x = let rest = spacing fuel (x / 2) in if ltb x (2 ^ 53) then 1 else 2 * rest

-- `(double)x` of 64 bits.
unfoldable pub of_u64 : ℕ → Double
of_u64 x = let s = spacing 11 x in record { num = round_half_even x s * s; den = 1 }

-- A division by a power of two, which changes the exponent alone.
abbrev pub scaled : (power : ℕ) → Double → Double
scaled power x = record x { den = power * x.den }

-- The powers of two by which `num` / `den` has to be multiplied, and divided, to come between 2 ^ 52
-- and 2 ^ 53. The fuel is enough for values from 2 ^ -76 to 2 ^ 181.
unfoldable pub raise : (fuel num den : ℕ) → ℕ
raise zero num den = 1
raise (suc fuel) num den =
    let rest = raise fuel (2 * num) den in if ltb num (2 ^ 52 * den) then 2 * rest else 1

unfoldable pub lower : (fuel num den : ℕ) → ℕ
lower zero num den = 1
lower (suc fuel) num den =
    let rest = lower fuel num (2 * den) in if ltb num (2 ^ 53 * den) then 1 else 2 * rest

-- The double next to `num` / `den`.
unfoldable pub quotient : (num den : ℕ) → Double
quotient num den =
    let up = raise 128 num den in
    let down = lower 128 num den in
    record { num = round_half_even (up * num) (down * den) * down; den = up }

-- `x / y`
unfoldable pub divide : Double → Double → Double
divide x y = quotient (x.num * y.den) (x.den * y.num)
