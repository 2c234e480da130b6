-- ===== src/Words/Bits.antt =====
-- Laws of `|` and `&` at variables, from the digit recursion that the native operations stand for.
use Prim.Native.Nat.{digits, bitwise, bit_and, bit_or, bit_and-bitwise, bit_or-bitwise}
use tx_queue.Base.{
  ℕ, zero, suc, ◌+◌, ◌-◌, ◌*◌, ◌/◌, ◌%◌, ◌^◌, ◌≤◌, ◌<◌, min, max, ◌≡◌, refl, ap, ◌∙◌, arith,
}
use native.Mathlib.Nat.{two-pow-succ, one-le-pow}

-- One more than enough fuel changes nothing, so any amount that is enough gives the same.
module _ (low : ℕ → ℕ) (both : ℕ → ℕ → ℕ) where
  digits_more :
      (fuel b a : ℕ) → a ≤ fuel → digits low both (suc fuel) a b ≡ digits low both fuel a b
  digits_more fuel b zero enough = zero_first fuel
    where
      zero_first : (fuel : ℕ) → digits low both (suc fuel) 0 b ≡ digits low both fuel 0 b
      zero_first zero = refl
      zero_first (suc _) = refl
  digits_more (suc fuel) b (suc a) enough =
      let half = digits_more fuel (b / 2) (suc a / 2) (omega arith) in
      ap (λ t. t * 2 + both (suc a % 2) (b % 2)) half
  digits_more zero b (suc a) enough = absurd (omega arith)

  digits_spare :
      (spare a b fuel : ℕ)
      → a ≤ fuel
      → digits low both (spare + fuel) a b ≡ digits low both fuel a b
  digits_spare zero a b fuel enough =
      let none : zero + fuel ≡ fuel = omega arith in ap (λ n. digits low both n a b) none
  digits_spare (suc spare) a b fuel enough =
      let next : suc spare + fuel ≡ suc (spare + fuel) = omega arith in
      ap (λ n. digits low both n a b) next
      ∙ digits_more (spare + fuel) b a (omega arith)
      ∙ digits_spare spare a b fuel enough

  halved :
      (a b : ℕ)
      → let h = suc a / 2 in
        bitwise low both (suc a) b ≡ bitwise low both h (b / 2) * 2 + both (suc a % 2) (b % 2)
  halved a b =
      let h = suc a / 2 in
      let sum : a ≡ a - h + h = omega arith in
      ap (λ t. t * 2 + both (suc a % 2) (b % 2))
        (ap (λ n. digits low both n h (b / 2)) sum ∙ digits_spare (a - h) h (b / 2) h (omega arith))

-- The lowest digit of a union and of an intersection, and the others.
pub bit_or_step : (x y : ℕ) → bit_or x y ≡ max (x % 2) (y % 2) + 2 * bit_or (x / 2) (y / 2)
bit_or_step (suc x) y =
    omega
      (arith, bit_or-bitwise (suc x) y, bit_or-bitwise (suc x / 2) (y / 2), halved (λ n. n) max x y)
bit_or_step zero y = omega (arith, bit_or-bitwise 0 y, bit_or-bitwise 0 (y / 2))

pub bit_and_step : (x y : ℕ) → bit_and x y ≡ min (x % 2) (y % 2) + 2 * bit_and (x / 2) (y / 2)
bit_and_step (suc x) y = omega (
  arith,
  bit_and-bitwise (suc x) y,
  bit_and-bitwise (suc x / 2) (y / 2),
  halved (λ _. zero) min x y,
)
bit_and_step zero y = omega (arith, bit_and-bitwise 0 y, bit_and-bitwise 0 (y / 2))

-- Both operands fit `k` bits, and so does their union.
pub bit_or-lt : (k a b : ℕ) → a < 2 ^ k → b < 2 ^ k → bit_or a b < 2 ^ k
bit_or-lt zero zero zero p q = omega arith
bit_or-lt zero zero (suc b) p q = absurd (omega arith)
bit_or-lt zero (suc a) b p q = absurd (omega arith)
bit_or-lt (suc k) a b p q = omega (
  arith,
  two-pow-succ k,
  bit_or_step a b,
  bit_or-lt k (a / 2) (b / 2) (omega (arith, two-pow-succ k)) (omega (arith, two-pow-succ k)),
)

-- The union is at least each operand; the width bounds the recursion.
pub le-bit_or : (k a b : ℕ) → a < 2 ^ k → b < 2 ^ k → (a ≤ bit_or a b) × (b ≤ bit_or a b)
le-bit_or zero zero zero p q = omega arith
le-bit_or zero zero (suc b) p q = absurd (omega arith)
le-bit_or zero (suc a) b p q = absurd (omega arith)
le-bit_or (suc k) a b p q = omega (
  arith,
  bit_or_step a b,
  le-bit_or k (a / 2) (b / 2) (omega (arith, two-pow-succ k)) (omega (arith, two-pow-succ k)),
)

bit_or-zero : (k a : ℕ) → a < 2 ^ k → bit_or a 0 ≡ a
bit_or-zero zero zero p = refl
bit_or-zero zero (suc a) p = absurd (omega arith)
bit_or-zero (suc k) a p =
    omega (arith, bit_or_step a 0, bit_or-zero k (a / 2) (omega (arith, two-pow-succ k)))

double-shift : (q k : ℕ) → q * 2 ^ suc k ≡ 2 * (q * 2 ^ k)
double-shift q k = omega (arith, ap (λ (t : ℕ). q * t) (two-pow-succ k))

lt-two-pow : (a : ℕ) → a < 2 ^ a
lt-two-pow zero = omega arith
lt-two-pow (suc a) = omega (arith, two-pow-succ a, lt-two-pow a)

-- A union with something below bit `k` leaves the bits from `k` on alone.
pub bit_or_low :
    (k q r b : ℕ) → r < 2 ^ k → b < 2 ^ k → bit_or (q * 2 ^ k + r) b ≡ q * 2 ^ k + bit_or r b
bit_or_low zero q zero zero hr hb = bit_or-zero _ (q * 1 + 0) (lt-two-pow _)
bit_or_low zero q zero (suc b) hr hb = absurd (omega arith)
bit_or_low zero q (suc r) b hr hb = absurd (omega arith)
bit_or_low (suc k) q r b hr hb =
    let low =
      bit_or_low k q (r / 2) (b / 2) (omega (arith, two-pow-succ k))
        (omega (arith, two-pow-succ k)) in
    ground (arith, double-shift q k, bit_or_step (q * 2 ^ suc k + r) b, bit_or_step r b, low)

bit_and-zero : (k a : ℕ) → a < 2 ^ k → bit_and a 0 ≡ 0
bit_and-zero zero zero p = refl
bit_and-zero zero (suc a) p = absurd (omega arith)
bit_and-zero (suc k) a p =
    omega (arith, bit_and_step a 0, bit_and-zero k (a / 2) (omega (arith, two-pow-succ k)))

bit_and_fields : (k q r : ℕ) → r < 2 ^ k → bit_and (q * 2 ^ k + r) (2 ^ k - 1) ≡ r
bit_and_fields zero q zero h = bit_and-zero _ (q * 1 + 0) (lt-two-pow _)
bit_and_fields zero q (suc r) h = absurd (omega arith)
bit_and_fields (suc k) q r h =
    let low = bit_and_fields k q (r / 2) (omega (arith, two-pow-succ k)) in
    ground (
      arith,
      double-shift q k,
      two-pow-succ k,
      one-le-pow k 2,
      bit_and_step (q * 2 ^ suc k + r) (2 ^ suc k - 1),
      low,
    )

-- `a & (2 ^ k - 1)` is the remainder by `2 ^ k`.
pub bit_and_mask : (k a : ℕ) → bit_and a (2 ^ k - 1) ≡ a % 2 ^ k
bit_and_mask k a = ground (arith, one-le-pow k 2, bit_and_fields k (a / 2 ^ k) (a % 2 ^ k))
