-- ===== src/Words/Mask.antt =====
-- `x & (x - 1)`, the test for a power of two.
use Prim.Native.Nat.{bit_and, bit_and-bitwise}
use native.Mathlib.Nat.{two-pow-succ, mod_self}
use tx_queue.Base.{
  ℕ, zero, suc, ◌+◌, ◌-◌, ◌*◌, ◌/◌, ◌%◌, ◌^◌, ◌≤◌, ◌<◌, ◌≡◌, refl, ◌∙◌, ◌⊎◌, inl, inr, ◌↔◌, arith,
  ℕ_discrete,
}
use tx_queue.Words.Bits.{bit_and_step, bit_and_mask}

pub zero-bit_and : (b : ℕ) → bit_and 0 b ≡ 0
zero-bit_and b = bit_and-bitwise 0 b

bit_and_self : (n x : ℕ) → x ≤ n → bit_and x x ≡ x
bit_and_self n zero h = refl
bit_and_self zero (suc x) h = absurd (omega arith)
bit_and_self (suc n) (suc x) h =
    omega (arith, bit_and_step (suc x) (suc x), bit_and_self n (suc x / 2) (omega arith))

abbrev pub IsPowerOfTwo : ℕ → Type 0
IsPowerOfTwo x = (k : ℕ) × (x ≡ 2 ^ k)

half_test : (x y : ℕ) → x ≡ y + y → 0 < y → bit_and x (x - 1) ≡ bit_and y (y - 1) * 2
half_test x y e pos =
    let low : x / 2 ≡ y = omega arith in
    let high : (x - 1) / 2 ≡ y - 1 = omega arith in
    ground (arith, bit_and_step x (x - 1), low, high)

odd_test : (x y : ℕ) → x ≡ suc (y + y) → bit_and x (x - 1) ≡ y * 2
odd_test x y e =
    let low : x / 2 ≡ y = omega arith in
    let high : (x - 1) / 2 ≡ y = omega arith in
    ground (arith, bit_and_step x (x - 1), low, high, bit_and_self y y)

passes-IsPowerOfTwo : (n x : ℕ) → x ≤ n → 0 < x → bit_and x (x - 1) ≡ 0 → IsPowerOfTwo x
passes-IsPowerOfTwo zero x h pos t = absurd (omega arith)
passes-IsPowerOfTwo (suc n) x h pos t = elim (ℕ_discrete (x % 2) 0) [
  | yes even ↦
      let (k, e) =
        passes-IsPowerOfTwo n (x / 2) (omega arith) (omega arith)
          (omega (arith, half_test x (x / 2) (omega arith) (omega arith))) in
      (suc k, omega (arith, two-pow-succ k))
  | no odd ↦ (0, omega (arith, odd_test x (x / 2) (omega arith)))
]

-- The test passes at 0 and at the powers of two, and nowhere else.
pub IsPowerOfTwo-test : (x : ℕ) → (bit_and x (x - 1) ≡ 0) ↔ ((x ≡ 0) ⊎ IsPowerOfTwo x)
IsPowerOfTwo-test x = (there, back)
  where
    there : bit_and x (x - 1) ≡ 0 → (x ≡ 0) ⊎ IsPowerOfTwo x
    there t = elim (ℕ_discrete x 0) [
      | yes e ↦ inl e
      | no ne ↦ inr (passes-IsPowerOfTwo x x (omega arith) (omega arith) t)
    ]

    back : (x ≡ 0) ⊎ IsPowerOfTwo x → bit_and x (x - 1) ≡ 0
    back (inl e) = rw e (zero-bit_and (0 - 1))
    back (inr (k, e)) = rw e (bit_and_mask k (2 ^ k) ∙ mod_self (2 ^ k))
