-- ===== src/Queue/RoundUp.antt =====
-- `round_up` gives the least power of two that is not below its argument, up to 2 ^ 63.
use Prim.Native.Nat.{bit_or}
use native.Mathlib.Nat.{
  two-pow-succ, one-le-pow, pow-le-pow_right, div-add-mod', mod-lt, mod-eq_of_lt, mul-le-mul_right,
  div-le_self, div-lt_iff_lt-mul,
}
use tx_queue.Base.{
  ℕ, zero, suc, ◌+◌, ◌-◌, ◌*◌, ◌/◌, ◌%◌, ◌^◌, ◌≤◌, ◌<◌, ◌≡◌, refl, sym, ap, ◌∙◌, ◌⊎◌, inl, inr,
  arith, dec_le, dec_lt,
}
use tx_queue.Words.{sub64}
use tx_queue.Words.Bits.{bit_or_low, bit_or-lt, le-bit_or}
use tx_queue.Queue.{smear, round_up}

-- The `m` highest of the `n` bits of `x` are ones.
record LeadingOnes (n m x : ℕ) : Type 0 where
  fits : x < 2 ^ n
  ones : 2 ^ n ≤ x + 2 ^ (n - m)

two-pow-add : (a b : ℕ) → 2 ^ (a + b) ≡ 2 ^ a * 2 ^ b
two-pow-add zero b = let e : zero + b ≡ b = omega arith in rw e (omega arith)
two-pow-add (suc a) b =
    let e : suc a + b ≡ suc (a + b) = omega arith in
    rw e (
      omega
        (arith, two-pow-succ (a + b), two-pow-add a b, ap (λ (t : ℕ). t * 2 ^ b) (two-pow-succ a)))

-- The inequality behind `quotient_lower`, for numbers: `big` is 2 ^ d, `step` is 2 ^ m.
quotient_bound :
    (big step rest x : ℕ)
    → 0 < step
    → big ≤ step * rest
    → big * step ≤ x + big
    → big ≤ x / step + rest
quotient_bound big step rest x pos up h = elim (dec_le big (x / step + rest)) [
  | yes fits ↦ fits
  | no over ↦ absurd (
      omega (
        arith,
        mod-lt x pos,
        div-add-mod' x step,
        mul-le-mul_right {m = x / step + rest + 1} {n = big} step (omega arith),
      ))
]

-- The quotient of such a number has ones where the number had them, `m` bits lower.
quotient_lower : (d m x : ℕ) → 2 ^ d * 2 ^ m ≤ x + 2 ^ d → 2 ^ d ≤ x / 2 ^ m + 2 ^ (d - m)
quotient_lower d m x h = elim (dec_le m d) [
  | yes fits ↦
      quotient_bound (2 ^ d) (2 ^ m) (2 ^ (d - m)) x (one-le-pow m 2 (omega arith))
        (omega (arith, two-pow-add m (d - m), ap (λ t. 2 ^ t) (back fits))) h
  | no over ↦
      quotient_bound (2 ^ d) (2 ^ m) (2 ^ (d - m)) x (one-le-pow m 2 (omega arith))
        (omega (
          arith,
          pow-le-pow_right {n = 2} (omega arith) {i = d} {j = m} (omega arith),
          one-le-pow (d - m) 2,
          ap (λ (t : ℕ). 2 ^ m * t) (none_left over),
        ))
        h
]
  where
    back : m ≤ d → m + (d - m) ≡ d
    back p = omega arith

    none_left : ¬ (m ≤ d) → 2 ^ (d - m) ≡ 1
    none_left p = let e : d - m ≡ 0 = omega arith in rw e

-- A union with the lower part's bits keeps the upper part and is no less than those bits.
top-le-bit_or :
    (k top x b : ℕ) → top * 2 ^ k ≤ x + 2 ^ k → b < 2 ^ k → top * 2 ^ k + b ≤ bit_or x b + 2 ^ k
top-le-bit_or k top x b h small = omega (
  arith,
  mod-lt x pos,
  div-add-mod' x (2 ^ k),
  mul-le-mul_right (2 ^ k) upper,
  joined,
  le-bit_or k (x % 2 ^ k) b (mod-lt x pos) small,
)
  where
    pos : 0 < 2 ^ k
    pos = one-le-pow k 2 (omega arith)

    joined : bit_or x b ≡ x / 2 ^ k * 2 ^ k + bit_or (x % 2 ^ k) b
    joined =
        ap (λ t. bit_or t b) (sym (div-add-mod' x (2 ^ k)))
        ∙ bit_or_low k (x / 2 ^ k) (x % 2 ^ k) b (mod-lt x pos) small

    upper : top ≤ x / 2 ^ k + 1
    upper = elim (dec_le top (x / 2 ^ k + 1)) [
      | yes fits ↦ fits
      | no over ↦ absurd (
          omega (
            arith,
            mod-lt x pos,
            div-add-mod' x (2 ^ k),
            mul-le-mul_right {m = x / 2 ^ k + 2} {n = top} (2 ^ k) (omega arith),
          ))
    ]

smear_ones :
    (d m x : ℕ)
    → x < 2 ^ (m + d)
    → 2 ^ (m + d) ≤ x + 2 ^ d
    → 2 ^ (m + d) ≤ bit_or x (x / 2 ^ m) + 2 ^ (d - m)
smear_ones d m x fits ones =
    let top = top-le-bit_or d (2 ^ m) x (x / 2 ^ m) (omega (arith, product)) below in
    let lower = quotient_lower d m x (omega (arith, product)) in omega (arith, top, lower, product)
  where
    product : 2 ^ (m + d) ≡ 2 ^ m * 2 ^ d
    product = two-pow-add m d

    below : x / 2 ^ m < 2 ^ d
    below = (div-lt_iff_lt-mul (one-le-pow m 2 (omega arith))).1 (omega (arith, product))

-- One `|=` doubles the run of leading ones.
LeadingOnes-smear : (n m x : ℕ) → LeadingOnes n m x → LeadingOnes n (m + m) (bit_or x (x / 2 ^ m))
LeadingOnes-smear n m x lead = record {
  fits = bit_or-lt n x (x / 2 ^ m) lead.fits low;
  ones = elim (dec_le n m) [
    | yes all ↦ omega (
      arith,
      lead.ones,
      le-bit_or n x (x / 2 ^ m) lead.fits low,
      one-le-pow (n - (m + m)) 2,
      none_left all,
    )
    | no some_left ↦ some_ones (n - m) (omega arith)
  ];
}
  where
    low : x / 2 ^ m < 2 ^ n
    low = omega (arith, lead.fits, div-le_self x (2 ^ m))

    none_left : n ≤ m → 2 ^ (n - m) ≡ 1
    none_left p = let e : n - m ≡ 0 = omega arith in rw e

    some_ones : (d : ℕ) → m + d ≡ n → 2 ^ n ≤ bit_or x (x / 2 ^ m) + 2 ^ (n - (m + m))
    some_ones d e =
        let rest : d - m ≡ n - (m + m) = omega arith in
        let left : n - m ≡ d = omega arith in
        omega (
          arith,
          smear_ones d m x (rw e lead.fits) (rw (e, ← left) lead.ones),
          ap (λ t. 2 ^ t) e,
          ap (λ t. 2 ^ t) rest,
        )

-- The number of binary digits.
bit_length : (k x : ℕ) → x < 2 ^ k → (n : ℕ) × (n ≤ k) × LeadingOnes n 1 x
bit_length zero x h = (0, omega arith, record { fits = h; ones = omega arith })
bit_length (suc k) x h = elim (dec_lt x (2 ^ k)) [
  | yes less ↦ let (n, up, lead) = bit_length k x less in (n, omega arith, lead)
  | no more ↦ (
    suc k,
    omega arith,
    record {
      fits = h;
      ones = let e : suc k - 1 ≡ k = omega arith in rw e (omega (arith, two-pow-succ k));
    },
  )
]

-- All six steps leave ones only.
smear-all :
    (n x : ℕ)
    → n ≤ 64
    → LeadingOnes n 1 x
    → smear 32 (smear 16 (smear 8 (smear 4 (smear 2 (smear 1 x))))) + 1 ≡ 2 ^ n
unfolding smear
smear-all n x h lead = omega (arith, last.fits, last.ones, none_left)
  where
    step : (m : ℕ) {y : ℕ} → LeadingOnes n m y → LeadingOnes n (m + m) (bit_or y (y / 2 ^ m))
    step m {y} l = LeadingOnes-smear n m y l

    last : LeadingOnes n 64 (smear 32 (smear 16 (smear 8 (smear 4 (smear 2 (smear 1 x))))))
    last = step 32 (step 16 (step 8 (step 4 (step 2 (step 1 lead)))))

    none_left : 2 ^ (n - 64) ≡ 1
    none_left = let e : n - 64 ≡ 0 = omega arith in rw e

round_up-eq :
    (n c : ℕ) → 0 < c → c ≤ 2 ^ 64 → n ≤ 64 → LeadingOnes n 1 (c - 1) → round_up c ≡ 2 ^ n % 2 ^ 64
unfolding round_up
round_up-eq n c pos fits h lead =
    let back : sub64 c 1 ≡ c - 1 = omega arith in rw (back, smear-all n (c - 1) h lead)

half : (n : ℕ) → (2 ^ n ≡ 1) ⊎ (2 ^ n ≡ 2 ^ (n - 1) + 2 ^ (n - 1))
half zero = inl refl
half (suc n) = let e : suc n - 1 ≡ n = omega arith in rw e (inr (two-pow-succ n))

-- From 1 up to 2 ^ 63, `round_up c` is a power of two, at least `c` and less than twice `c`.
pub round_up_lem :
    (c : ℕ)
    → 0 < c
    → c ≤ 2 ^ 63
    → (k : ℕ) × (k ≤ 63) × (round_up c ≡ 2 ^ k) × (c ≤ 2 ^ k) × (2 ^ k < 2 * c)
round_up_lem c pos small = finish (bit_length 63 (c - 1) (omega arith))
  where
    finish :
        (n : ℕ) × (n ≤ 63) × LeadingOnes n 1 (c - 1)
        → (k : ℕ) × (k ≤ 63) × (round_up c ≡ 2 ^ k) × (c ≤ 2 ^ k) × (2 ^ k < 2 * c)
    finish (n, up, lead) = (
      n,
      up,
      round_up-eq n c pos (omega arith) (omega arith) lead
          ∙ mod-eq_of_lt
              (omega (arith, pow-le-pow_right {n = 2} (omega arith) {i = n} {j = 63} up)),
      omega (arith, lead.fits),
      omega (arith, lead.ones, half n),
    )

-- Above 2 ^ 63, up to 2 ^ 64, the last increment wraps, and `round_up c` is 0.
pub round_up_wraps : (c : ℕ) → 2 ^ 63 < c → c ≤ 2 ^ 64 → round_up c ≡ 0
round_up_wraps c large fits =
    round_up-eq 64 c (omega arith) fits (omega arith)
      (record { fits = omega arith; ones = omega arith })
