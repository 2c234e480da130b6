-- ===== src/Format/Laws.antt =====
-- How near the printed sizes and throughputs are, and that their numbers fit their units.
use tx_queue.Base.{
  ℕ, zero, suc, ◌+◌, ◌*◌, ◌^◌, ◌≤◌, ◌<◌, ◌≡◌, refl, ap, inl, inr, ◌⊎◌, arith, dec_lt, leb,
  get_elem?, Bool-cases,
}
use tx_queue.Double.{Double, of_u64}
use tx_queue.Double.Laws.{round_half_even_near, of_u64_near}
use tx_queue.Format.{sizes, hundredths_of, shrink, format_size}

-- Two numbers are no more than `far` apart.
abbrev pub Within : (far a b : ℕ) → Type 0
Within far a b = (a ≤ b + far) × (b ≤ a + far)

-- What is printed with two decimals is at most half a hundredth away.
pub hundredths_near :
    (x : Double) → 0 < x.den → Within x.den (2 * (hundredths_of x * x.den)) (200 * x.num)
hundredths_near x some_den =
    let (low, high) = round_half_even_near (100 * x.num) x.den some_den in
    (omega (arith, high), omega (arith, low))

-- One turn of the loop, or its end.
shrink_turn :
    (P : ℕ × Double → Type 0) (turns i num den : ℕ)
    → (num < 1024 * den → P (i, record { num = num; den = den }))
    → (1024 * den ≤ num → P (shrink turns (i + 1) (record { num = num; den = 1024 * den })))
    → P (shrink (suc turns) i (record { num = num; den = den }))
unfolding shrink
shrink_turn P turns i num den ends goes_on = elim (Bool-cases (leb (1024 * den) num)) [
  | inl large ↦ rw large (goes_on (ground arith))
  | inr small ↦ rw small (ends (ground arith))
]

-- Where the loop ends: the number is one of the unit's.
abbrev Ends : (num : ℕ) → ℕ × Double → Type 0
Ends num (i, x) =
    (i ≤ 6)
    × (x.num ≡ num)
    × (x.den ≡ 1024 ^ i)
    × (num < 1024 * 1024 ^ i)
    × ((i ≡ 0) ⊎ (1024 ^ i ≤ num))

shrink-Ends : (num : ℕ) → num < 1024 ^ 7 → Ends num (shrink 8 0 (record { num = num; den = 1 }))
shrink-Ends num small =
    shrink_turn (Ends num) 7 0 num 1 (λ lt. (omega arith, refl, refl, omega arith, inl refl))
      (λ ge0.
        shrink_turn (Ends num) 6 1 num 1024
          (λ lt. (omega arith, refl, refl, omega arith, inr (omega arith)))
          (λ ge1.
            shrink_turn (Ends num) 5 2 num (1024 ^ 2)
              (λ lt. (omega arith, refl, refl, omega arith, inr (omega arith)))
              (λ ge2.
                shrink_turn (Ends num) 4 3 num (1024 ^ 3)
                  (λ lt. (omega arith, refl, refl, omega arith, inr (omega arith)))
                  (λ ge3.
                    shrink_turn (Ends num) 3 4 num (1024 ^ 4)
                      (λ lt. (omega arith, refl, refl, omega arith, inr (omega arith)))
                      (λ ge4.
                        shrink_turn (Ends num) 2 5 num (1024 ^ 5)
                          (λ lt. (omega arith, refl, refl, omega arith, inr (omega arith)))
                          (λ ge5.
                            shrink_turn (Ends num) 1 6 num (1024 ^ 6)
                              (λ lt. (omega arith, refl, refl, omega arith, inr (omega arith)))
                              (λ ge6. absurd (omega arith))))))))

Ends-of_u64 : (n : ℕ) → n < 2 ^ 64 → Ends (of_u64 n).num (shrink 8 0 (of_u64 n))
unfolding of_u64
Ends-of_u64 n small = shrink-Ends (of_u64 n).num (omega (arith, (of_u64_near n small).2))

pub pow_pos : (i : ℕ) → 0 < 1024 ^ i
pow_pos zero = omega arith
pow_pos (suc i) = omega (arith, pow_pos i)

pub at_most : (h d num : ℕ) → 2 * (h * d) ≤ 200 * num + d → num < 1024 * d → h ≤ 102400
at_most h d num near less = elim (dec_lt 102400 h) [
  | no p ↦ omega (arith, p)
  | yes more ↦
      let e : 102401 * d ≤ h * d = times 102401 h d (omega arith) in
      absurd (omega (arith, e, near, less))
]
  where
    times : (a b d : ℕ) → a ≤ b → a * d ≤ b * d
    times a b d le = grind arith

pub at_least : (h d num : ℕ) → 0 < d → 200 * num ≤ 2 * (h * d) + d → d ≤ num → 100 ≤ h
at_least h d num some_den near more = elim (dec_lt h 100) [
  | no p ↦ omega (arith, p)
  | yes less ↦
      let e : h * d ≤ 99 * d = times h 99 d (omega arith) in
      absurd (omega (arith, e, near, more, some_den))
]
  where
    times : (a b d : ℕ) → a ≤ b → a * d ≤ b * d
    times a b d le = grind arith

-- A size of 64 bits is printed with a name of the table, at a place up to that of the exbibytes. The
-- number is the size in this unit to within half a hundredth, and from 2 ^ 53 on to within 1024 bytes
-- more; it is not above 1024.00, and not below 1.00 but in bytes.
pub format_size_near :
    (n : ℕ)
    → n < 2 ^ 64
    → (i : ℕ) × (i ≤ 6)
      × ((format_size n).name ≡ get_elem? sizes i)
      × Within (1024 ^ i + 204800) (2 * ((format_size n).hundredths * 1024 ^ i)) (200 * n)
      × (n < 2 ^ 53 → Within (1024 ^ i) (2 * ((format_size n).hundredths * 1024 ^ i)) (200 * n))
      × ((format_size n).hundredths ≤ 102400)
      × ((i ≡ 0) ⊎ (100 ≤ (format_size n).hundredths))
unfolding format_size
format_size_near n small = (
  i,
  up_to,
  refl,
  (omega (arith, high', above), omega (arith, low', under)),
  λ whole. (omega (arith, high', exact whole), omega (arith, low', exact whole)),
  at_most h (1024 ^ i) num high' less,
  elim either [
    | inl first ↦ inl first
    | inr more ↦ inr (at_least h (1024 ^ i) num (pow_pos i) low' more)
  ],
)
  where
    num : ℕ
    num = (of_u64 n).num

    exact : n < 2 ^ 53 → num ≡ n
    exact = (of_u64_near n small).1

    above : num ≤ n + 1024
    above = (of_u64_near n small).2

    under : n ≤ num + 1024
    under = (of_u64_near n small).3

    ended : ℕ × Double
    ended = shrink 8 0 (of_u64 n)

    i : ℕ
    i = ended.0

    ends : Ends num ended
    ends = Ends-of_u64 n small

    up_to : i ≤ 6
    up_to = ends.0

    less : num < 1024 * 1024 ^ i
    less = ends.3

    either : (i ≡ 0) ⊎ (1024 ^ i ≤ num)
    either = ends.4

    h : ℕ
    h = hundredths_of ended.1

    den_pos : 0 < ended.1.den
    den_pos = omega (arith, ends.2, pow_pos i)

    same : h * ended.1.den ≡ h * 1024 ^ i
    same = ap (λ d. h * d) ends.2

    near : Within ended.1.den (2 * (h * ended.1.den)) (200 * ended.1.num)
    near = hundredths_near ended.1 den_pos

    low' : 200 * num ≤ 2 * (h * 1024 ^ i) + 1024 ^ i
    low' = omega (arith, near, same, ends)

    high' : 2 * (h * 1024 ^ i) ≤ 200 * num + 1024 ^ i
    high' = omega (arith, near, same, ends)
