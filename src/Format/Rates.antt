-- ===== src/Format/Rates.antt =====
-- How near a printed throughput is to the bytes by the time.
use tx_queue.Base.{
  ℕ, zero, suc, ◌+◌, ◌-◌, ◌*◌, ◌^◌, ◌≤◌, ◌<◌, ◌≡◌, sym, ap, ◌∙◌, subst, false, inl, inr, ◌⊎◌, arith,
  pos, get_elem?, some,
}
use tx_queue.Double.{Double, of_u64, quotient, divide}
use tx_queue.Double.Laws.{IsNear, quotient-IsNear, of_u64_near, product_pos}
use tx_queue.Format.Laws.{at_most, at_least, pow_pos}
use tx_queue.Format.{SizeName, sizes, rate, throughput_of, format_throughput}
use tx_queue.Double.Chains.{mul_le_mul, le_of_mul, chain, chain_back}
use tx_queue.Format.Units.{in_unit-InUnit}

abbrev giga : ℕ
giga = 1000000000

-- The throughput is that of `n` bytes in `ns` nanoseconds, to within two roundings.
record IsRate (n ns : ℕ) (t : Double) : Type 0 where
  some_den : 0 < t.den
  not_above : (2 ^ 53 - 1) * (t.num * ns) ≤ (2 ^ 53 + 1) * (n * giga * t.den)
  not_below : (2 ^ 53 - 1) * (n * giga * t.den) ≤ (2 ^ 53 + 1) * (t.num * ns)

-- `(double)_ns / 1'000'000'000.0`
seconds-IsNear :
    (ns : ℕ)
    → 0 < ns
    → ns < 2 ^ 53
    → IsNear ns giga (divide (of_u64 ns) (record { num = giga; den = 1 }))
unfolding divide
seconds-IsNear ns some_time fits =
    let whole = (of_u64_near ns (omega (arith, fits))).1 fits in
    let one = (of_u64_near ns (omega (arith, fits))).0 in
    let top : (of_u64 ns).num * 1 ≡ ns = omega (arith, whole) in
    let bottom : (of_u64 ns).den * giga ≡ giga = omega (arith, one) in
    rw (top, bottom) (quotient-IsNear ns giga some_time (omega arith) (omega (arith, some_time)))

throughput_of-IsRate :
    (n ns : ℕ) → 0 < n → n < 2 ^ 53 → 0 < ns → ns < 2 ^ 53 → IsRate n ns (throughput_of n ns)
unfolding throughput_of
throughput_of-IsRate n ns some_bytes n_fits some_time fits = record {
  some_den = is.den_pos;
  not_above =
      chain (2 ^ 53 - 1) (2 ^ 53) (2 ^ 53 + 1) ns s.den s.num giga t.num n t.den some_k
        sec.not_below is.not_above;
  not_below =
      chain_back (2 ^ 53 - 1) (2 ^ 53) (2 ^ 53 + 1) ns s.den s.num giga t.num n t.den some_k
        is.not_below sec.not_above;
}
  where
    s : Double
    s = divide (of_u64 ns) (record { num = giga; den = 1 })

    t : Double
    t = divide (of_u64 n) s

    sec : IsNear ns giga s
    sec = seconds-IsNear ns some_time fits

    some_k : 0 < 2 ^ 53 * s.num * s.den
    some_k =
        product_pos (2 ^ 53 * s.num) s.den (product_pos (2 ^ 53) s.num (omega arith) sec.num_pos)
          sec.den_pos

    same : t ≡ quotient (n * s.den) s.num
    same =
        let whole = (of_u64_near n (omega (arith, n_fits))).1 n_fits in
        let one = (of_u64_near n (omega (arith, n_fits))).0 in
        let bottom : (of_u64 n).den * s.num ≡ s.num = ap (λ d. d * s.num) one ∙ omega arith in
        unfold divide in
        ap (λ a. quotient (a * s.den) ((of_u64 n).den * s.num)) whole
        ∙ ap (quotient (n * s.den)) bottom

    in_range : 2 ^ 52 * s.num ≤ n * s.den * 2 ^ 128
    in_range =
        let e : ns * s.den ≤ 2 ^ 53 * s.den =
          mul_le_mul ns (2 ^ 53) s.den s.den (omega (arith, fits)) (omega arith) in
        let e' : 1 * s.den ≤ n * s.den = mul_le_mul 1 n s.den s.den some_bytes (omega arith) in
        omega (arith, e, e', sec.not_above)

    is : IsNear (n * s.den) s.num t
    is = subst (IsNear (n * s.den) s.num) (sym same) (
        quotient-IsNear (n * s.den) s.num (product_pos n s.den some_bytes sec.den_pos) sec.num_pos
          in_range)

-- The number that is printed against bytes by time: `d` is the unit by the throughput's divisor.
rate_above :
    (lo hi h u tn td n ns : ℕ)
    → 0 < td
    → 2 * (h * (u * td)) ≤ 200 * tn + u * td
    → lo * (tn * ns) ≤ hi * (n * giga * td)
    → lo * (2 * (h * u * ns)) ≤ hi * (200 * (n * giga)) + lo * (u * ns)
rate_above lo hi h u tn td n ns some_den near is =
    let k =
      mul_le_mul (2 * (h * (u * td))) (200 * tn + u * td) (lo * ns) (lo * ns) near (omega arith) in
    let left : 2 * (h * (u * td)) * (lo * ns) ≡ lo * (2 * (h * u * ns)) * td = grind arith in
    let right : (200 * tn + u * td) * (lo * ns) ≡ 200 * (lo * (tn * ns)) + lo * (u * ns) * td =
      grind arith in
    let whole : (hi * (200 * (n * giga)) + lo * (u * ns)) * td
        ≡ 200 * (hi * (n * giga * td)) + lo * (u * ns) * td =
      grind arith in
    le_of_mul (lo * (2 * (h * u * ns))) (hi * (200 * (n * giga)) + lo * (u * ns)) td some_den
      (omega (arith, k, left, right, whole, is))

rate_below :
    (lo hi h u tn td n ns : ℕ)
    → 0 < td
    → 200 * tn ≤ 2 * (h * (u * td)) + u * td
    → lo * (n * giga * td) ≤ hi * (tn * ns)
    → lo * (200 * (n * giga)) ≤ hi * (2 * (h * u * ns) + u * ns)
rate_below lo hi h u tn td n ns some_den near is =
    let k =
      mul_le_mul (200 * tn) (2 * (h * (u * td)) + u * td) (hi * ns) (hi * ns) near (omega arith) in
    let left : 200 * tn * (hi * ns) ≡ 200 * (hi * (tn * ns)) = grind arith in
    let right : (2 * (h * (u * td)) + u * td) * (hi * ns) ≡ hi * (2 * (h * u * ns) + u * ns) * td =
      grind arith in
    let whole : lo * (200 * (n * giga)) * td ≡ 200 * (lo * (n * giga * td)) = grind arith in
    le_of_mul (lo * (200 * (n * giga))) (hi * (2 * (h * u * ns) + u * ns)) td some_den
      (omega (arith, k, left, right, whole, is))

-- For at least a byte and a nanosecond, both below 2 ^ 53, the printed throughput is a number of
-- hundredths of a unit of 1024 ^ u bytes per second, u at most 4, that is the bytes by the seconds to
-- within half a hundredth and two parts in 2 ^ 53; it is at least 1.00 unless the unit is bytes per
-- second, and at most 1024.00 unless it is tebibytes per second.
pub format_throughput_near :
    (n ns : ℕ)
    → 0 < n
    → n < 2 ^ 53
    → 0 < ns
    → ns < 2 ^ 53
    → (u : ℕ) × (h : ℕ) × (name : SizeName) × (u ≤ 4)
      × (get_elem? sizes u ≡ some name)
      × (format_throughput n (pos ns) ≡ rate false h name)
      × ((2 ^ 53 - 1) * (2 * (h * 1024 ^ u * ns))
          ≤ (2 ^ 53 + 1) * (200 * (n * 1000000000)) + (2 ^ 53 - 1) * (1024 ^ u * ns))
      × ((2 ^ 53 - 1) * (200 * (n * 1000000000))
          ≤ (2 ^ 53 + 1) * (2 * (h * 1024 ^ u * ns) + 1024 ^ u * ns))
      × ((u ≡ 0) ⊎ (100 ≤ h))
      × (u < 4 → h ≤ 102400)
unfolding format_throughput
format_throughput_near n zero some_bytes n_fits some_time fits = absurd (omega arith)
format_throughput_near n (suc ns) some_bytes n_fits some_time fits =
    let t = throughput_of n (suc ns) in
    let is = throughput_of-IsRate n (suc ns) some_bytes n_fits some_time fits in
    let p = in_unit-InUnit t is.some_den in
    let d = 1024 ^ p.u * t.den in
    (
      p.u,
      p.h,
      p.name,
      p.up_to,
      p.named,
      p.printed,
      rate_above (2 ^ 53 - 1) (2 ^ 53 + 1) p.h (1024 ^ p.u) t.num t.den n (suc ns) is.some_den
          p.near.0 is.not_above,
      rate_below (2 ^ 53 - 1) (2 ^ 53 + 1) p.h (1024 ^ p.u) t.num t.den n (suc ns) is.some_den
          p.near.1 is.not_below,
      elim p.more [
        | inl first ↦ inl first
        | inr more ↦ inr (
            at_least p.h d t.num (product_pos (1024 ^ p.u) t.den (pow_pos p.u) is.some_den) p.near.1
              more)
      ],
      λ small. at_most p.h d t.num p.near.0 (p.less small),
    )
