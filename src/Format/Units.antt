-- ===== src/Format/Units.antt =====
-- The unit that a throughput is printed in.
use tx_queue.Base.{
  ℕ, ◌*◌, ◌^◌, ◌≤◌, ◌<◌, ◌≡◌, refl, subst, false, inl, inr, ◌⊎◌, arith, Bool-cases, get_elem?, some,
}
use tx_queue.Double.{Double, round_half_even, scaled}
use tx_queue.Double.Laws.{product_pos}
use tx_queue.Format.Laws.{Within, hundredths_near, pow_pos}
use tx_queue.Format.{
  SizeName, bytes, kibibytes, mebibytes, gibibytes, tebibytes, sizes, hundredths_of, Throughput,
  rate, below, in_unit,
}

-- A throughput that is printed in the unit at place `u` of the table.
pub record InUnit (t : Double) (r : Throughput) : Type 0 where
  pub u : ℕ
  pub h : ℕ
  pub name : SizeName
  pub up_to : u ≤ 4
  pub named : get_elem? sizes u ≡ some name
  pub printed : r ≡ rate false h name
  pub near : Within (1024 ^ u * t.den) (2 * (h * (1024 ^ u * t.den))) (200 * t.num)
  pub less : u < 4 → t.num < 1024 * (1024 ^ u * t.den)
  pub more : (u ≡ 0) ⊎ (1024 ^ u * t.den ≤ t.num)

-- The number in a unit that it is not too small and not too great for.
at_unit :
    (t : Double) (u : ℕ) (name : SizeName)
    → 0 < t.den
    → u ≤ 4
    → get_elem? sizes u ≡ some name
    → (u < 4 → t.num < 1024 * (1024 ^ u * t.den))
    → (u ≡ 0) ⊎ (1024 ^ u * t.den ≤ t.num)
    → InUnit t (rate false (hundredths_of (scaled (1024 ^ u) t)) name)
at_unit t u name some_den up_to named less more = record {
  u = u;
  h = hundredths_of (scaled (1024 ^ u) t);
  name = name;
  up_to = up_to;
  named = named;
  printed = refl;
  near = hundredths_near (scaled (1024 ^ u) t) (product_pos (1024 ^ u) t.den (pow_pos u) some_den);
  less = less;
  more = more;
}

pub in_unit-InUnit : (t : Double) → 0 < t.den → InUnit t (in_unit t)
unfolding in_unit
in_unit-InUnit t some_den = elim (Bool-cases (below 1024 t)) [
  | inl b ↦
      let one : 1024 ^ 0 * t.den ≡ t.den = omega arith in
      rw b (
        subst (λ d. InUnit t (rate false (round_half_even (100 * t.num) d) bytes)) one
          (at_unit t 0 bytes some_den (omega arith) refl (λ _. ground arith) (inl refl)))
  | inr a1 ↦ rw a1 (elim (Bool-cases (below (1024 ^ 2) t)) [
    | inl b ↦
        rw b (
          at_unit t 1 kibibytes some_den (omega arith) refl (λ _. ground arith)
            (inr (ground arith)))
    | inr a2 ↦ rw a2 (elim (Bool-cases (below (1024 ^ 3) t)) [
      | inl b ↦ rw b (
          at_unit t 2 mebibytes some_den (omega arith) refl (λ _. ground arith)
            (inr (ground arith)))
      | inr a3 ↦ rw a3 (elim (Bool-cases (below (1024 ^ 4) t)) [
        | inl b ↦ rw b (
            at_unit t 3 gibibytes some_den (omega arith) refl (λ _. ground arith)
              (inr (ground arith)))
        | inr a4 ↦ rw a4 (
            at_unit t 4 tebibytes some_den (omega arith) refl (λ h. absurd (omega (arith, h)))
              (inr (ground arith)))
      ])
    ])
  ])
]
