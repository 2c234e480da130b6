-- ===== src/Double/Chains.antt =====
-- Bounds on fractions, one through the other.
use tx_queue.Base.{ℕ, ◌+◌, ◌*◌, ◌≤◌, ◌<◌, ◌≡◌, arith, dec_lt}

pub mul_le_mul : (a b c d : ℕ) → a ≤ b → c ≤ d → a * c ≤ b * d
mul_le_mul a b c d h k =
    let e : a * c ≤ b * c = grind arith in
    let e' : b * c ≤ b * d = grind arith in omega (arith, e, e')

pub le_of_mul : (a b k : ℕ) → 0 < k → a * k ≤ b * k → a ≤ b
le_of_mul a b k some_k h = elim (dec_lt b a) [
  | no p ↦ omega (arith, p)
  | yes p ↦
      let e : (b + 1) * k ≤ a * k = mul_le_mul (b + 1) a k k (omega (arith, p)) (omega arith) in
      let e' : (b + 1) * k ≡ b * k + k = grind arith in absurd (omega (arith, e, e', h, some_k))
]

-- Two bounds on fractions, one through the other.
pub chain :
    (lo m hi n sd sn g tn b td : ℕ)
    → 0 < m * sn * sd
    → lo * (n * sd) ≤ m * (sn * g)
    → m * (tn * sn) ≤ hi * (b * sd * td)
    → lo * (tn * n) ≤ hi * (b * g * td)
chain lo m hi n sd sn g tn b td some_k h k =
    let both = mul_le_mul (lo * (n * sd)) (m * (sn * g)) (m * (tn * sn)) (hi * (b * sd * td)) h k in
    let left : lo * (n * sd) * (m * (tn * sn)) ≡ lo * (tn * n) * (m * sn * sd) = grind arith in
    let right : m * (sn * g) * (hi * (b * sd * td)) ≡ hi * (b * g * td) * (m * sn * sd) =
      grind arith in
    le_of_mul (lo * (tn * n)) (hi * (b * g * td)) (m * sn * sd) some_k
      (omega (arith, both, left, right))

pub chain_back :
    (lo m hi n sd sn g tn b td : ℕ)
    → 0 < m * sn * sd
    → lo * (b * sd * td) ≤ m * (tn * sn)
    → m * (sn * g) ≤ hi * (n * sd)
    → lo * (b * g * td) ≤ hi * (tn * n)
chain_back lo m hi n sd sn g tn b td some_k h k =
    let both = mul_le_mul (lo * (b * sd * td)) (m * (tn * sn)) (m * (sn * g)) (hi * (n * sd)) h k in
    let left : lo * (b * sd * td) * (m * (sn * g)) ≡ lo * (b * g * td) * (m * sn * sd) =
      grind arith in
    let right : m * (tn * sn) * (hi * (n * sd)) ≡ hi * (tn * n) * (m * sn * sd) = grind arith in
    le_of_mul (lo * (b * g * td)) (hi * (tn * n)) (m * sn * sd) some_k
      (omega (arith, both, left, right))
