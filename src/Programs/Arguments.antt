-- ===== src/Programs/Arguments.antt =====
-- The arguments of the test programs.
use tx_queue.Base.{
  ℕ, zero, suc, ◌∙◌, ◌+◌, ◌-◌, ◌*◌, ◌^◌, ◌≤◌, ◌<◌, ◌≡◌, refl, ap, List, [], ◌∷◌, ◌++◌, arith, min,
  true, false, ◌&&◌, ◌||◌, ltb, leb, ◌==◌,
}
use tx_queue.Jobs.Hashes.{Verification}
use tx_queue.Programs.{
  Text, dash_t, dash_v, digits_from, unsigned_atoi, chosen, transmision, launch,
}

abbrev pub AllDigits : List ℕ → Type 0
AllDigits [] = Unit
AllDigits (d ∷ ds) = (d < 10) × AllDigits ds

-- The number that decimal digits say, behind those that say `acc`, and the digits as characters.
abbrev pub decimal : (acc : ℕ) → List ℕ → ℕ
decimal acc [] = acc
decimal acc (d ∷ ds) = decimal (10 * acc + d) ds

abbrev pub printed : List ℕ → Text
printed [] = []
printed (d ∷ ds) = (48 + d) ∷ printed ds

decimal_grows : (acc : ℕ) (ds : List ℕ) → acc ≤ decimal acc ds
decimal_grows acc [] = omega arith
decimal_grows acc (d ∷ ds) = omega (arith, decimal_grows (10 * acc + d) ds)

digits_from-printed :
    (acc : ℕ) (ds : List ℕ)
    → AllDigits ds
    → decimal acc ds < 2 ^ 31
    → digits_from (2 ^ 31 - 1) acc (printed ds) ≡ decimal acc ds
digits_from-printed acc [] all small = refl
digits_from-printed acc (d ∷ ds) all small =
    let next : min (2 ^ 31 - 1) (10 * acc + (48 + d - 48)) ≡ 10 * acc + d =
      omega (arith, decimal_grows (10 * acc + d) ds) in
    let digit : (leb 48 (48 + d) && ltb (48 + d) 58) ≡ true = ground (arith, all.0) in
    rw (digit, next) (digits_from-printed (10 * acc + d) ds all.1 small)

unsigned_atoi-printed :
    (ds : List ℕ) → AllDigits ds → decimal 0 ds < 2 ^ 31 → unsigned_atoi (printed ds) ≡ decimal 0 ds
unsigned_atoi-printed [] all small = refl
unsigned_atoi-printed (d ∷ ds) all small =
    let no_space : ((48 + d == 32) || (leb 9 (48 + d) && ltb (48 + d) 14)) ≡ false =
      ground (arith, all.0) in
    let no_minus : (48 + d == 45) ≡ false = ground (arith, all.0) in
    let no_plus : (48 + d == 43) ≡ false = ground (arith, all.0) in
    rw (no_space, no_minus, no_plus) (digits_from-printed 0 (d ∷ ds) all small)

-- What the number behind "-v:" says.
abbrev pub said_by : ℕ → Verification
said_by (suc zero) = Verification.checksum
said_by (suc (suc zero)) = Verification.sha256
said_by _ = Verification.unverified

chosen-said_by : (n : ℕ) → chosen n ≡ said_by n
chosen-said_by zero = refl
chosen-said_by (suc zero) = refl
chosen-said_by (suc (suc zero)) = refl
chosen-said_by (suc (suc (suc n))) = ground arith

-- With the arguments "-t" and "-v:" in front of decimal digits of a number below 2 ^ 31, and any
-- more behind, a test program runs the transmission with the verification that the number stands
-- for: 1 the checksum, 2 SHA-256, any other none.
pub launch_verification :
    (name : Text) (ds : List ℕ) (more : List Text)
    → AllDigits ds
    → decimal 0 ds < 2 ^ 31
    → launch (name ∷ dash_t ∷ (dash_v ++ printed ds) ∷ more) ≡ transmision (said_by (decimal 0 ds))
unfolding launch
launch_verification name ds more all small =
    ap (λ n. transmision (chosen n)) (unsigned_atoi-printed ds all small)
    ∙ ap transmision (chosen-said_by (decimal 0 ds))
