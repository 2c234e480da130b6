-- ===== src/Hex/Laws.antt =====
-- A printed digest can be read back, so that two of them are printed alike only if they are equal.
use native.Mathlib.Nat.{pow-succ'}
use tx_queue.Base.{
  ℕ, zero, suc, ◌+◌, ◌-◌, ◌*◌, ◌/◌, ◌%◌, ◌^◌, ◌≤◌, ◌<◌, ◌≡◌, refl, sym, ap, ap₂, ◌∙◌, ◌↔◌, true,
  List, [], ◌∷◌, ◌++◌, arith, ltb, if◌then◌else◌, length, length-append, length-replicate,
  append_inj, append-nil, replicate, dec_lt, lt→ltb, le→ltb,
}
use tx_queue.Checksum
use tx_queue.Sha256
use tx_queue.Hex.{hex_digit, hex_from, print_hex, fill_zeros, checksum_to_string, sha256_to_string}

abbrev pub digit_value : ℕ → ℕ
digit_value c = if ltb c 58 then c - 48 else c - 87

-- What the digits say, behind those that say `acc`.
abbrev pub value_from : (acc : ℕ) → List ℕ → ℕ
value_from acc [] = acc
value_from acc (c ∷ text) = value_from (16 * acc + digit_value c) text

value_from-append :
    (acc : ℕ) (xs ys : List ℕ) → value_from acc (xs ++ ys) ≡ value_from (value_from acc xs) ys
value_from-append acc [] ys = refl
value_from-append acc (x ∷ xs) ys = value_from-append (16 * acc + digit_value x) xs ys

digit_value-hex_digit : (d : ℕ) → d < 16 → digit_value (hex_digit d) ≡ d
digit_value-hex_digit d small = ground arith

value_from-hex_from : (fuel x : ℕ) → x < 16 ^ suc fuel → value_from 0 (hex_from fuel x) ≡ x
value_from-hex_from zero x small = omega (arith, digit_value-hex_digit (x % 16) (omega arith))
value_from-hex_from (suc fuel) x small = elim (dec_lt x 16) [
  | yes one ↦ rw (lt→ltb x 16 one) (omega (arith, digit_value-hex_digit x one))
  | no more ↦ rw (le→ltb x 16 (omega arith)) (
      value_from-append 0 (hex_from fuel (x / 16)) (hex_digit (x % 16) ∷ [])
      ∙ omega (
        arith,
        value_from-hex_from fuel (x / 16) (omega (arith, pow-succ' 16 (suc fuel))),
        digit_value-hex_digit (x % 16) (omega arith),
      ))
]

length-hex_from : (fuel x : ℕ) → length (hex_from fuel x) ≤ suc fuel
length-hex_from zero x = omega arith
length-hex_from (suc fuel) x = elim (dec_lt x 16) [
  | yes one ↦ rw (lt→ltb x 16 one) (omega arith)
  | no more ↦ rw (le→ltb x 16 (omega arith)) (
      omega (
        arith,
        length-append (hex_from fuel (x / 16)) (hex_digit (x % 16) ∷ []),
        length-hex_from fuel (x / 16),
      ))
]

value_from_zeros :
    (n : ℕ) (text : List ℕ) → value_from 0 (replicate n 48 ++ text) ≡ value_from 0 text
value_from_zeros zero text = refl
value_from_zeros (suc n) text = value_from_zeros n text

module _ (x : ℕ) where
  value_from-print_hex : x < 2 ^ 64 → value_from 0 (print_hex x) ≡ x
  unfolding print_hex
  value_from-print_hex small = value_from-hex_from 15 x small

  value_from-fill_zeros : x < 2 ^ 64 → value_from 0 (fill_zeros 16 (print_hex x)) ≡ x
  unfolding fill_zeros
  value_from-fill_zeros small =
      value_from_zeros (16 - length (print_hex x)) (print_hex x) ∙ value_from-print_hex small

  length-fill_zeros : length (fill_zeros 16 (print_hex x)) ≡ 16
  unfolding fill_zeros print_hex
  length-fill_zeros = omega (
    arith,
    length-append (replicate (16 - length (hex_from 15 x)) 48) (hex_from 15 x),
    length-replicate {A = ℕ} (16 - length (hex_from 15 x)) 48,
    length-hex_from 15 x,
  )

-- A digest of the checksum is printed in digits that say its value.
pub checksum_to_string_value :
    (digest : Checksum.Digest)
    → digest.checksum < 2 ^ 32
    → value_from 0 (checksum_to_string digest) ≡ digest.checksum
unfolding checksum_to_string
checksum_to_string_value digest small = value_from-print_hex digest.checksum (omega arith)

pub record Fits (digest : Sha256.Digest) : Type 0 where
  pub a_fits : digest.a < 2 ^ 64
  pub b_fits : digest.b < 2 ^ 64
  pub c_fits : digest.c < 2 ^ 64
  pub d_fits : digest.d < 2 ^ 64

same_field :
    (x y : ℕ) (xs ys : List ℕ)
    → x < 2 ^ 64
    → y < 2 ^ 64
    → fill_zeros 16 (print_hex x) ++ xs ≡ fill_zeros 16 (print_hex y) ++ ys
    → (x ≡ y) × (xs ≡ ys)
same_field x y xs ys fits fits' e =
    let (same, rest) =
      append_inj (fill_zeros 16 (print_hex x)) xs (fill_zeros 16 (print_hex y)) ys
        (length-fill_zeros x ∙ sym (length-fill_zeros y)) e in
    (
      sym (value_from-fill_zeros x fits) ∙ ap (value_from 0) same ∙ value_from-fill_zeros y fits',
      rest,
    )

-- Two digests of SHA-256, of four words of 64 bits each, are printed alike exactly when the operator
-- `==` finds them equal; each print is of 64 characters.
pub sha256_to_string_same :
    (x y : Sha256.Digest)
    → Fits x
    → Fits y
    → ((sha256_to_string x ≡ sha256_to_string y) ↔ (Sha256.same_digest x y ≡ true))
      × (length (sha256_to_string x) ≡ 64)
unfolding sha256_to_string Sha256.same_digest
sha256_to_string_same x y fits fits' = (
  (
    λ e.
        let (a, more) = same_field x.a y.a _ _ fits.a_fits fits'.a_fits e in
        let (b, more') = same_field x.b y.b _ _ fits.b_fits fits'.b_fits more in
        let (c, more'') = same_field x.c y.c _ _ fits.c_fits fits'.c_fits more' in
        let (d, _) = same_field x.d y.d [] [] fits.d_fits fits'.d_fits (
          append-nil (fill_zeros 16 (print_hex x.d))
          ∙ more''
          ∙ sym (append-nil (fill_zeros 16 (print_hex y.d)))) in
        ground (arith, a, b, c, d),
    λ e.
        let (a, b, c, d) : (x.a ≡ y.a) × (x.b ≡ y.b) × (x.c ≡ y.c) × (x.d ≡ y.d) =
          ground (arith, e) in
        ap₂ ◌++◌ (ap field a) (ap₂ ◌++◌ (ap field b) (ap₂ ◌++◌ (ap field c) (ap field d))),
  ),
  omega (
    arith,
    length-fill_zeros x.a,
    length-fill_zeros x.b,
    length-fill_zeros x.c,
    length-fill_zeros x.d,
    length-append (field x.a) (field x.b ++ (field x.c ++ field x.d)),
    length-append (field x.b) (field x.c ++ field x.d),
    length-append (field x.c) (field x.d),
  ),
)
  where
    field : ℕ → List ℕ
    field n = fill_zeros 16 (print_hex n)
