-- ===== src/Format.antt =====
-- `format_size` and `format_throughput` of utests/common/misc.h: the number that is printed, as
-- hundredths, and the unit behind it. A number is printed with two decimals, rounded to the nearest.
pub mod Laws
pub mod Units
pub mod Rates
use tx_queue.Base.{
  ℕ, zero, suc, ◌+◌, ◌*◌, ◌^◌, Bool, true, false, List, [], ◌∷◌, Option, ltb, leb, if◌then◌else◌,
  get_elem?, ℤ, pos, negsuc,
}
use tx_queue.Double.{Double, round_half_even, of_u64, scaled, divide}

pub data SizeName : Type 0 where
  bytes : SizeName
  kibibytes : SizeName
  mebibytes : SizeName
  gibibytes : SizeName
  tebibytes : SizeName
  pebibytes : SizeName
  exbibytes : SizeName
  zebibytes : SizeName
  yobibytes : SizeName

abbrev pub sizes : List SizeName
sizes =
    bytes ∷ kibibytes ∷ mebibytes ∷ gibibytes ∷ tebibytes ∷ pebibytes ∷ exbibytes ∷ zebibytes
    ∷ yobibytes ∷ []

-- `fixed` with a precision of 2.
abbrev pub hundredths_of : Double → ℕ
hundredths_of x = round_half_even (100 * x.num) x.den

pub record Amount : Type 0 where
  pub hundredths : ℕ
  pub name : Option SizeName

-- "for (; i < 8 && num_bytes_double >= 1024.0; ++i)", with the turns that are left.
unfoldable pub shrink : (turns i : ℕ) → Double → ℕ × Double
shrink zero i x = (i, x)
shrink (suc turns) i x =
    let rest = shrink turns (i + 1) (scaled 1024 x) in
    if leb (1024 * x.den) x.num then rest else (i, x)

-- A name that is not in the table would be read behind it.
unfoldable pub format_size : ℕ → Amount
format_size n =
    let (i, x) = shrink 8 0 (of_u64 n) in
    record { hundredths = hundredths_of x; name = get_elem? sizes i }

-- "Infinite speed!", or a number with a sign and a unit per second.
pub data Throughput : Type 0 where
  infinite : Throughput
  rate : (negative : Bool) (hundredths : ℕ) → SizeName → Throughput

abbrev pub below : (limit : ℕ) → Double → Bool
below limit x = ltb x.num (limit * x.den)

unfoldable pub in_unit : Double → Throughput
in_unit throughput =
    if below 1024 throughput
    then rate false (hundredths_of throughput) bytes
    else if below (1024 ^ 2) throughput
    then rate false (hundredths_of (scaled 1024 throughput)) kibibytes
    else if below (1024 ^ 3) throughput
    then rate false (hundredths_of (scaled (1024 ^ 2) throughput)) mebibytes
    else if below (1024 ^ 4) throughput
    then rate false (hundredths_of (scaled (1024 ^ 3) throughput)) gibibytes
    else rate false (hundredths_of (scaled (1024 ^ 4) throughput)) tebibytes

-- `(double)_bytes / ((double)_ns / 1'000'000'000.0)`
unfoldable pub throughput_of : (n ns : ℕ) → Double
throughput_of n ns = divide (of_u64 n) (divide (of_u64 ns) (record { num = 1000000000; den = 1 }))

-- A throughput below 0 is below 1024.
unfoldable pub format_throughput : (n : ℕ) (ns : ℤ) → Throughput
format_throughput n (pos zero) = infinite
format_throughput n (pos (suc ns)) = in_unit (throughput_of n (suc ns))
format_throughput n (negsuc ns) = rate true (hundredths_of (throughput_of n (suc ns))) bytes
