-- ===== src/Tests/FormatTests.antt =====
-- Sizes and throughputs that are printed, and waits for a key.
use tx_queue.Base.{
  ℕ, ◌+◌, ◌*◌, ◌-◌, ◌^◌, ◌≤◌, ◌<◌, ◌≡◌, refl, ◌⊎◌, ◌↔◌, true, false, List, [], ◌∷◌, ◌++◌, some,
  arith, pos, minus_one, get_elem?,
}
use tx_queue.Double.{round_half_even, spacing, of_u64, raise, lower, quotient, divide}
use tx_queue.Format.{
  SizeName, kibibytes, exbibytes, mebibytes, bytes, sizes, shrink, format_size, infinite, rate,
  in_unit, throughput_of, format_throughput,
}
use tx_queue.Format.Laws.{Within, format_size_near}
use tx_queue.Format.Rates.{format_throughput_near}
use tx_queue.Keyboard.{is_down, wait_down, wait_up, wait_until_key_release}
use tx_queue.Keyboard.Laws.{AllAre, wait_until_key_release_iff}

-- The size of the queue.
queue_size_printed : format_size 16384 ≡ record { hundredths = 1600; name = some kibibytes }
unfolding format_size shrink of_u64 spacing round_half_even
queue_size_printed = refl

-- Just below a mebibyte 1024.00 kibibytes are printed.
below_a_mebibyte : format_size 1048575 ≡ record { hundredths = 102400; name = some kibibytes }
unfolding format_size shrink of_u64 spacing round_half_even
below_a_mebibyte = refl

greatest_size : format_size (2 ^ 64 - 1) ≡ record { hundredths = 1600; name = some exbibytes }
unfolding format_size shrink of_u64 spacing round_half_even
greatest_size = refl

-- A mebibyte and a half in a second; 5 bytes in 2 ^ 40 ns; no time; a time below 0.
some_rates :
    (format_throughput 1572864 (pos 1000000000) ≡ rate false 150 mebibytes)
    × (format_throughput 5 (pos (2 ^ 40)) ≡ rate false 0 bytes)
    × (format_throughput 5 (pos 0) ≡ infinite)
    × (format_throughput 5 minus_one ≡ rate true 500000000000 bytes)
unfolding format_throughput in_unit throughput_of divide quotient raise lower of_u64 spacing
    round_half_even
some_rates = (refl, refl, refl, refl)

key_pressed : wait_until_key_release (0 ∷ 1 ∷ 32768 ∷ 32769 ∷ 0 ∷ 32768 ∷ []) ≡ some (32768 ∷ [])
unfolding wait_until_key_release wait_down wait_up
key_pressed = refl

format_size_near_example :
    (i : ℕ) × (i ≤ 6)
    × ((format_size 16385).name ≡ get_elem? sizes i)
    × Within (1024 ^ i + 204800) (2 * ((format_size 16385).hundredths * 1024 ^ i)) 3277000
    × (16385 < 2 ^ 53 → Within (1024 ^ i) (2 * ((format_size 16385).hundredths * 1024 ^ i)) 3277000)
    × ((format_size 16385).hundredths ≤ 102400)
    × ((i ≡ 0) ⊎ (100 ≤ (format_size 16385).hundredths))
format_size_near_example = format_size_near 16385 (omega arith)

format_throughput_near_example :
    (u : ℕ) × (h : ℕ) × (name : SizeName) × (u ≤ 4)
    × (get_elem? sizes u ≡ some name)
    × (format_throughput 1000 (pos 3) ≡ rate false h name)
    × ((2 ^ 53 - 1) * (2 * (h * 1024 ^ u * 3))
        ≤ (2 ^ 53 + 1) * (200 * (1000 * 1000000000)) + (2 ^ 53 - 1) * (1024 ^ u * 3))
    × ((2 ^ 53 - 1) * (200 * (1000 * 1000000000))
        ≤ (2 ^ 53 + 1) * (2 * (h * 1024 ^ u * 3) + 1024 ^ u * 3))
    × ((u ≡ 0) ⊎ (100 ≤ h))
    × (u < 4 → h ≤ 102400)
format_throughput_near_example =
    format_throughput_near 1000 3 (omega arith) (omega arith) (omega arith) (omega arith)

wait_until_key_release_iff_example : (wait_until_key_release (1 ∷ 32768 ∷ 0 ∷ []) ≡ some []) ↔ (
    (ups : List ℕ) × (down : ℕ) × (downs : List ℕ) × (up : ℕ) × (1 ∷ 32768 ∷ 0 ∷ []
      ≡ ups ++ (down ∷ (downs ++ (up ∷ []))))
    × AllAre false ups
    × (is_down down ≡ true)
    × AllAre true downs
    × (is_down up ≡ false))
wait_until_key_release_iff_example = wait_until_key_release_iff (1 ∷ 32768 ∷ 0 ∷ []) []
