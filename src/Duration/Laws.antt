-- ===== src/Duration/Laws.antt =====
-- What `format_duration` writes, read back.
use tx_queue.Base.{
  ℕ, ◌+◌, ◌*◌, ◌/◌, ◌%◌, ◌<◌, ◌≡◌, refl, Bool, true, false, List, [], ◌∷◌, ◌++◌, pos, arith, ltb,
  lt→ltb, le→ltb,
}
use tx_queue.Duration.{
  Word, Piece, Output, day, hour, minute, second, ms, us, ns, blank, no_time, number, text,
  nanoseconds, count, count_days, plural_if, separator, add_days, add_counted, add_short, add_ns,
  add_no_time, format_duration,
}

-- What a reader adds up: each number times the unit behind it. `n` is the number just read.
abbrev pub meaning : (n : ℕ) → List Piece → ℕ
meaning n [] = 0
meaning n (number m ∷ out) = meaning m out
meaning n (text w ∷ out) = n * nanoseconds w + meaning 0 out

meaning-append_separator :
    (added : Bool) (n : ℕ) (xs ys : List Piece)
    → meaning n (xs ++ separator added ∷ ys) ≡ meaning n xs + meaning 0 ys
unfolding separator
meaning-append_separator true n [] ys = omega arith
meaning-append_separator false n [] ys = omega arith
meaning-append_separator added n (number m ∷ xs) ys = meaning-append_separator added m xs ys
meaning-append_separator added n (text w ∷ xs) ys =
    omega (arith, meaning-append_separator added 0 xs ys)

meaning-plural_if : (val : ℕ) → meaning 0 (plural_if val) ≡ 0
unfolding plural_if
meaning-plural_if val = ground arith

add_days-meaning :
    (val : ℕ)
    → meaning 0 (add_days val (record { result = []; added = false })).result
      ≡ val * nanoseconds day
unfolding add_days
add_days-meaning val = ground (arith, meaning-plural_if val)

add_counted-meaning :
    (unit : Word) (val : ℕ) (out : Output)
    → meaning 0 (add_counted unit val out).result ≡ meaning 0 out.result + val * nanoseconds unit
unfolding add_counted
add_counted-meaning unit val out = ground (
  arith,
  meaning-append_separator out.added 0 out.result (number val ∷ text unit ∷ plural_if val),
  meaning-plural_if val,
)

add_short-meaning :
    (unit : Word) (val : ℕ) (out : Output)
    → meaning 0 (add_short unit val out).result ≡ meaning 0 out.result + val * nanoseconds unit
unfolding add_short
add_short-meaning unit val out =
    ground (arith, meaning-append_separator out.added 0 out.result (number val ∷ text unit ∷ []))

add_ns-meaning :
    (val : ℕ) (out : Output) → meaning 0 (add_ns val out).result ≡ meaning 0 out.result + val
unfolding add_ns
add_ns-meaning val out =
    ground (arith, meaning-append_separator out.added 0 out.result (number val ∷ text ns ∷ []))

meaning-append_no_time :
    (n : ℕ) (xs : List Piece) → meaning n (xs ++ text no_time ∷ []) ≡ meaning n xs
meaning-append_no_time n [] = omega arith
meaning-append_no_time n (number m ∷ xs) = meaning-append_no_time m xs
meaning-append_no_time n (text w ∷ xs) = omega (arith, meaning-append_no_time 0 xs)

add_no_time-meaning : (out : Output) → meaning 0 (add_no_time out) ≡ meaning 0 out.result
unfolding add_no_time
add_no_time-meaning out = ground (arith, meaning-append_no_time 0 out.result)

-- What is written of a duration of `n` nanoseconds, not negative, adds up to it: no part is lost and none is
-- counted twice, whatever is singular or plural and wherever a comma stands.
pub format_duration-meaning : (n : ℕ) → meaning 0 (format_duration (pos n)) ≡ n
unfolding format_duration count count_days
format_duration-meaning n = omega (
  arith,
  add_no_time-meaning (add_ns (n % 1000 / 1) o6),
  add_ns-meaning (n % 1000 / 1) o6,
  add_short-meaning us (n % 1000000 / 1000) o5,
  add_short-meaning ms (n % 1000000000 / 1000000) o4,
  add_counted-meaning second (n % 60000000000 / 1000000000) o3,
  add_counted-meaning minute (n % 3600000000000 / 60000000000) o2,
  add_counted-meaning hour (n % 86400000000000 / 3600000000000) o1,
  add_days-meaning (n / 86400000000000),
)
  where
    o1 : Output
    o1 = add_days (n / 86400000000000) (record { result = []; added = false })

    o2 : Output
    o2 = add_counted hour (n % 86400000000000 / 3600000000000) o1

    o3 : Output
    o3 = add_counted minute (n % 3600000000000 / 60000000000) o2

    o4 : Output
    o4 = add_counted second (n % 60000000000 / 1000000000) o3

    o5 : Output
    o5 = add_short ms (n % 1000000000 / 1000000) o4

    o6 : Output
    o6 = add_short us (n % 1000000 / 1000) o5

-- Of a duration below a microsecond, and not 0, the nanoseconds are written and then, behind them,
-- the text for no time.
pub format_duration_below_us :
    (n : ℕ)
    → 0 < n
    → n < 1000
    → format_duration (pos n) ≡ text blank ∷ number n ∷ text ns ∷ text no_time ∷ []
unfolding format_duration count count_days add_days add_counted add_short add_ns add_no_time
    separator
format_duration_below_us n some small =
    let d : ltb 0 (n / 86400000000000) ≡ false = le→ltb 0 (n / 86400000000000) (omega arith) in
    let h : ltb 0 (n % 86400000000000 / 3600000000000) ≡ false =
      le→ltb 0 (n % 86400000000000 / 3600000000000) (omega arith) in
    let m : ltb 0 (n % 3600000000000 / 60000000000) ≡ false =
      le→ltb 0 (n % 3600000000000 / 60000000000) (omega arith) in
    let s : ltb 0 (n % 60000000000 / 1000000000) ≡ false =
      le→ltb 0 (n % 60000000000 / 1000000000) (omega arith) in
    let milli : ltb 0 (n % 1000000000 / 1000000) ≡ false =
      le→ltb 0 (n % 1000000000 / 1000000) (omega arith) in
    let micro : ltb 0 (n % 1000000 / 1000) ≡ false = le→ltb 0 (n % 1000000 / 1000) (omega arith) in
    let nano : n % 1000 / 1 ≡ n = omega arith in
    let there : ltb 0 n ≡ true = lt→ltb 0 n some in rw (d, h, m, s, milli, micro, nano, there) refl
