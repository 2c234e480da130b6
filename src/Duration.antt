-- ===== src/Duration.antt =====
-- `format_duration` of utests/common/misc.h: a duration in words, as what is put into the stream.
pub mod Laws
use Prim.Native.String.{String}
use tx_queue.Base.{
  ℕ, zero, suc, ◌+◌, ◌*◌, ◌/◌, ◌%◌, Bool, true, false, not, List, [], ◌∷◌, ◌++◌, ℤ, pos, negsuc,
  ltb, if◌then◌else◌,
}

-- The texts that the function writes.
pub data Word : Type 0 where
  day : Word
  hour : Word
  minute : Word
  second : Word
  ms : Word
  us : Word
  ns : Word
  plural : Word
  comma : Word
  blank : Word
  no_time : Word

unfoldable pub spelling : Word → String
spelling day = " day"
spelling hour = " hour"
spelling minute = " minute"
spelling second = " second"
spelling ms = " ms"
spelling us = " us"
spelling ns = " ns"
spelling plural = "s"
spelling comma = ", "
spelling blank = ""
spelling no_time = "0 nanoseconds"

-- What is put into the stream: a number, which it prints in decimal, or a text.
pub data Piece : Type 0 where
  number : ℕ → Piece
  text : Word → Piece

pub record Output : Type 0 where
  pub result : List Piece
  pub added : Bool

-- Nanoseconds in a unit.
abbrev pub nanoseconds : Word → ℕ
nanoseconds day = 86400000000000
nanoseconds hour = 3600000000000
nanoseconds minute = 60000000000
nanoseconds second = 1000000000
nanoseconds ms = 1000000
nanoseconds us = 1000
nanoseconds ns = 1
nanoseconds _ = 0

-- `duration_cast` of a remainder, which truncates towards 0: the count of `unit` in what is left of
-- the duration below `whole`, where it is more than 0. Of a negative duration it never is.
unfoldable pub count : (whole unit : Word) → ℤ → ℕ
count whole unit (pos n) = n % nanoseconds whole / nanoseconds unit
count whole unit (negsuc n) = 0

unfoldable pub count_days : ℤ → ℕ
count_days (pos n) = n / nanoseconds day
count_days (negsuc n) = 0

unfoldable pub plural_if : ℕ → List Piece
plural_if val = if ltb 1 val then text plural ∷ [] else []

unfoldable pub add_days : ℕ → Output → Output
add_days val out =
    if ltb 0 val
    then record { result = out.result ++ number val ∷ text day ∷ plural_if val; added = true }
    else out

unfoldable pub separator : Bool → Piece
separator added = if added then text comma else text blank

-- The parts with a plural: hours, minutes and seconds.
unfoldable pub add_counted : Word → ℕ → Output → Output
add_counted unit val out =
    if ltb 0 val
    then record {
      result = out.result ++ separator out.added ∷ number val ∷ text unit ∷ plural_if val;
      added = true;
    }
    else out

-- Milliseconds and microseconds.
unfoldable pub add_short : Word → ℕ → Output → Output
add_short unit val out =
    if ltb 0 val
    then record {
      result = out.result ++ separator out.added ∷ number val ∷ text unit ∷ [];
      added = true;
    }
    else out

-- Nanoseconds: `added` stays as it is.
unfoldable pub add_ns : ℕ → Output → Output
add_ns val out =
    if ltb 0 val
    then record out { result = out.result ++ separator out.added ∷ number val ∷ text ns ∷ [] }
    else out

unfoldable pub add_no_time : Output → List Piece
add_no_time out = if not out.added then out.result ++ text no_time ∷ [] else out.result

unfoldable pub format_duration : ℤ → List Piece
format_duration d =
    let days = add_days (count_days d) (record { result = []; added = false }) in
    let hours = add_counted hour (count day hour d) days in
    let minutes = add_counted minute (count hour minute d) hours in
    let seconds = add_counted second (count minute second d) minutes in
    let milliseconds = add_short ms (count second ms d) seconds in
    let microseconds = add_short us (count ms us d) milliseconds in
    add_no_time (add_ns (count us ns d) microseconds)
