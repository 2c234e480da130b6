-- ===== src/Timestamp.antt =====
-- `get_timestamp_str` of utests/common/misc.h: the numbers that it prints of a time.
pub mod Laws
use tx_queue.Base.{ℕ, ◌+◌, ◌-◌, ◌*◌, ◌/◌, ◌%◌}

-- "hh:mm:ss.mmmms uuuus nnnns"
pub record Printed : Type 0 where
  pub hour : ℕ
  pub min : ℕ
  pub sec : ℕ
  pub ms : ℕ
  pub us : ℕ
  pub ns : ℕ

-- `duration_cast` of nanoseconds since the epoch.
abbrev pub in_hours : ℕ → ℕ
in_hours t = t / 3600000000000

abbrev pub in_minutes : ℕ → ℕ
in_minutes t = t / 60000000000

abbrev pub in_seconds : ℕ → ℕ
in_seconds t = t / 1000000000

abbrev pub in_ms : ℕ → ℕ
in_ms t = t / 1000000

abbrev pub in_us : ℕ → ℕ
in_us t = t / 1000

-- A time not before the epoch, with the hour that `localtime_s` gives. `hours_since_midnight`, which
-- is `in_hours t - tm_hour`, may be negative, so that its two parts stand on either side here.
unfoldable pub minutes_left : (tm_hour t : ℕ) → ℕ
minutes_left tm_hour t = in_minutes t + 60 * tm_hour - 60 * in_hours t

unfoldable pub seconds_left : (tm_hour t : ℕ) → ℕ
unfolding minutes_left
seconds_left tm_hour t =
    in_seconds t + 3600 * tm_hour - (60 * minutes_left tm_hour t + 3600 * in_hours t)

unfoldable pub ms_left : (tm_hour t : ℕ) → ℕ
unfolding seconds_left
ms_left tm_hour t = in_ms t - 1000 * seconds_left tm_hour t

unfoldable pub us_left : (tm_hour t : ℕ) → ℕ
unfolding ms_left
us_left tm_hour t = in_us t - 1000 * ms_left tm_hour t

unfoldable pub ns_left : (tm_hour t : ℕ) → ℕ
unfolding us_left
ns_left tm_hour t = t - 1000 * us_left tm_hour t

unfoldable pub get_timestamp_str : (tm_hour t : ℕ) → Printed
unfolding minutes_left seconds_left ms_left us_left ns_left
get_timestamp_str tm_hour t = record {
  hour = tm_hour;
  min = minutes_left tm_hour t % 60;
  sec = seconds_left tm_hour t % 60;
  ms = ms_left tm_hour t % 1000;
  us = us_left tm_hour t % 1000;
  ns = ns_left tm_hour t % 1000;
}
