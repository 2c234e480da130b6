-- ===== src/Timestamp/Laws.antt =====
-- The parts of a printed time.
use tx_queue.Base.{ℕ, ◌+◌, ◌*◌, ◌%◌, ◌≡◌, refl, arith}
use tx_queue.Timestamp.{
  in_minutes, in_seconds, in_ms, in_us, minutes_left, seconds_left, ms_left, us_left, ns_left,
  get_timestamp_str,
}

module _ (tm_hour t : ℕ) where
  minutes_lem : minutes_left tm_hour t % 60 ≡ in_minutes t % 60
  unfolding minutes_left
  minutes_lem = omega arith

  -- The minutes are taken off whatever the hour is.
  seconds_lem : seconds_left tm_hour t ≡ in_seconds t % 60
  unfolding seconds_left minutes_left
  seconds_lem = omega arith

  ms_lem : ms_left tm_hour t % 1000 ≡ in_ms t % 1000
  unfolding ms_left
  ms_lem = omega (arith, seconds_lem)

  us_lem : us_left tm_hour t % 1000 ≡ in_us t % 1000
  unfolding us_left ms_left
  us_lem = omega (arith, seconds_lem)

  ns_lem : ns_left tm_hour t % 1000 ≡ t % 1000
  unfolding ns_left us_left ms_left
  ns_lem = omega (arith, seconds_lem)

  -- The minutes, seconds and parts of a second that are printed of a time not before the epoch make
  -- up the nanoseconds since the last full hour behind the clock's epoch, whatever the local hour
  -- is, and the hour that is printed is the local one.
  pub timestamp_meaning :
      let r = get_timestamp_str tm_hour t in
      ((((r.min * 60 + r.sec) * 1000 + r.ms) * 1000 + r.us) * 1000 + r.ns ≡ t % 3600000000000)
      × (r.hour ≡ tm_hour)
  unfolding get_timestamp_str
  timestamp_meaning = (omega (arith, minutes_lem, seconds_lem, ms_lem, us_lem, ns_lem), refl)
