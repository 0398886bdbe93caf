-- ===== src/IsoTime/Tests.antt =====
-- Timestamps.
use aniparse.Prelude.{
  ℕ, ◌+◌, ◌*◌, ◌^◌, ◌≤◌, ◌<◌, true, false, ◌∷◌, some, ◌≡◌, refl, inl, arith, Bytes, codes, is_digit,
  all_of,
}
use aniparse.Prelude.Int.{ℤ, pos, abs, ◌+ℤ◌}
use aniparse.IsoTime.Calendar.{next_date}
use aniparse.IsoTime.{parse_iso8601, day_number, date_ok, instant}
use aniparse.IsoTime.RoundTrip.{
  date_text, clock_text, offset_text, day_ticks, offset_ticks, parse_iso8601-stamp,
}
use aniparse.IsoTime.Bounds.{parse_iso8601-fits}
use aniparse.IsoTime.Overflow.{nanoseconds_overflow}

leap_day : date_ok 2024 2 29 ≡ true
unfolding date_ok aniparse.IsoTime.is_leap aniparse.IsoTime.month_lengths
leap_day = refl

parse_iso8601-stamp_example :
    let off = offset_ticks 1000000 3 30 in
    let (year', month', day') = next_date 2024 2 29 in
    (z : ℤ) × (parse_iso8601 1000000
        (date_text 2024 2 29 (b'T' ∷ clock_text 23 59 60 (offset_text true 3 30)))
      ≡ some z)
    × (z +ℤ pos (day_number 1970 1 1 * 86400 * 1000000 + 0)
        ≡ pos (day_number 2024 2 29 * 86400 * 1000000 + day_ticks 1000000 23 59 60 + off))
    × (day_number year' month' day' ≡ day_number 2024 2 29 + 1)
parse_iso8601-stamp_example =
    parse_iso8601-stamp 1000000 2024 2 29 b'T' 23 59 60 true 3 30 (omega arith) leap_day (inl refl)
      (omega arith) (omega arith) (omega arith) (omega arith) (omega arith)

late_day : date_ok 9999 12 31 ≡ true
unfolding date_ok aniparse.IsoTime.is_leap aniparse.IsoTime.month_lengths
late_day = refl

abbrev late : Bytes
late = codes "9999-12-31"

late_parsed : parse_iso8601 1000000 late ≡ some (pos 253402214400000000)
unfolding parse_iso8601 aniparse.IsoTime.take_date aniparse.IsoTime.take_digits
    aniparse.IsoTime.number_of aniparse.IsoTime.accept aniparse.IsoTime.after_date date_ok
    aniparse.IsoTime.is_leap aniparse.IsoTime.month_lengths day_number
    aniparse.IsoTime.days_before_year aniparse.IsoTime.sum instant all_of is_digit
    aniparse.Prelude.Decimal.read_digits
late_parsed = refl

parse_iso8601-fits_example : abs (pos 253402214400000000) < 2 ^ 63
parse_iso8601-fits_example =
    parse_iso8601-fits 1000000 late (pos 253402214400000000) (omega arith) late_parsed

nanoseconds_overflow_example :
    (n : ℕ) × (parse_iso8601 1000000000
        (date_text 9999 12 31 (b'T' ∷ clock_text 0 0 0 (offset_text false 0 0)))
      ≡ some (pos n))
    × (2 ^ 63 ≤ n)
nanoseconds_overflow_example =
    nanoseconds_overflow 9999 12 31 0 0 0 0 0 (omega arith) (omega arith) late_day (omega arith)
      (omega arith) (omega arith) (omega arith) (omega arith)
