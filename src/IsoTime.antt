-- ===== src/IsoTime.antt =====
-- `parse_iso8601` (src/utility/Time.cpp). The clock counts `rate` ticks a second, which the
-- platform's library chooses. Days are counted from the first of the year 0, which is a leap year,
-- as <chrono>'s proleptic calendar has it; the epoch is taken off at the end.
pub mod Calendar
pub mod RoundTrip
pub mod Bounds
pub mod Overflow
mod Tests
use aniparse.Prelude.{
  ℕ, ◌+◌, ◌-◌, ◌*◌, ◌/◌, ◌%◌, Bool, true, false, not, ◌&&◌, ◌||◌, List, [], ◌∷◌, Option, none, some,
  ◌==◌, ltb, leb, Bytes, is_digit, all_of, or_else, if◌then◌else◌, length, get_or, take, drop,
  ◌>>=◌, ◌>>◌, guard,
}
use aniparse.Prelude.Decimal.{read_digits}
use aniparse.Prelude.Int.{ℤ, difference}

-- `std::from_chars` over all of a text without a sign.
unfoldable pub number_of : Bytes → Option ℕ
number_of text =
    if length text == 0 || not (all_of is_digit text) then none else some (read_digits 0 text)

unfoldable pub take_digits : ℕ → Bytes → Option (ℕ × Bytes)
take_digits digits text =
    if ltb (length text) digits
    then none
    else if get_or text 0 0 == b'+' || get_or text 0 0 == b'-'
    then none
    else do value ← number_of (take digits text); some (value, drop digits text)

-- `take(text, expected)`: the rest where it is next.
unfoldable pub accept : ℕ → Bytes → Option Bytes
accept expected [] = none
accept expected (c ∷ text) = if c == expected then some text else none

-- The proleptic Gregorian calendar of <chrono>.
unfoldable pub is_leap : ℕ → Bool
is_leap year = (year % 4 == 0 && not (year % 100 == 0)) || year % 400 == 0

unfoldable pub month_lengths : Bool → List ℕ
month_lengths leap =
    31 ∷ (if leap then 29 else 28) ∷ 31 ∷ 30 ∷ 31 ∷ 30 ∷ 31 ∷ 31 ∷ 30 ∷ 31 ∷ 30 ∷ 31 ∷ []

unfoldable pub sum : List ℕ → ℕ
sum [] = 0
sum (n ∷ ns) = n + sum ns

-- `date.ok()`
unfoldable pub date_ok : ℕ → ℕ → ℕ → Bool
date_ok year month day =
    ltb 0 month
    && leb month 12
    && ltb 0 day
    && leb day (get_or (month_lengths (is_leap year)) (month - 1) 0)

unfoldable pub days_before_year : ℕ → ℕ
days_before_year year = 365 * year + (year + 3) / 4 - (year + 99) / 100 + (year + 399) / 400

-- `sys_days{date}`, from the first of the year 0.
unfoldable pub day_number : ℕ → ℕ → ℕ → ℕ
day_number year month day =
    days_before_year year + sum (take (month - 1) (month_lengths (is_leap year))) + (day - 1)

abbrev pub epoch : ℕ
epoch = 719528

unfoldable pub take_date : Bytes → Option (ℕ × Bytes)
take_date text = do
  (year, text1) ← take_digits 4 text
  text2 ← accept b'-' text1
  (month, text3) ← take_digits 2 text2
  text4 ← accept b'-' text3
  (day, text5) ← take_digits 2 text4
  guard (date_ok year month day)
  some (day_number year month day, text5)

-- Seconds are optional.
unfoldable pub take_second : Bytes → Option Bytes → Option (ℕ × Bytes)
take_second text none = some (0, text)
take_second text (some rest) = take_digits 2 rest

-- The loop over the digits of a fraction: its ticks, whether there was a digit, and the rest.
unfoldable pub fraction_digits : ℕ → ℕ → Bool → Bytes → ℕ × Bool × Bytes
fraction_digits scale fraction any [] = (fraction, any, [])
fraction_digits scale fraction any (c ∷ text) =
    let next = fraction_digits (scale / 10) (fraction + (c - b'0') * (scale / 10)) true text in
    if is_digit c then next else (fraction, any, c ∷ text)

module _ (rate : ℕ) where
  unfoldable pub read_fraction : Bytes → Option (ℕ × Bytes)
  read_fraction text =
      let (fraction, any, rest) = fraction_digits rate 0 false text in
      if any then some (fraction, rest) else none

  unfoldable pub take_fraction : Bytes → Option Bytes → Option (ℕ × Bytes)
  take_fraction text none = some (0, text)
  take_fraction text (some rest) = read_fraction rest

  -- The time of day in ticks. A leap second counts as the second before it.
  unfoldable pub take_time : Bytes → Option (ℕ × Bytes)
  take_time text = do
    (hour, text1) ← take_digits 2 text
    text2 ← accept b':' text1
    (minute, text3) ← take_digits 2 text2
    (second, text4) ← take_second text3 (accept b':' text3)
    guard (not (ltb 23 hour || ltb 59 minute || ltb 60 second))
    (fraction, text5) ← take_fraction text4 (or_else (accept b'.' text4) (accept b',' text4))
    some (
      (hour * 3600 + minute * 60 + (if ltb second 59 then second else 59)) * rate + fraction,
      text5,
    )

-- The minutes after an offset's hours.
unfoldable pub take_offset_minutes : Bytes → Option (ℕ × Bytes)
take_offset_minutes [] = some (0, [])
take_offset_minutes (c ∷ text) = take_digits 2 (if c == b':' then text else c ∷ text)

unfoldable pub read_offset : Bool → Bytes → Option (Bool × ℕ)
read_offset behind text = do
  (offset_hours, text1) ← take_digits 2 text
  (offset_minutes, text2) ← take_offset_minutes text1
  guard (length text2 == 0 && not (ltb 23 offset_hours) && not (ltb 59 offset_minutes))
  some (behind, offset_hours * 60 + offset_minutes)

unfoldable pub utc_if_empty : Bytes → Option (Bool × ℕ)
utc_if_empty [] = some (false, 0)
utc_if_empty (c ∷ text) = none

-- Whether the stamp's clock is behind UTC, and by how many minutes it differs.
unfoldable pub take_zone : Bytes → Option (Bool × ℕ)
take_zone [] = some (false, 0)
take_zone (c ∷ text) =
    if c == b'Z' || c == b'z'
    then utc_if_empty text
    else if c == b'+' || c == b'-'
    then read_offset (c == b'-') text
    else none

module _ (rate : ℕ) where
  -- The ticks since the epoch, of a day and the ticks in it, at an offset.
  unfoldable pub instant : ℕ → ℕ → Bool × ℕ → ℤ
  instant day time (behind, minutes) =
      if behind
      then difference (day * 86400 * rate + time + minutes * 60 * rate) (epoch * 86400 * rate)
      else difference (day * 86400 * rate + time) (epoch * 86400 * rate + minutes * 60 * rate)

  unfoldable pub finish : ℕ → Bytes → Option ℤ
  finish day text = do
    (time, text1) ← take_time rate text
    zone ← take_zone text1
    some (instant day time zone)

  unfoldable pub after_date : ℕ → Bytes → Option ℤ
  after_date day [] = some (instant day 0 (false, 0))
  after_date day (c ∷ text) = if c == b'T' || c == b' ' then finish day text else none

  unfoldable pub parse_iso8601 : Bytes → Option ℤ
  parse_iso8601 text = do (day, rest) ← take_date text; after_date day rest
