-- ===== src/IsoTime/RoundTrip.antt =====
-- The timestamps that are written in full are read back.
use aniparse.Prelude.{
  ℕ, ◌+◌, ◌-◌, ◌*◌, ◌/◌, ◌%◌, ◌≤◌, ◌<◌, Bool, true, false, ◌||◌, [], ◌∷◌, ◌++◌, some, ◌≡◌, refl,
  ◌≢◌, ◌⊎◌, arith, ◌==◌, ==_iff, ltb, Bytes, is_digit, all_of, if◌then◌else◌, get_or,
}
use aniparse.Prelude.Decimal.{read_digits}
use aniparse.Prelude.Int.{ℤ, pos, difference, ◌+ℤ◌}
use aniparse.IsoTime.Calendar.{next_date, day_number-next_date}
use aniparse.IsoTime.{
  epoch, number_of, take_digits, accept, is_leap, month_lengths, date_ok, day_number, take_date,
  take_second, take_fraction, take_time, take_offset_minutes, read_offset, take_zone, instant,
  finish, after_date, parse_iso8601,
}

-- Two and four digits.
abbrev pub two : ℕ → Bytes
two v = (b'0' + v / 10) ∷ (b'0' + v % 10) ∷ []

abbrev pub four : ℕ → Bytes
four v = two (v / 100) ++ two (v % 100)

abbrev pub date_text : ℕ → ℕ → ℕ → Bytes → Bytes
date_text year month day rest = four year ++ (b'-' ∷ (two month ++ (b'-' ∷ (two day ++ rest))))

abbrev pub clock_text : ℕ → ℕ → ℕ → Bytes → Bytes
clock_text hour minute second rest =
    two hour ++ (b':' ∷ (two minute ++ (b':' ∷ (two second ++ rest))))

abbrev pub sign_of : Bool → ℕ
sign_of true = b'-'
sign_of false = b'+'

abbrev pub offset_text : Bool → ℕ → ℕ → Bytes
offset_text behind hours minutes = sign_of behind ∷ (two hours ++ (b':' ∷ two minutes))

take_digits-two : (v : ℕ) (rest : Bytes) → v < 100 → take_digits 2 (two v ++ rest) ≡ some (v, rest)
unfolding take_digits number_of all_of is_digit read_digits
take_digits-two v rest h = ground arith

take_digits-four :
    (v : ℕ) (rest : Bytes) → v < 10000 → take_digits 4 (four v ++ rest) ≡ some (v, rest)
unfolding take_digits number_of all_of is_digit read_digits
take_digits-four v rest h = ground arith

month_lengths-le : (leap : Bool) (i : ℕ) → get_or (month_lengths leap) i 0 ≤ 31
unfolding month_lengths
month_lengths-le leap i = ground arith

date_ok-bounds : (year month day : ℕ) → date_ok year month day ≡ true → (month < 100) × (day < 100)
unfolding date_ok
date_ok-bounds year month day ok = ground (arith, month_lengths-le (is_leap year) (month - 1))

take_date-date_text :
    (year month day : ℕ) (rest : Bytes)
    → year < 10000
    → date_ok year month day ≡ true
    → take_date (date_text year month day rest) ≡ some (day_number year month day, rest)
unfolding take_date accept
take_date-date_text year month day rest h ok =
    let bounds = date_ok-bounds year month day ok in
    let after_day = two day ++ rest in
    let after_month = two month ++ (b'-' ∷ after_day) in
    rw
      (
        take_digits-four year (b'-' ∷ after_month) h,
        take_digits-two month (b'-' ∷ after_day) (omega (arith, bounds)),
        take_digits-two day rest (omega (arith, bounds)),
        ok,
      )
      refl

-- The ticks of a time of day.
abbrev pub day_ticks : ℕ → ℕ → ℕ → ℕ → ℕ
day_ticks rate hour minute second =
    (hour * 3600 + minute * 60 + (if ltb second 59 then second else 59)) * rate + 0

module _ (rate : ℕ) where
  take_time-clock_text :
      (hour minute second c : ℕ) (rest : Bytes)
      → hour < 24
      → minute < 60
      → second < 61
      → c ≢ b'.'
      → c ≢ b','
      → take_time rate (clock_text hour minute second (c ∷ rest))
        ≡ some (day_ticks rate hour minute second, c ∷ rest)
  unfolding take_time accept take_second take_fraction
  take_time-clock_text hour minute second c rest h m s no_point no_comma =
      let in_range : (ltb 23 hour || ltb 59 minute || ltb 60 second) ≡ false =
        ground (arith, h, m, s) in
      let plain : (c == b'.') ≡ false = ground (arith, ==_iff c b'.') in
      let plain' : (c == b',') ≡ false = ground (arith, ==_iff c b',') in
      let after_second = two second ++ (c ∷ rest) in
      let after_minute = two minute ++ (b':' ∷ after_second) in
      rw
        (
          take_digits-two hour (b':' ∷ after_minute) (omega (arith, h)),
          take_digits-two minute (b':' ∷ after_second) (omega (arith, m)),
          take_digits-two second (c ∷ rest) (omega (arith, s)),
        )
        (rw (in_range, plain, plain') refl)

below : (bound n : ℕ) → n ≤ bound → ltb bound n ≡ false
below bound n h = ground (arith, h)

take_zone-offset_text :
    (behind : Bool) (hours minutes : ℕ)
    → hours < 24
    → minutes < 60
    → take_zone (offset_text behind hours minutes) ≡ some (behind, hours * 60 + minutes)
unfolding take_zone read_offset take_offset_minutes
take_zone-offset_text true hours minutes h m =
    rw
      (
        take_digits-two hours (b':' ∷ two minutes) (omega (arith, h)),
        take_digits-two minutes [] (omega (arith, m)),
      )
      (rw (below 23 hours (omega (arith, h)), below 59 minutes (omega (arith, m))) refl)
take_zone-offset_text false hours minutes h m =
    rw
      (
        take_digits-two hours (b':' ∷ two minutes) (omega (arith, h)),
        take_digits-two minutes [] (omega (arith, m)),
      )
      (rw (below 23 hours (omega (arith, h)), below 59 minutes (omega (arith, m))) refl)

pub parse_iso8601-instant :
    (rate year month day sep hour minute second : ℕ) (behind : Bool) (hours minutes : ℕ)
    → year < 10000
    → date_ok year month day ≡ true
    → (sep ≡ b'T') ⊎ (sep ≡ b' ')
    → hour < 24
    → minute < 60
    → second < 61
    → hours < 24
    → minutes < 60
    → parse_iso8601 rate (
        date_text year month day
          (sep ∷ clock_text hour minute second (offset_text behind hours minutes)))
      ≡ some (
          instant rate
            (day_number year month day)
            (day_ticks rate hour minute second)
            (behind, hours * 60 + minutes))
unfolding parse_iso8601 after_date finish
parse_iso8601-instant rate year month day sep hour minute second behind hours minutes y ok s h m sec
      oh om =
    let zone = offset_text behind hours minutes in
    let clock = clock_text hour minute second zone in
    let parted : (sep == b'T' || sep == b' ') ≡ true = ground (arith, s) in
    rw
      (
        take_date-date_text year month day (sep ∷ clock) y ok,
        parted,
        take_time-clock_text rate hour minute second (sign_of behind)
            (two hours ++ (b':' ∷ two minutes)) h m sec (sign behind).0 (sign behind).1,
        take_zone-offset_text behind hours minutes oh om,
      )
      refl
  where
    sign : (b : Bool) → (sign_of b ≢ b'.') × (sign_of b ≢ b',')
    sign true = ((λ e. absurd (omega (arith, e))), λ e. absurd (omega (arith, e)))
    sign false = ((λ e. absurd (omega (arith, e))), λ e. absurd (omega (arith, e)))

plus_zero : (n : ℕ) → n + 0 ≡ n
plus_zero n = omega arith

difference-add : (a b : ℕ) → difference a b +ℤ pos b ≡ pos a
difference-add a b = ground arith

-- The ticks of an offset.
abbrev pub offset_ticks : ℕ → ℕ → ℕ → ℕ
offset_ticks rate hours minutes = (hours * 60 + minutes) * 60 * rate

instant-utc :
    (rate day time : ℕ) (behind : Bool) (hours minutes : ℕ)
    → instant rate day time (behind, hours * 60 + minutes)
        +ℤ pos (epoch * 86400 * rate + (if behind then 0 else offset_ticks rate hours minutes))
      ≡ pos (day * 86400 * rate + time + (if behind then offset_ticks rate hours minutes else 0))
unfolding instant
instant-utc rate day time true hours minutes =
    rw (plus_zero (epoch * 86400 * rate)) (difference-add _ (epoch * 86400 * rate))
instant-utc rate day time false hours minutes =
    rw (plus_zero (day * 86400 * rate + time)) (difference-add _ _)

-- A valid date of a year of four digits, with a valid time of day, its leap second included, and an
-- offset, written in full after a `T` or a space, is read as the ticks from the first of 1970 in UTC:
-- with the offset taken off a clock that is ahead, or added to one that is behind, they are the
-- ticks of the days from then to the date and of the time of day. The number of a day is one less
-- than that of the day after it in the calendar.
pub parse_iso8601-stamp :
    (rate year month day sep hour minute second : ℕ) (behind : Bool) (hours minutes : ℕ)
    → year < 10000
    → date_ok year month day ≡ true
    → (sep ≡ b'T') ⊎ (sep ≡ b' ')
    → hour < 24
    → minute < 60
    → second < 61
    → hours < 24
    → minutes < 60
    → let off = offset_ticks rate hours minutes in
      let (year', month', day') = next_date year month day in
      (z : ℤ) × (parse_iso8601 rate (
          date_text year month day
            (sep ∷ clock_text hour minute second (offset_text behind hours minutes)))
        ≡ some z)
      × (z +ℤ pos (day_number 1970 1 1 * 86400 * rate + (if behind then 0 else off))
          ≡ pos (
              day_number year month day * 86400 * rate
              + day_ticks rate hour minute second
              + (if behind then off else 0)))
      × (day_number year' month' day' ≡ day_number year month day + 1)
parse_iso8601-stamp rate year month day sep hour minute second behind hours minutes y ok s h m sec
      oh om =
    let (next, valid, first) = day_number-next_date year month day ok in
    let time = day_ticks rate hour minute second in
    (
      instant rate (day_number year month day) time (behind, hours * 60 + minutes),
      parse_iso8601-instant rate year month day sep hour minute second behind hours minutes y ok s h
          m sec oh om,
      rw first (instant-utc rate (day_number year month day) time behind hours minutes),
      next,
    )
