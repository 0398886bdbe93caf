-- ===== src/IsoTime/Bounds.antt =====
-- The range of the ticks that parsing gives, against a 64-bit count.
use aniparse.Prelude.{
  ℕ, zero, suc, ◌+◌, ◌-◌, ◌*◌, ◌/◌, ◌^◌, ◌≤◌, ◌<◌, Bool, true, false, not, ◌&&◌, ◌||◌, [], ◌∷◌,
  Option, none, some, ◌≡◌, inl, inr, arith, ◌==◌, ltb, Bytes, is_digit, or_else, if◌then◌else◌,
  Bool-cases, length, get_or, take, guard, >>=-eq-some,
}
use mathlib.Core.Path.{subst}
use native.Mathlib.Nat.{mul-le-mul, mul-le-mul_right}
use aniparse.Prelude.Int.{ℤ, abs}
use aniparse.Prelude.Decimal.{read_digits}
use aniparse.IsoTime.{
  number_of, take_digits, accept, is_leap, month_lengths, sum, date_ok, days_before_year,
  day_number, take_date, take_second, fraction_digits, read_fraction, take_fraction, take_time,
  take_offset_minutes, read_offset, utc_if_empty, take_zone, instant, finish, after_date,
  parse_iso8601,
}

-- The largest value after some more digits.
abbrev top : ℕ → ℕ → ℕ
top n zero = n
top n (suc k) = top (n * 10 + 9) k

le-top : (k n m : ℕ) → n ≤ m → n ≤ top m k
le-top zero n m h = h
le-top (suc k) n m h = le-top k n (m * 10 + 9) (omega (arith, h))

read_digits-le : (s : Bytes) (k acc n : ℕ) → length s ≤ k → acc ≤ n → read_digits acc s ≤ top n k
unfolding read_digits
read_digits-le [] k acc n h le = le-top k acc n le
read_digits-le (c ∷ s) zero acc n h le = absurd (omega (arith, h))
read_digits-le (c ∷ s) (suc k) acc n h le = elim (Bool-cases (is_digit c)) [
  | inl digit ↦
      let small : c - b'0' ≤ 9 = unfold is_digit in ground (arith, digit) in
      rw digit (
        read_digits-le s k (acc * 10 + (c - b'0')) (n * 10 + 9) (omega (arith, h))
          (omega (arith, small, le)))
  | inr other ↦ rw other (le-top k acc (n * 10 + 9) (omega (arith, le)))
]

length-take : (k : ℕ) (s : Bytes) → length (take k s) ≤ k
length-take zero s = omega arith
length-take (suc k) [] = omega arith
length-take (suc k) (c ∷ s) = omega (arith, length-take k s)

take_digits-le :
    (k : ℕ) (text rest : Bytes) (v : ℕ) → take_digits k text ≡ some (v, rest) → v ≤ top 0 k
unfolding take_digits number_of
take_digits-le k text rest v h =
    ground (arith, h, read_digits-le (take k text) k 0 0 (length-take k text) (omega arith))

days_in_months :
    (leap : Bool) (i : ℕ)
    → i < 12
    → sum (take i (month_lengths leap)) + get_or (month_lengths leap) i 0 ≤ 366
unfolding month_lengths sum
days_in_months leap i h = ground arith

day_number-lt :
    (year month day : ℕ)
    → year < 10000
    → date_ok year month day ≡ true
    → day_number year month day < 3652500
unfolding day_number days_before_year date_ok
day_number-lt year month day h ok = ground (arith, days_in_months (is_leap year) (month - 1), h, ok)

fraction_digits-le :
    (scale fraction : ℕ) (any : Bool) (text : Bytes)
    → (fraction_digits scale fraction any text).0 ≤ fraction + scale
unfolding fraction_digits
fraction_digits-le scale fraction any [] = omega arith
fraction_digits-le scale fraction any (c ∷ text) = elim (Bool-cases (is_digit c)) [
  | inl digit ↦
      let small : c - b'0' ≤ 9 = unfold is_digit in ground (arith, digit) in
      let part = mul-le-mul_right {m = c - b'0'} {n = 9} (scale / 10) small in
      let rest = fraction_digits-le (scale / 10) (fraction + (c - b'0') * (scale / 10)) true text in
      rw digit (omega (arith, part, rest))
  | inr other ↦ rw other (omega arith)
]

some-injective : (a b : ℤ) → some a ≡ some b → a ≡ b
some-injective a b h = cc

same_ticks :
    (a b : ℕ) (r s : Bytes) → ◌≡◌ {A = Option (ℕ × Bytes)} (some (a, r)) (some (b, s)) → a ≡ b
same_ticks a b r s h = cc

take_date-lt : (text rest : Bytes) (day : ℕ) → take_date text ≡ some (day, rest) → day < 3652500
unfolding take_date
take_date-lt text rest day h =
    let (year, is_year, h1) = >>=-eq-some (take_digits 4 text) _ h in
    let (text2, dash, h2) = >>=-eq-some (accept b'-' year.1) _ h1 in
    let (month, is_month, h3) = >>=-eq-some (take_digits 2 text2) _ h2 in
    let (text4, dash', h4) = >>=-eq-some (accept b'-' month.1) _ h3 in
    let (day', is_day, h5) = >>=-eq-some (take_digits 2 text4) _ h4 in
    let (valid, checked, h6) = >>=-eq-some (guard (date_ok year.0 month.0 day'.0)) _ h5 in
    let number : day_number year.0 month.0 day'.0 ≡ day = cc h6 in
    let ok : date_ok year.0 month.0 day'.0 ≡ true = ground (arith, checked) in
    let four_digits = take_digits-le 4 text year.1 year.0 is_year in
    omega (arith, number, day_number-lt year.0 month.0 day'.0 (omega (arith, four_digits)) ok)

take_fraction-le :
    (rate : ℕ) (text rest : Bytes) (point : Option Bytes) (fraction : ℕ)
    → take_fraction rate text point ≡ some (fraction, rest)
    → fraction ≤ rate
unfolding take_fraction read_fraction
take_fraction-le rate text rest none fraction h = ground (arith, h)
take_fraction-le rate text rest (some digits) fraction h =
    ground (arith, h, fraction_digits-le rate 0 false digits)

take_time-le :
    (rate : ℕ) (text rest : Bytes) (time : ℕ)
    → take_time rate text ≡ some (time, rest)
    → time ≤ 86400 * rate
unfolding take_time
take_time-le rate text rest time h =
    let (hour, is_hour, h1) = >>=-eq-some (take_digits 2 text) _ h in
    let (text2, colon, h2) = >>=-eq-some (accept b':' hour.1) _ h1 in
    let (minute, is_minute, h3) = >>=-eq-some (take_digits 2 text2) _ h2 in
    let (second, is_second, h4) = >>=-eq-some (take_second minute.1 (accept b':' minute.1)) _ h3 in
    let (valid, checked, h5) =
      >>=-eq-some (guard (not (ltb 23 hour.0 || ltb 59 minute.0 || ltb 60 second.0))) _ h4 in
    let (fraction, is_fraction, h6) =
      >>=-eq-some
        (take_fraction rate second.1 (or_else (accept b'.' second.1) (accept b',' second.1))) _
        h5 in
    let seconds : ℕ = hour.0 * 3600 + minute.0 * 60 + (if ltb second.0 59 then second.0 else 59) in
    let total : seconds * rate + fraction.0 ≡ time =
      same_ticks (seconds * rate + fraction.0) time fraction.1 rest h6 in
    let in_range : seconds ≤ 86399 = ground (arith, checked) in
    let part = mul-le-mul_right {m = seconds} {n = 86399} rate in_range in
    let small =
      take_fraction-le rate second.1 fraction.1
        (or_else (accept b'.' second.1) (accept b',' second.1)) fraction.0 is_fraction in
    omega (arith, total, part, small)

read_offset-le :
    (behind : Bool) (text : Bytes) (zone : Bool × ℕ)
    → read_offset behind text ≡ some zone
    → zone.1 ≤ 1439
unfolding read_offset
read_offset-le behind text zone h =
    let (hours, is_hours, h1) = >>=-eq-some (take_digits 2 text) _ h in
    let (minutes, is_minutes, h2) = >>=-eq-some (take_offset_minutes hours.1) _ h1 in
    let (valid, checked, h3) =
      >>=-eq-some (guard (length minutes.1 == 0 && not (ltb 23 hours.0) && not (ltb 59 minutes.0)))
        _ h2 in
    let total : hours.0 * 60 + minutes.0 ≡ zone.1 = cc h3 in ground (arith, checked, total)

take_zone-le : (text : Bytes) (zone : Bool × ℕ) → take_zone text ≡ some zone → zone.1 ≤ 1439
unfolding take_zone utc_if_empty
take_zone-le [] zone h = ground (arith, h)
take_zone-le (c ∷ text) zone h = ground (arith, h, read_offset-le (c == b'-') text zone)

instant-lt :
    (rate day time : ℕ) (zone : Bool × ℕ)
    → rate ≤ 10000000
    → day < 3652500
    → time ≤ 86400 * rate
    → zone.1 ≤ 1439
    → abs (instant rate day time zone) < 2 ^ 63
unfolding instant
instant-lt rate day time (behind, minutes) r d t m =
    let days =
      mul-le-mul {n₁ = day * 86400} {m₁ = rate} {n₂ = 3652500 * 86400} {m₂ = 10000000}
        (omega (arith, d)) r in
    let offset =
      mul-le-mul {n₁ = minutes * 60} {m₁ = rate} {n₂ = 86400} {m₂ = 10000000} (omega (arith, m))
        r in
    ground (arith, days, offset, t, r)

finish-lt :
    (rate day : ℕ) (text : Bytes) (z : ℤ)
    → rate ≤ 10000000
    → day < 3652500
    → finish rate day text ≡ some z
    → abs z < 2 ^ 63
unfolding finish
finish-lt rate day text z r d h =
    let (time, is_time, h1) = >>=-eq-some (take_time rate text) _ h in
    let (zone, is_zone, h2) = >>=-eq-some (take_zone time.1) _ h1 in
    let bound =
      instant-lt rate day time.0 zone r d (take_time-le rate text time.1 time.0 is_time)
        (take_zone-le time.1 zone is_zone) in
    subst (λ x. abs x < 2 ^ 63) (some-injective (instant rate day time.0 zone) z h2) bound

after_date-lt :
    (rate day : ℕ) (text : Bytes) (z : ℤ)
    → rate ≤ 10000000
    → day < 3652500
    → after_date rate day text ≡ some z
    → abs z < 2 ^ 63
unfolding after_date
after_date-lt rate day [] z r d h =
    subst (λ x. abs x < 2 ^ 63) (some-injective (instant rate day 0 (false, 0)) z h)
      (instant-lt rate day 0 (false, 0) r d (omega arith) (omega arith))
after_date-lt rate day (c ∷ text) z r d h = elim (Bool-cases (c == b'T' || c == b' ')) [
  | inl parted ↦ finish-lt rate day text z r d (rw parted at h)
  | inr other ↦ absurd (ground (arith, h, other))
]

-- Where the clock counts at most 10^7 ticks a second, as on libc++ and MSVC, every instant that
-- parsing gives fits in a 64-bit count.
pub parse_iso8601-fits :
    (rate : ℕ) (text : Bytes) (z : ℤ)
    → rate ≤ 10000000
    → parse_iso8601 rate text ≡ some z
    → abs z < 2 ^ 63
unfolding parse_iso8601
parse_iso8601-fits rate text z r h =
    let (date, is_date, h1) = >>=-eq-some (take_date text) _ h in
    after_date-lt rate date.0 date.1 z r (take_date-lt text date.1 date.0 is_date) h1
