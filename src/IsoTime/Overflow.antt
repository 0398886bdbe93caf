-- ===== src/IsoTime/Overflow.antt =====
-- A clock of nanoseconds, as libstdc++ has it, against a 64-bit count.
use aniparse.Prelude.{
  ℕ, ◌+◌, ◌-◌, ◌*◌, ◌^◌, ◌≤◌, ◌<◌, true, false, ◌∷◌, some, ◌≡◌, refl, ap, ◌∙◌, inl, arith,
}
use aniparse.Prelude.Int.{pos}
use aniparse.IsoTime.{date_ok, days_before_year, day_number, epoch, instant, parse_iso8601}
use aniparse.IsoTime.RoundTrip.{
  date_text, clock_text, offset_text, day_ticks, parse_iso8601-instant,
}

days_before_year-le : (year : ℕ) → 2263 ≤ year → 826543 ≤ days_before_year year
unfolding days_before_year
days_before_year-le year h = omega (arith, h)

instant-overflow :
    (day time minutes : ℕ)
    → 826543 ≤ day
    → minutes < 1440
    → (n : ℕ) × (instant 1000000000 day time (false, minutes) ≡ pos n) × (2 ^ 63 ≤ n)
unfolding instant
instant-overflow day time minutes d m = (
  day * 86400 * 1000000000 + time - (epoch * 86400 * 1000000000 + minutes * 60 * 1000000000),
  ground (arith, d, m),
  omega (arith, d, m),
)

-- Where the clock counts 10^9 ticks a second, the text of a valid date of the years 2263 to 9999,
-- with a time of day and an offset ahead of UTC, is accepted with a count of ticks that does not
-- fit in 64 bits with a sign.
pub nanoseconds_overflow :
    (year month day hour minute second hours minutes : ℕ)
    → 2263 ≤ year
    → year < 10000
    → date_ok year month day ≡ true
    → hour < 24
    → minute < 60
    → second < 61
    → hours < 24
    → minutes < 60
    → (n : ℕ) × (parse_iso8601 1000000000 (
          date_text year month day
            (b'T' ∷ clock_text hour minute second (offset_text false hours minutes)))
        ≡ some (pos n))
      × (2 ^ 63 ≤ n)
nanoseconds_overflow year month day hour minute second hours minutes late y ok h m s oh om =
    let read =
      parse_iso8601-instant 1000000000 year month day b'T' hour minute second false hours minutes y
        ok (inl refl) h m s oh om in
    let (n, is_n, large) =
      instant-overflow (day_number year month day) (day_ticks 1000000000 hour minute second)
        (hours * 60 + minutes) (unfold day_number in omega (arith, days_before_year-le year late))
        (omega (arith, oh, om)) in
    (n, read ∙ ap some is_n, large)
