-- ===== src/IsoTime/Calendar.antt =====
-- The count of days against the calendar, day by day.
use aniparse.Prelude.{
  ℕ, zero, suc, ◌+◌, ◌-◌, ◌≤◌, ◌<◌, Bool, true, false, List, [], ◌∷◌, ◌≡◌, refl, ap, ◌∙◌, inl, inr,
  arith, ltb, ltb→lt, if◌then◌else◌, Bool-cases, get_or, take,
}
use aniparse.IsoTime.{is_leap, month_lengths, sum, date_ok, days_before_year, day_number, epoch}

-- The date after a date.
abbrev pub next_date : ℕ → ℕ → ℕ → ℕ × ℕ × ℕ
next_date year month day =
    if ltb day (get_or (month_lengths (is_leap year)) (month - 1) 0)
    then (year, month, day + 1)
    else if ltb month 12
    then (year, month + 1, 1)
    else (year + 1, 1, 1)

year_length :
    (year : ℕ)
    → days_before_year (year + 1) ≡ days_before_year year + (if is_leap year then 366 else 365)
unfolding days_before_year is_leap
year_length year = ground arith

sum-take : (i : ℕ) (ns : List ℕ) → sum (take (suc i) ns) ≡ sum (take i ns) + get_or ns i 0
unfolding sum
sum-take zero [] = omega arith
sum-take zero (n ∷ ns) = omega arith
sum-take (suc i) [] = omega arith
sum-take (suc i) (n ∷ ns) = omega (arith, sum-take i ns)

month_filled : (leap : Bool) (i : ℕ) → i < 12 → 0 < get_or (month_lengths leap) i 0
unfolding month_lengths
month_filled leap i h = ground arith

december :
    (leap : Bool)
    → (sum (take 11 (month_lengths leap)) + 31 ≡ (if leap then 366 else 365))
      × (get_or (month_lengths leap) 11 0 ≡ 31)
unfolding month_lengths sum
december true = (omega arith, refl)
december false = (omega arith, refl)

-- A date, and what the sums of month lengths say about its month.
module _ (year month day : ℕ) (ok : date_ok year month day ≡ true) where
  date_lem :
      (0 < month)
      × (month ≤ 12)
      × (0 < day)
      × (day ≤ get_or (month_lengths (is_leap year)) (month - 1) 0)
  unfolding date_ok
  date_lem = ground (arith, ok)

  same_month :
      day < get_or (month_lengths (is_leap year)) (month - 1) 0
      → (day_number year month (day + 1) ≡ day_number year month day + 1)
        × (date_ok year month (day + 1) ≡ true)
  unfolding day_number date_ok
  same_month h = (omega (arith, date_lem), ground (arith, date_lem, h))

  next_month :
      day ≡ get_or (month_lengths (is_leap year)) (month - 1) 0
      → month < 12
      → (day_number year (month + 1) 1 ≡ day_number year month day + 1)
        × (date_ok year (month + 1) 1 ≡ true)
  unfolding day_number date_ok
  next_month last h =
      let index : month + 1 - 1 ≡ suc (month - 1) = omega (arith, date_lem) in
      let step = sum-take (month - 1) (month_lengths (is_leap year)) in
      let first = month_filled (is_leap year) (suc (month - 1)) (omega (arith, h, date_lem)) in
      (rw index (omega (arith, step, last, date_lem)), rw index (ground (arith, first, h)))

  next_year :
      day ≡ get_or (month_lengths (is_leap year)) (month - 1) 0
      → month ≡ 12
      → (day_number (year + 1) 1 1 ≡ day_number year month day + 1)
        × (date_ok (year + 1) 1 1 ≡ true)
  unfolding day_number date_ok sum
  next_year last h =
      let first = month_filled (is_leap (year + 1)) 0 (omega arith) in
      let (total, final) = december (is_leap year) in
      let index : month - 1 ≡ 11 = omega (arith, h) in
      let days : day ≡ 31 =
        last ∙ ap (λ i. get_or (month_lengths (is_leap year)) i 0) index ∙ final in
      (rw (index, days) (ground (arith, year_length year, total)), ground (arith, first))

first_day : day_number 1970 1 1 ≡ epoch
unfolding day_number days_before_year is_leap month_lengths sum
first_day = refl

-- Each date's day is one after that of the date before, and the first of 1970 is the epoch's.
pub day_number-next_date :
    (year month day : ℕ)
    → date_ok year month day ≡ true
    → let (year', month', day') = next_date year month day in
      (day_number year' month' day' ≡ day_number year month day + 1)
      × (date_ok year' month' day' ≡ true)
      × (day_number 1970 1 1 ≡ epoch)
unfolding day_number date_ok
day_number-next_date year month day ok =
    let (positive, at_most, day_positive, fits) = date_lem year month day ok in
    elim (Bool-cases (ltb day (get_or (month_lengths (is_leap year)) (month - 1) 0))) [
      | inl inside ↦
          let (next, valid) =
            same_month year month day ok
              (ltb→lt day (get_or (month_lengths (is_leap year)) (month - 1) 0) inside) in
          rw inside (next, valid, first_day)
      | inr last ↦ elim (Bool-cases (ltb month 12)) [
        | inl early ↦
            let (next, valid) =
              next_month year month day ok (ground (arith, fits)) (ltb→lt month 12 early) in
            rw (last, early) (next, valid, first_day)
        | inr late ↦
            let (next, valid) =
              next_year year month day ok (ground (arith, fits)) (ground (arith, at_most)) in
            rw (last, late) (next, valid, first_day)
      ]
    ]
