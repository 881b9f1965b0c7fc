-- ===== src/Mutate/Calendar.antt =====
-- The sum of a `datetime.date` and a `timedelta` of at most 28 days, which `_payment_due_date` of
-- src/rechnungsprobe/mutators.py takes.
use rechnungsprobe.Prelude.{
  ℕ, ◌+◌, ◌-◌, ◌%◌, ◌≤◌, Bool, ◌&&◌, ◌||◌, not, ◌==◌, leb, ltb, if◌then◌else◌,
}
use rechnungsprobe.Errors.{Result, ok, err, overflow_error}
use rechnungsprobe.Model.Invoice.{Date}

abbrev is_leap : ℕ → Bool
is_leap year = year % 4 == 0 && (not (year % 100 == 0) || year % 400 == 0)

unfoldable pub month_length : ℕ → ℕ → ℕ
month_length year month =
    if month == 2
    then if is_leap year then 29 else 28
    else if month == 4 || (month == 6 || (month == 9 || month == 11))
    then 30
    else 31

-- The days are at most 28, so the sum is in the date's month or in the next.
unfoldable pub add_days : Date → ℕ → Result Date
add_days d days =
    let day = d.day + days in
    let month_end = month_length d.year d.month in
    if leb day month_end
    then ok (record { year = d.year; month = d.month; day = day })
    else if ltb d.month 12
    then ok (record { year = d.year; month = d.month + 1; day = day - month_end })
    else if ltb d.year 9999
    then ok (record { year = d.year + 1; month = 1; day = day - month_end })
    else err overflow_error

-- A date that `datetime.date` admits
pub record IsDate (d : Date) : Type 0 where
  pub year_low : 1 ≤ d.year
  pub year_high : d.year ≤ 9999
  pub month_low : 1 ≤ d.month
  pub month_high : d.month ≤ 12
  pub day_low : 1 ≤ d.day
  pub day_high : d.day ≤ month_length d.year d.month
