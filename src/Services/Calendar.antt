-- ===== src/Services/Calendar.antt =====
-- The dates of Python's datetime, as app/services/risk_service.py uses them: the year, the month and the
-- day of an instant, and the instant of a date. A day is counted from 0001-01-01.
pub mod Dates
use mt5_execution_bridge.Prelude.{
  ℕ, zero, suc, ◌+◌, ◌-◌, ◌*◌, ◌/◌, ◌%◌, Bool, not, ◌&&◌, ◌||◌, ltb, ◌==◌, if◌then◌else◌,
}

pub record Date : Type 0 where
  pub year : ℕ
  pub month : ℕ
  pub day : ℕ

unfoldable pub is_leap : ℕ → Bool
is_leap y = y % 4 == 0 && (not (y % 100 == 0) || y % 400 == 0)

unfoldable pub days_in_month : ℕ → ℕ → ℕ
unfolding is_leap
days_in_month y m =
    if m == 2
    then (if is_leap y then 29 else 28)
    else if m == 4 || m == 6 || m == 9 || m == 11
    then 30
    else 31

unfoldable pub days_in_year : ℕ → ℕ
unfolding is_leap
days_in_year y = if is_leap y then 366 else 365

-- The days before the first of January, and within the year before the first of a month.
unfoldable pub days_before_year : ℕ → ℕ
days_before_year y = (y - 1) * 365 + (y - 1) / 4 - (y - 1) / 100 + (y - 1) / 400

unfoldable pub days_before_month : ℕ → ℕ → ℕ
unfolding days_in_month
days_before_month y zero = 0
days_before_month y (suc zero) = 0
days_before_month y (suc (suc m)) = days_before_month y (suc m) + days_in_month y (suc m)

-- From the first of a year on, at most `f` years; what is left is within the year.
unfoldable pub walk_years : ℕ → ℕ → ℕ → ℕ × ℕ
unfolding days_in_year
walk_years zero y n = (y, n)
walk_years (suc f) y n = elim (ltb n (days_in_year y)) [
  | Bool.true ↦ (y, n)
  | Bool.false ↦ walk_years f (y + 1) (n - days_in_year y)
]

unfoldable pub walk_months : ℕ → ℕ → ℕ → ℕ → Date
unfolding days_in_month
walk_months zero y m n = record { year = y; month = m; day = n + 1 }
walk_months (suc f) y m n = elim (ltb n (days_in_month y m)) [
  | Bool.true ↦ record { year = y; month = m; day = n + 1 }
  | Bool.false ↦ walk_months f y (m + 1) (n - days_in_month y m)
]

-- `year`, `month` and `day` of a day; the calendar repeats after 400 years.
unfoldable pub date_of : ℕ → Date
unfolding walk_years walk_months
date_of n =
    let (y, rest) = walk_years 400 (n / 146_097 * 400 + 1) (n % 146_097) in walk_months 12 y 1 rest

-- The day of `datetime(year, month, day)`.
unfoldable pub day_of : Date → ℕ
unfolding days_before_year days_before_month
day_of d = days_before_year d.year + days_before_month d.year d.month + (d.day - 1)

-- The number that `strftime("%Y-%m-%d")` writes, with dashes between the year, the month and the day.
unfoldable pub digits : Date → ℕ
digits d = d.year * 10_000 + d.month * 100 + d.day
