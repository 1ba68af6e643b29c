-- ===== src/Services/Calendar/Dates.antt =====
-- The date of a day is the date that has this day, and it is a date of the calendar.
use mathlib.Core.Path.{subst}
use mt5_execution_bridge.Prelude.{
  ℕ, zero, suc, ◌+◌, ◌-◌, ◌*◌, ◌/◌, ◌%◌, ◌≤◌, ◌<◌, ◌≡◌, refl, sym, ap, ◌∙◌, Bool, true, false, ltb,
  arith,
}
use mt5_execution_bridge.Services.Calendar.{
  Date, is_leap, days_in_month, days_in_year, days_before_year, days_before_month, walk_years,
  walk_months, date_of, day_of, digits,
}

days_before_year-suc :
    (y : ℕ) → 1 ≤ y → days_before_year (y + 1) ≡ days_before_year y + days_in_year y
unfolding days_before_year days_in_year is_leap
days_before_year-suc y h = ground (arith, h)

-- A walk over the years ends in the year `r.0`, of which `r.1` days are left.
abbrev IsWalked : ℕ → ℕ × ℕ → Type 0
IsWalked total r = (days_before_year r.0 + r.1 ≡ total) × (r.1 < days_in_year r.0) × (1 ≤ r.0)

walk_years-IsWalked :
    (f y n : ℕ)
    → 1 ≤ y
    → n + days_before_year y < days_before_year (y + f)
    → IsWalked (days_before_year y + n) (walk_years f y n)
unfolding walk_years
walk_years-IsWalked zero y n one h =
    let same : days_before_year (y + 0) ≡ days_before_year y = ap days_before_year (omega arith) in
    absurd (omega (arith, h, same))
walk_years-IsWalked (suc f) y n one h =
    go (ltb n (days_in_year y)) refl
      (walk_years-IsWalked f (y + 1) (n - days_in_year y) (omega arith))
  where
    go :
        (b : Bool)
        → ltb n (days_in_year y) ≡ b
        → ((n - days_in_year y) + days_before_year (y + 1) < days_before_year (y + 1 + f)
            → IsWalked
                (days_before_year (y + 1) + (n - days_in_year y))
                (walk_years f (y + 1) (n - days_in_year y)))
        → IsWalked
            (days_before_year y + n)
            (elim b [ true ↦ (y, n) | false ↦ walk_years f (y + 1) (n - days_in_year y) ])
    go true here rest = (refl, ground (arith, here), one)
    go false on rest =
        let next = days_before_year-suc y one in
        let long : days_in_year y ≤ n = ground (arith, on) in
        let shift : y + 1 + f ≡ y + suc f = omega arith in
        let total : days_before_year (y + 1) + (n - days_in_year y) ≡ days_before_year y + n =
          omega (arith, next, long) in
        subst (λ t. IsWalked t (walk_years f (y + 1) (n - days_in_year y))) total
          (rest (rw (ap days_before_year shift) (omega (arith, h, total))))

days_before_month-suc :
    (y m : ℕ) → 1 ≤ m → days_before_month y (m + 1) ≡ days_before_month y m + days_in_month y m
unfolding days_before_month
days_before_month-suc y zero h = absurd (omega (arith, h))
days_before_month-suc y (suc m) h =
    let same : suc m + 1 ≡ suc (suc m) = omega arith in ap (days_before_month y) same

-- A date of the year `y` that has `total` days of the year before it.
abbrev IsDated : ℕ → ℕ → Date → Type 0
IsDated y total d =
    (d.year ≡ y)
    × (days_before_month y d.month + (d.day - 1) ≡ total)
    × (1 ≤ d.day)
    × (d.day ≤ days_in_month y d.month)
    × (d.month ≤ 12)

walk_months-IsDated :
    (f y m n : ℕ)
    → 1 ≤ m
    → m + f ≡ 13
    → n + days_before_month y m < days_before_month y 13
    → IsDated y (days_before_month y m + n) (walk_months f y m n)
unfolding walk_months
walk_months-IsDated zero y m n one end h =
    let last : m ≡ 13 = omega (arith, end) in
    let same : days_before_month y m ≡ days_before_month y 13 = ap (days_before_month y) last in
    absurd (omega (arith, h, same))
walk_months-IsDated (suc f) y m n one end h =
    go (ltb n (days_in_month y m)) refl
      (walk_months-IsDated f y (m + 1) (n - days_in_month y m) (omega arith) (omega (arith, end)))
  where
    go :
        (b : Bool)
        → ltb n (days_in_month y m) ≡ b
        → ((n - days_in_month y m) + days_before_month y (m + 1) < days_before_month y 13
            → IsDated y
                (days_before_month y (m + 1) + (n - days_in_month y m))
                (walk_months f y (m + 1) (n - days_in_month y m)))
        → IsDated y (days_before_month y m + n) (elim b [
          | true ↦ record { year = y; month = m; day = n + 1 }
          | false ↦ walk_months f y (m + 1) (n - days_in_month y m)
        ])
    go true here rest = (refl, omega arith, omega arith, ground (arith, here), omega (arith, end))
    go false on rest =
        let next = days_before_month-suc y m one in
        let long : days_in_month y m ≤ n = ground (arith, on) in
        let total : days_before_month y (m + 1) + (n - days_in_month y m)
            ≡ days_before_month y m + n =
          omega (arith, next, long) in
        subst (λ t. IsDated y t (walk_months f y (m + 1) (n - days_in_month y m))) total
          (rest (omega (arith, h, total)))

days_before_month-year : (y : ℕ) → days_before_month y 13 ≡ days_in_year y
unfolding days_before_month days_in_month days_in_year
days_before_month-year y = ground arith

first_month : (y : ℕ) → days_before_month y 1 ≡ 0
unfolding days_before_month
first_month y = refl

days_before_year-cycle : (c : ℕ) → days_before_year (c * 400 + 1) ≡ c * 146_097
unfolding days_before_year
days_before_year-cycle c = omega arith

days_before_year-next : (c : ℕ) → days_before_year (c * 400 + 1 + 400) ≡ c * 146_097 + 146_097
unfolding days_before_year
days_before_year-next c = omega arith

within_cycle :
    (n : ℕ)
    → n % 146_097 + days_before_year (n / 146_097 * 400 + 1)
      < days_before_year (n / 146_097 * 400 + 1 + 400)
within_cycle n =
    rw (days_before_year-cycle (n / 146_097), days_before_year-next (n / 146_097)) (omega arith)

cycle_total : (n : ℕ) → days_before_year (n / 146_097 * 400 + 1) + n % 146_097 ≡ n
cycle_total n = rw (days_before_year-cycle (n / 146_097)) (omega arith)

within_year :
    (y rest : ℕ) → rest < days_in_year y → rest + days_before_month y 1 < days_before_month y 13
within_year y rest h = rw (days_before_month-year y) (omega (arith, h, first_month y))

year_total :
    (y n rest months day : ℕ)
    → days_before_year y + rest ≡ n
    → months + (day - 1) ≡ days_before_month y 1 + rest
    → days_before_year y + months + (day - 1) ≡ n
year_total y n rest months day e e' = omega (arith, e, e', first_month y)

-- Every day has a date of the calendar, and is the day of its date.
pub date_of-IsDate :
    (n : ℕ)
    → (day_of (date_of n) ≡ n)
      × (1 ≤ (date_of n).day)
      × ((date_of n).day ≤ days_in_month (date_of n).year (date_of n).month)
      × ((date_of n).month ≤ 12)
unfolding date_of day_of
date_of-IsDate n =
    let (years, within, one) =
      walk_years-IsWalked 400 (n / 146_097 * 400 + 1) (n % 146_097) (omega arith)
        (within_cycle n) in
    dated (walk_years 400 (n / 146_097 * 400 + 1) (n % 146_097)) (years ∙ cycle_total n) within
  where
    dated :
        (r : ℕ × ℕ)
        → days_before_year r.0 + r.1 ≡ n
        → r.1 < days_in_year r.0
        → (day_of (walk_months 12 r.0 1 r.1) ≡ n)
          × (1 ≤ (walk_months 12 r.0 1 r.1).day)
          × ((walk_months 12 r.0 1 r.1).day
              ≤ days_in_month (walk_months 12 r.0 1 r.1).year (walk_months 12 r.0 1 r.1).month)
          × ((walk_months 12 r.0 1 r.1).month ≤ 12)
    dated (y, rest) e within =
        let (year, days, first, last, month) =
          walk_months-IsDated 12 y 1 rest (omega arith) refl (within_year y rest within) in
        (rw year (year_total y n rest _ _ e days), first, rw year last, month)

days_in_month-le : (y m : ℕ) → days_in_month y m ≤ 31
unfolding days_in_month
days_in_month-le y m = ground arith

fields_day :
    (y m d y' m' d' b b' : ℕ)
    → y * 10_000 + m * 100 + d ≡ y' * 10_000 + m' * 100 + d'
    → m ≤ 12
    → m' ≤ 12
    → d ≤ b
    → b ≤ 31
    → d' ≤ b'
    → b' ≤ 31
    → (y ≡ y') × (m ≡ m') × (d ≡ d')
fields_day y m d y' m' d' b b' same h h' k l k' l' = (omega arith, omega arith, omega arith)

same_day : (c d : Date) → c.year ≡ d.year → c.month ≡ d.month → c.day ≡ d.day → day_of c ≡ day_of d
unfolding day_of
same_day c d years months days = rw (years, months, days) refl

-- The digits of a date tell it from every other date of the calendar.
pub digits-date_of : (m n : ℕ) → digits (date_of m) ≡ digits (date_of n) → m ≡ n
unfolding digits
digits-date_of m n same =
    let (e, one, last, month) = date_of-IsDate m in
    let (e', one', last', month') = date_of-IsDate n in
    let most = days_in_month-le (date_of m).year (date_of m).month in
    let most' = days_in_month-le (date_of n).year (date_of n).month in
    let (years, months, days) =
      fields_day _ _ _ _ _ _ _ _ same month month' last most last' most' in
    sym e ∙ same_day (date_of m) (date_of n) years months days ∙ e'
