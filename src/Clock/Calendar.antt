-- ===== src/Clock/Calendar.antt =====
-- Day numbers and dates.
use cra_evidence.Prelude.{
  ℕ, zero, suc, ◌+◌, ◌-◌, ◌≤◌, ◌<◌, leb, if◌then◌else◌, ◌≡◌, arith, Bool-cases, inl, inr, leb→le,
}
use cra_evidence.Clock.{
  Date, is_leap_year, month_days, days_before_year, days_before_month, day_number, year_of,
  month_of, date_of_day,
}

pub record IsValid (d : Date) : Type 0 where
  pub year_in : 1 ≤ d.year
  pub month_in : (1 ≤ d.month) × (d.month ≤ 12)
  pub day_in : (1 ≤ d.day_of_month) × (d.day_of_month ≤ month_days d.year d.month)

abbrev pub year_days : ℕ → ℕ
year_days y = if is_leap_year y then 366 else 365

pub days_before_year-suc :
    (y : ℕ) → 1 ≤ y → days_before_year (y + 1) ≡ days_before_year y + year_days y
unfolding days_before_year is_leap_year
days_before_year-suc y h = ground arith

pub days_before_month-suc :
    (y m : ℕ)
    → 1 ≤ m
    → m ≤ 12
    → days_before_month y (m + 1) ≡ days_before_month y m + month_days y m
unfolding days_before_month month_days
days_before_month-suc y m lo hi = ground arith

pub month_days_bounds : (y m : ℕ) → (28 ≤ month_days y m) × (month_days y m ≤ 31)
unfolding month_days
month_days_bounds y m = ground arith

pub days_before_month-le : (y m : ℕ) → days_before_month y m ≤ year_days y
unfolding days_before_month
days_before_month-le y m = ground arith

-- A day number lies in the year that `year_of` finds.
pub year_of_bounds :
    (n : ℕ)
    → (days_before_year (year_of n) ≤ n) × (n < days_before_year (year_of n + 1)) × (1 ≤ year_of n)
unfolding year_of days_before_year
year_of_bounds n = ground arith

pub days_before_month-one : (y : ℕ) → days_before_month y 1 ≡ 0
unfolding days_before_month
days_before_month-one y = ground arith

pub days_before_month-thirteen : (y : ℕ) → days_before_month y 13 ≡ year_days y
unfolding days_before_month
days_before_month-thirteen y = ground arith

abbrev IsMonthOf : ℕ → ℕ → ℕ → Type 0
IsMonthOf y k m =
    (1 ≤ m) × (m ≤ 12) × (days_before_month y m ≤ k) × (k < days_before_month y (m + 1))

month_of-IsMonthOf :
    (y f k : ℕ) → f ≤ 12 → k < days_before_month y (f + 1) → IsMonthOf y k (month_of y f k)
unfolding month_of
month_of-IsMonthOf y zero k h lt = absurd (omega (arith, days_before_month-one y))
month_of-IsMonthOf y (suc f) k h lt = elim (Bool-cases (leb (days_before_month y (suc f)) k)) [
  | inl e ↦ rw e (omega arith, h, leb→le _ _ e, lt)
  | inr e ↦ rw e (month_of-IsMonthOf y f k (omega arith) (ground arith))
]

-- The date of a day number is a date of the calendar with that number.
pub date_of_day-IsValid : (n : ℕ) → IsValid (date_of_day n) × (day_number (date_of_day n) ≡ n)
unfolding date_of_day day_number
date_of_day-IsValid n =
    let y = year_of n in
    let k = n - days_before_year y in
    let (lo, hi, one) = year_of_bounds n in
    let (m1, m12, start, stop) =
      month_of-IsMonthOf y 12 k (omega arith)
        (omega (arith, days_before_month-thirteen y, days_before_year-suc y one)) in
    let m = month_of y 12 k in
    (
      record {
        year_in = one;
        month_in = (m1, m12);
        day_in = (omega arith, omega (arith, days_before_month-suc y m m1 m12));
      },
      omega arith,
    )
