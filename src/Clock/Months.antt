-- ===== src/Clock/Months.antt =====
-- `add_months` of cra_evidence/vuln.py moves an instant by the days of the months between, and keeps its time.
use cra_evidence.Prelude.{
  ℕ, zero, suc, ◌+◌, ◌-◌, ◌*◌, ◌/◌, ◌%◌, ◌≤◌, ◌<◌, min, ◌≡◌, subst, arith, ok, inl, inr, Bool-cases,
  ltb, ltb→lt,
}
use native.Mathlib.Nat.{add-zero}
use cra_evidence.Clock.{
  Instant, day, Date, month_days, days_before_year, days_before_month, day_number, date_of,
  midnight, shift_months, add_months,
}
use cra_evidence.Clock.Calendar.{
  IsValid, days_before_year-suc, days_before_month-suc, month_days_bounds, days_before_month-le,
  days_before_month-one, days_before_month-thirteen, date_of_day-IsValid,
}

days_before_year_mono : (y k : ℕ) → 1 ≤ y → days_before_year y ≤ days_before_year (y + k)
unfolding days_before_year
days_before_year_mono y k h = omega arith

pub shift_months-IsValid : (n : ℕ) (d : Date) → IsValid d → IsValid (shift_months n d)
unfolding shift_months
shift_months-IsValid n d v = record {
  year_in = omega (arith, v.year_in);
  month_in = (omega arith, omega arith);
  day_in = (
    omega (
      arith,
      v.day_in,
      month_days_bounds (d.year + (d.month - 1 + n) / 12) ((d.month - 1 + n) % 12 + 1),
    ),
    omega arith,
  );
}

-- A date lies within its year.
pub day_number-lt : (d : Date) → IsValid d → day_number d < days_before_year (d.year + 1)
unfolding day_number
day_number-lt d v = omega (
  arith,
  v.month_in,
  v.day_in,
  days_before_month-suc d.year d.month v.month_in.0 v.month_in.1,
  days_before_month-le d.year (d.month + 1),
  days_before_year-suc d.year v.year_in,
)

day_number-ge : (d : Date) → days_before_year d.year ≤ day_number d
unfolding day_number
day_number-ge d = omega arith

-- A month within the year, and December.
one_month_inner :
    (y m a : ℕ)
    → 1 ≤ m
    → m < 12
    → 1 ≤ a
    → a ≤ month_days y m
    → (days_before_month y m + a + 28 ≤ days_before_month y (m + 1) + min a (month_days y (m + 1)))
      × (days_before_month y (m + 1) + min a (month_days y (m + 1))
          ≤ days_before_month y m + a + 31)
one_month_inner y m a lo hi one le = omega (
  arith,
  days_before_month-suc y m lo (omega arith),
  month_days_bounds y m,
  month_days_bounds y (m + 1),
)

one_month_december :
    (y a : ℕ)
    → 1 ≤ y
    → 1 ≤ a
    → a ≤ month_days y 12
    → (days_before_year y + days_before_month y 12 + a + 28
        ≤ days_before_year (y + 1) + days_before_month (y + 1) 1 + min a (month_days (y + 1) 1))
      × (days_before_year (y + 1) + days_before_month (y + 1) 1 + min a (month_days (y + 1) 1)
          ≤ days_before_year y + days_before_month y 12 + a + 31)
one_month_december y a h one le = omega (
  arith,
  days_before_month-suc y 12 (omega arith) (omega arith),
  days_before_month-one (y + 1),
  days_before_month-thirteen y,
  days_before_year-suc y h,
  month_days_bounds y 12,
  month_days_bounds (y + 1) 1,
)

-- One month on is 28 to 31 days on.
pub one_month :
    (d : Date)
    → IsValid d
    → (day_number d + 28 ≤ day_number (shift_months 1 d))
      × (day_number (shift_months 1 d) ≤ day_number d + 31)
unfolding shift_months day_number
one_month d v = elim (Bool-cases (ltb d.month 12)) [
  | inl e ↦
      let q : (d.month - 1 + 1) / 12 ≡ 0 = omega (arith, v.month_in, ltb→lt _ _ e) in
      let r : (d.month - 1 + 1) % 12 ≡ d.month = omega (arith, v.month_in, ltb→lt _ _ e) in
      rw (q, r, add-zero)
        (omega (
          arith,
          v.day_in,
          month_days_bounds d.year (d.month + 1),
          one_month_inner d.year d.month d.day_of_month v.month_in.0 (ltb→lt _ _ e) v.day_in.0
              v.day_in.1,
        ))
  | inr e ↦
      let m : d.month ≡ 12 = ground (arith, v.month_in) in
      rw m (
        omega (
          arith,
          v.day_in,
          month_days_bounds (d.year + 1) 1,
          one_month_december d.year d.day_of_month v.year_in v.day_in.0
              (subst (λ x. d.day_of_month ≤ month_days d.year x) m v.day_in.1),
        ))
]

-- Whole years on is no earlier.
pub whole_years :
    (k : ℕ) (d : Date) → IsValid d → day_number d ≤ day_number (shift_months (12 * k) d)
unfolding shift_months day_number
whole_years zero d v =
    let q : (d.month - 1 + 12 * 0) / 12 ≡ 0 = omega (arith, v.month_in) in
    let r : (d.month - 1 + 12 * 0) % 12 + 1 ≡ d.month = omega (arith, v.month_in) in
    rw (q, r, add-zero) (omega (arith, v.day_in))
whole_years (suc k) d v = omega (
  arith,
  v.month_in,
  v.day_in,
  day_number-lt d v,
  days_before_year_mono (d.year + 1) k (omega arith),
  day_number-ge (shift_months (12 * suc k) d),
)

-- What a call of `add_months` returns.
pub add_months-ok :
    (t u : Instant) (n : ℕ)
    → add_months t n ≡ ok u
    → u ≡ day_number (shift_months n (date_of t)) * 86400000000 + t % 86400000000
unfolding add_months midnight
add_months-ok t u n h = ground arith

-- One month on is 28 to 31 days on.
pub add_months-one :
    (t u : Instant) → add_months t 1 ≡ ok u → (t + 28 * day ≤ u) × (u ≤ t + 31 * day)
unfolding date_of
add_months-one t u h =
    let (valid, number) = date_of_day-IsValid (t / 86400000000) in
    omega (arith, add_months-ok t u 1 h, one_month (date_of t) valid, number)

-- Whole years on is no earlier.
pub add_months-years : (k : ℕ) (t u : Instant) → add_months t (12 * k) ≡ ok u → t ≤ u
unfolding date_of
add_months-years k t u h =
    let (valid, number) = date_of_day-IsValid (t / 86400000000) in
    omega (arith, add_months-ok t u (12 * k) h, whole_years k (date_of t) valid, number)
