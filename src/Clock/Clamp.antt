-- ===== src/Clock/Clamp.antt =====
-- `add_months` of cra_evidence/vuln.py keeps the day of the month, or takes the last of a month that has fewer days.
use cra_evidence.Prelude.{
  ℕ, ◌+◌, ◌-◌, ◌*◌, ◌/◌, ◌%◌, ◌<◌, ◌≡◌, arith, ok, ◌⊎◌, inl, inr, Bool-cases, ltb, ltb→lt,
}
use cra_evidence.Clock.{Instant, Date, month_days, day_number, date_of, shift_months, add_months}
use cra_evidence.Clock.Calendar.{IsValid, date_of_day-IsValid}
use cra_evidence.Clock.Months.{shift_months-IsValid, add_months-ok}

-- An instant `u` on a date that is `n` calendar months behind that of `t`, at the same time of the day: on the same day of
-- the month, or on the last day of a month that has fewer days.
pub record IsMonthsOn (n : ℕ) (t u : Instant) : Type 0 where
  pub from_date : Date
  pub to_date : Date
  pub from_valid : IsValid from_date
  pub to_valid : IsValid to_date
  pub from_day : day_number from_date ≡ t / 86400000000
  pub to_day : day_number to_date ≡ u / 86400000000
  pub time : u % 86400000000 ≡ t % 86400000000
  pub months : to_date.year * 12 + to_date.month ≡ from_date.year * 12 + from_date.month + n
  pub day_kept :
      (to_date.day_of_month ≡ from_date.day_of_month)
      ⊎ ((to_date.day_of_month < from_date.day_of_month)
          × (to_date.day_of_month ≡ month_days to_date.year to_date.month))

shift_months-months :
    (n : ℕ) (d : Date)
    → IsValid d
    → (shift_months n d).year * 12 + (shift_months n d).month ≡ d.year * 12 + d.month + n
unfolding shift_months
shift_months-months n d v = omega (arith, v.month_in)

shift_months-day :
    (n : ℕ) (d : Date)
    → ((shift_months n d).day_of_month ≡ d.day_of_month)
      ⊎ (((shift_months n d).day_of_month < d.day_of_month)
          × ((shift_months n d).day_of_month
              ≡ month_days (shift_months n d).year (shift_months n d).month))
unfolding shift_months
shift_months-day n d =
    let k = d.month - 1 + n in
    let m = month_days (d.year + k / 12) (k % 12 + 1) in
    elim (Bool-cases (ltb m d.day_of_month)) [
      | inl h ↦ let l = ltb→lt m d.day_of_month h in inr (omega arith, omega arith)
      | inr h ↦ inl (ground arith)
    ]

-- `add_months` that returns an instant moves it on by whole calendar months: the day of the month and the time of the day
-- stay, or the day is the last of its month where that month has no such day.
pub add_months-IsMonthsOn : (t u : Instant) (n : ℕ) → add_months t n ≡ ok u → IsMonthsOn n t u
unfolding date_of
add_months-IsMonthsOn t u n h =
    let (valid, number) = date_of_day-IsValid (t / 86400000000) in
    let e = add_months-ok t u n h in
    record {
      from_date = date_of t;
      to_date = shift_months n (date_of t);
      from_valid = valid;
      to_valid = shift_months-IsValid n (date_of t) valid;
      from_day = number;
      to_day = omega (arith, e);
      time = omega (arith, e);
      months = shift_months-months n (date_of t) valid;
      day_kept = shift_months-day n (date_of t);
    }
