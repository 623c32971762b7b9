-- ===== src/Applicability/Offset.antt =====
-- The Brussels offset of cra_evidence/applicability.py without its exceptions.
use cra_evidence.Prelude.{
  ℕ, ◌+◌, ◌-◌, ◌*◌, ◌/◌, ◌%◌, ◌≤◌, ◌<◌, Bool, true, false, ◌&&◌, ltb, leb, if◌then◌else◌, ok, ◌≡◌,
  refl, arith,
}
use cra_evidence.Clock.{
  Instant, hour, end_of_time, earlier, date_of, date_of_day, midnight, days_before_year,
  days_before_month, day_number, year_of,
}
use cra_evidence.Clock.Calendar.{year_of_bounds}
use cra_evidence.Applicability.{date, weekday, last_sunday, brussels_offset}

-- The day number of the last Sunday of March, or of October.
pub sunday : ℕ → ℕ → ℕ
sunday y m = let l = day_number (date y (m + 1) 1) - 1 in l - (l % 7 + 1) % 7

march_late : (y : ℕ) → 89 ≤ day_number (date y 4 1)
unfolding day_number days_before_month
march_late y = ground arith

october_late : (y : ℕ) → 89 ≤ day_number (date y 11 1)
unfolding day_number days_before_month
october_late y = ground arith

last_sunday-of :
    (y m : ℕ)
    → 1 ≤ y
    → y ≤ 9999
    → m < 12
    → 89 ≤ day_number (date y (m + 1) 1)
    → last_sunday y m ≡ ok (sunday y m * 86400000000)
unfolding last_sunday midnight earlier weekday sunday
last_sunday-of y m lo hi lt late = ground arith

-- Years of instants.
year_of-le : (u : Instant) → u < end_of_time → year_of (u / 86400000000) ≤ 9999
unfolding days_before_year
year_of-le u h = omega (arith, year_of_bounds (u / 86400000000))

-- Whether summer time is in force.
pub summer_time : ℕ → Instant → Bool
summer_time y u =
    leb (sunday y 3 * 86400000000 + hour) u && ltb u (sunday y 10 * 86400000000 + hour)

abbrev pub offset_of : Instant → ℕ
offset_of u = if summer_time (year_of (u / 86400000000)) u then 2 else 1

pub brussels_offset_of : (u : Instant) → u < end_of_time → brussels_offset u ≡ ok (offset_of u)
unfolding brussels_offset summer_time date_of date_of_day
brussels_offset_of u h =
    let y = year_of (u / 86400000000) in
    let (lo, hi, one) = year_of_bounds (u / 86400000000) in
    rw
      (
        last_sunday-of y 3 one (year_of-le u h) (omega arith) (march_late y),
        last_sunday-of y 10 one (year_of-le u h) (omega arith) (october_late y),
      )
      refl

-- Between two and one hours before a midnight summer time does not begin: it begins at 01:00.
pub no_spring_at_midnight :
    (y n : ℕ)
    → 1 ≤ n
    → summer_time y (n * 86400000000 - 2 * hour) ≡ false
    → summer_time y (n * 86400000000 - hour) ≡ false
unfolding summer_time
no_spring_at_midnight y n h e = ground arith

-- Nor does it end there.
pub no_autumn_at_midnight :
    (y n e : ℕ)
    → 1 ≤ n
    → summer_time y (n * 86400000000 - 2 * hour) ≡ true
    → n * 86400000000 ≤ e + 2 * hour
    → e + hour < n * 86400000000
    → summer_time y e ≡ true
unfolding summer_time
no_autumn_at_midnight y n e h s lo hi = ground arith
