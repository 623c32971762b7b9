-- ===== src/Applicability.antt =====
-- cra_evidence/applicability.py: the start of a date of the Regulation under two readings of its time zone,
-- and the obligations and horizons that are computed under both.
pub mod Obligations
pub mod Horizons
pub mod Offset
pub mod Starts
pub mod Years
pub mod Outcomes
pub mod Cover
use cra_evidence.Prelude.{
  ℕ, ◌+◌, ◌-◌, ◌*◌, ◌/◌, ◌%◌, Bool, true, false, not, ◌&&◌, ltb, leb, ◌==◌, if◌then◌else◌, Option,
  none, some, Result, ok, raised, assertion_error, ◌>>=◌,
}
use cra_evidence.Clock.{
  Instant, hour, day, Date, later, earlier, to_seconds, date_of, midnight, add_months,
}

-- READINGS
pub data Reading : Type 0 where
  utc europe_brussels : Reading

abbrev pub date : ℕ → ℕ → ℕ → Date
date y m d = record { year = y; month = m; day_of_month = d }

abbrev pub art14_date : Date
art14_date = date 2026 9 11

abbrev pub full_application_date : Date
full_application_date = date 2027 12 11

-- `d.weekday()`; 0001-01-01 is a Monday.
unfoldable pub weekday : Instant → ℕ
weekday d = d / 86400000000 % 7

-- `_last_sunday(y, m)`
unfoldable pub last_sunday : ℕ → ℕ → Result Instant
unfolding weekday
last_sunday y m = do
  d ← if ltb m 12 then (midnight (date y (m + 1) 1) >>= earlier day) else midnight (date y 12 31)
  earlier ((weekday d + 1) % 7 * 86400000000) d

-- `brussels_offset`, in hours
unfoldable pub brussels_offset : Instant → Result ℕ
unfolding last_sunday date_of
brussels_offset u = do
  start ← last_sunday (date_of u).year 3
  end ← last_sunday (date_of u).year 10
  ok (if leb (start + hour) u && ltb u (end + hour) then 2 else 1)

-- The loop over the two candidates of `day_start`.
unfoldable pub brussels_midnight : Instant → Result Instant
brussels_midnight local = do
  summer ← earlier (2 * hour) local
  at_summer ← brussels_offset summer
  let in_winter = do
    winter ← earlier hour local
    at_winter ← brussels_offset winter
    if at_winter == 1 then ok winter else raised assertion_error
  if at_summer == 2 then ok summer else in_winter

unfoldable pub day_start : Date → Reading → Result Instant
unfolding brussels_midnight
day_start d utc = midnight d
day_start d europe_brussels = midnight d >>= brussels_midnight

unfoldable pub local_date : Instant → Reading → Result Date
unfolding brussels_offset
local_date u utc = ok (date_of u)
local_date u europe_brussels = do
  offset ← brussels_offset u
  l ← later (offset * hour) u
  ok (date_of l)

unfoldable pub add_years : Instant → ℕ → Result Instant
add_years d years = add_months d (12 * years)

unfoldable pub years_after : Instant → ℕ → Reading → Result Instant
unfolding local_date add_years day_start
years_after event years r = do
  on ← local_date event r
  first ← midnight on
  same ← add_years first years
  next ← later day same
  day_start (date_of next) r

-- A value for each reading, and `_net`: the value, where both readings agree.
pub record Both {ℓ} (A : Type ℓ) : Type ℓ where
  pub at_utc : A
  pub at_brussels : A

unfoldable pub per_reading {ℓ} : {A : Type ℓ} → (Reading → Result A) → Result (Both A)
per_reading f = do a ← f utc; b ← f europe_brussels; ok (record { at_utc = a; at_brussels = b })

unfoldable pub net : Both Bool → Option Bool
net b =
    if b.at_utc
    then (if b.at_brussels then some true else none)
    else if b.at_brussels
    then none
    else some false

-- `_starts`
unfoldable pub starts : Date → Result (Both Instant)
unfolding per_reading
starts d = per_reading (λ r. day_start d r >>= λ s. ok (to_seconds s))
