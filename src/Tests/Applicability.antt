-- ===== src/Tests/Applicability.antt =====
-- Dates and periods of cra_evidence/applicability.py, at concrete instants.
use cra_evidence.Prelude.{◌-◌, ◌*◌, ◌<◌, arith, Option, none, codes, ok, ◌≡◌, refl}
use cra_evidence.Clock.{
  Instant, day, hour, date_of, date_of_day, year_of, month_of, days_before_year, days_before_month,
  is_leap_year, month_days, day_number, midnight, shift_months, add_months, parse_utc, strip,
  drop_space, drop_end, zulu, insert_colon, is_short_offset, to_utc, earlier, later, to_seconds,
}
use cra_evidence.Clock.Calendar.{IsValid}
use cra_evidence.Tests.Clock.{first, toy}
use cra_evidence.Applicability.{
  europe_brussels, art14_date, weekday, last_sunday, brussels_offset, brussels_midnight, day_start,
  local_date, add_years, years_after, per_reading, net, starts,
}
use cra_evidence.Applicability.Obligations.{
  manufacturer, vulnerability, Threshold, is_role, is_stream, date_for, threshold,
  earlier_awareness, art14_obligation,
}
use cra_evidence.Applicability.Horizons.{Horizon, until_of, horizon}
use cra_evidence.Applicability.Starts.{IsBrusselsMidnight, day_start-IsBrusselsMidnight}
use cra_evidence.Applicability.Years.{years_after-lt}
use cra_evidence.Applicability.Outcomes.{IsStart, IsOutcome, art14_obligation-IsOutcome}
use cra_evidence.Applicability.Cover.{IsCover, horizon-IsCover}

art14_date-IsValid : IsValid art14_date
unfolding month_days is_leap_year
art14_date-IsValid = record {
  year_in = omega arith;
  month_in = (omega arith, omega arith);
  day_in = (omega arith, omega arith);
}

-- Article 14 applies from 2026-09-10T22:00:00Z in Brussels.
art14_start : day_start art14_date europe_brussels ≡ ok (739869 * day - 2 * hour)
unfolding day_start brussels_midnight brussels_offset last_sunday weekday midnight date_of
    date_of_day year_of month_of days_before_year days_before_month is_leap_year day_number earlier
art14_start = refl

art14_day : day_number art14_date ≡ 739869
unfolding day_number days_before_year days_before_month is_leap_year
art14_day = refl

day_start-IsBrusselsMidnight_example :
    IsBrusselsMidnight (day_number art14_date) (day_start art14_date europe_brussels)
unfolding day_number days_before_year days_before_month is_leap_year
day_start-IsBrusselsMidnight_example =
    day_start-IsBrusselsMidnight art14_date art14_date-IsValid (omega arith) (omega arith)

-- Five years from 2027-01-10T00:00:00Z end with 2032-01-10, by the wall clock of Brussels.
five_years : years_after first 5 europe_brussels ≡ ok (741817 * day - hour)
unfolding years_after local_date add_years add_months shift_months month_days later day_start
    brussels_midnight brussels_offset last_sunday weekday midnight date_of date_of_day year_of
    month_of days_before_year days_before_month is_leap_year day_number earlier
five_years = refl

years_after-lt_example : first < 741817 * day - hour
years_after-lt_example =
    years_after-lt first 5 europe_brussels (741817 * day - hour) (omega arith) five_years

ten_years : (h : Horizon) × (horizon first 10 none ≡ ok h)
unfolding horizon per_reading until_of to_seconds years_after local_date add_years add_months
    shift_months month_days later day_start brussels_midnight brussels_offset last_sunday weekday
    midnight date_of date_of_day year_of month_of days_before_year days_before_month is_leap_year
    day_number earlier
ten_years = (_, refl)

horizon-IsCover_example : IsCover first 10 none ten_years.0.latest_until
horizon-IsCover_example = horizon-IsCover first 10 none ten_years.0 (omega arith) ten_years.1

reported :
    (o : Threshold × Option Instant) × (art14_obligation toy
        (codes "a")
        manufacturer
        vulnerability
        none
      ≡ ok o)
unfolding art14_obligation is_role is_stream earlier_awareness date_for threshold starts net
    parse_utc strip drop_space drop_end zulu insert_colon is_short_offset to_utc per_reading
    to_seconds day_start brussels_midnight brussels_offset last_sunday weekday midnight date_of
    date_of_day year_of month_of days_before_year days_before_month is_leap_year day_number earlier
reported = (_, refl)

art14_obligation-IsOutcome_example :
    (t : Instant) × (parse_utc toy (codes "a") ≡ ok t)
    × (s : Instant) × IsStart manufacturer s
    × IsOutcome s (day_number (date_for manufacturer) * day) t reported.0.0.verdict
art14_obligation-IsOutcome_example =
    art14_obligation-IsOutcome toy (codes "a") manufacturer vulnerability none reported.0 reported.1
