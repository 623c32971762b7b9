-- ===== src/Tests/Vuln.antt =====
-- The clock of cra_evidence/vuln.py at one severe incident, whose notification was sent a day after awareness.
use cra_evidence.Prelude.{
  ◌+◌, ◌*◌, arith, true, false, none, some, codes, text_eq, ok, ◌≡◌, ◌↔◌, refl,
}
use cra_evidence.Clock.{
  day, date_of, date_of_day, year_of, month_of, days_before_year, days_before_month, is_leap_year,
  month_days, day_number, midnight, shift_months, add_months, parse_utc, strip, drop_space,
  drop_end, zulu, insert_colon, is_short_offset, to_utc, earlier, later, to_seconds,
}
use cra_evidence.Tests.Clock.{first, toy}
use cra_evidence.Applicability.Obligations.{incident, is_stream, parse_given}
use cra_evidence.Vuln.{
  VulnerabilityRecord, aware, is_status, check_sent, check_parses, post_init, Deadlines,
  is_incident, incident_due, fix_due, final_due, deadlines, stage_state, stage, Overdue, overdue_of,
  overdue_at,
}
use cra_evidence.Vuln.Stages.{IsAnyMissed, overdue_at-IsAnyMissed, overdue_at-later}
use cra_evidence.Vuln.Times.{IsDue, deadlines-IsDue}
use cra_evidence.Vuln.Total.{IsEarly, post_init-overdue_at}

abbrev outage : VulnerabilityRecord
outage = record {
  product_id = codes "P1";
  vuln_id = codes "INC-1";
  actively_exploited = false;
  awareness_utc = codes "a";
  status = aware;
  corrective_available_utc = none;
  record_id = codes "r";
  kind = incident;
  early_warning_sent_utc = none;
  notification_sent_utc = some (codes "b");
  final_report_sent_utc = none;
}

accepted : post_init toy (λ s. text_eq s (codes "r")) first outage ≡ ok tt
unfolding post_init is_stream is_status check_sent check_parses parse_utc strip drop_space drop_end
    zulu insert_colon is_short_offset to_utc earlier later text_eq
accepted = refl

due : (d : Deadlines) × (deadlines toy outage ≡ ok d)
unfolding deadlines final_due is_incident incident_due fix_due parse_given add_months shift_months
    month_days midnight date_of date_of_day year_of month_of days_before_year days_before_month
    is_leap_year day_number parse_utc strip drop_space drop_end zulu insert_colon is_short_offset
    to_utc earlier later to_seconds
due = (_, refl)

deadlines-IsDue_example : IsDue toy outage due.0
deadlines-IsDue_example = deadlines-IsDue toy outage due.0 due.1

-- Two days after awareness the early warning is overdue.
two_days : (o : Overdue) × (overdue_at toy outage (first + 2 * day) true ≡ ok o)
unfolding overdue_at overdue_of stage stage_state deadlines final_due is_incident incident_due
    fix_due parse_given add_months shift_months month_days midnight date_of date_of_day year_of
    month_of days_before_year days_before_month is_leap_year day_number parse_utc strip drop_space
    drop_end zulu insert_colon is_short_offset to_utc earlier later to_seconds
two_days = (_, refl)

two_days_any : two_days.0.any_overdue ≡ true
unfolding two_days
two_days_any = refl

overdue_at-IsAnyMissed_example :
    (d : Deadlines) × (deadlines toy outage ≡ ok d)
    × ((two_days.0.any_overdue ≡ true) ↔ IsAnyMissed d (first + 2 * day) outage)
overdue_at-IsAnyMissed_example =
    overdue_at-IsAnyMissed toy outage (first + 2 * day) two_days.0 two_days.1

overdue_at-later_example :
    (p : Overdue) × (overdue_at toy outage (first + 9 * day) true ≡ ok p)
    × (two_days.0.any_overdue ≡ true → p.any_overdue ≡ true)
    × (p.late_submissions ≡ two_days.0.late_submissions)
overdue_at-later_example =
    overdue_at-later toy outage (first + 2 * day) (first + 9 * day) true two_days.0 (omega arith)
      two_days.1

notification-IsEarly : IsEarly toy (some (codes "b"))
unfolding parse_given parse_utc strip drop_space drop_end zulu insert_colon is_short_offset to_utc
    earlier later
notification-IsEarly t h = let e : first + day ≡ t = cc in omega (arith, e)

fix-IsEarly : IsEarly toy none
unfolding parse_given
fix-IsEarly t h = cc

post_init-overdue_at_example : (o : Overdue) × (overdue_at toy outage (first + 2 * day) true ≡ ok o)
post_init-overdue_at_example =
    post_init-overdue_at toy (λ s. text_eq s (codes "r")) first (first + 2 * day) outage true
      accepted (omega arith) notification-IsEarly fix-IsEarly
