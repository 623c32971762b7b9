-- ===== src/Applicability/Outcomes.antt =====
-- The outcomes of `art14_obligation`, `_horizon` and `support_period` of cra_evidence/applicability.py.
use cra_evidence.Prelude.{
  ◌+◌, ◌*◌, ◌≤◌, ◌<◌, Text, Bool, true, false, leb, Option, none, some, ok, guard, ◌>>=◌, ◌>>◌,
  bind-ok, value_error, ◌≡◌, ◌↔◌, sym, ◌∙◌, subst, arith,
}
use cra_evidence.Clock.{
  month_days, days_before_year, days_before_month, Instant, hour, day, Date, Datetime, parse_utc,
  day_number, to_seconds,
}
use cra_evidence.Clock.Calendar.{IsValid}
use cra_evidence.Applicability.{utc, europe_brussels, day_start, Both, per_reading, net, starts}
use cra_evidence.Applicability.Obligations.{
  Role, manufacturer, open_source_steward, other_role, Stream, Threshold, threshold, date_for,
  is_role, is_stream, earlier_awareness, art14_obligation,
}
use cra_evidence.Applicability.Starts.{day_start-IsBrusselsMidnight, midnight-ok}

-- What both readings say of an instant, where the day starts at `s` in Brussels and at `m` in UTC.
pub record IsOutcome (s m at : Instant) (verdict : Option Bool) : Type 0 where
  pub yes : (verdict ≡ some true) ↔ (m ≤ at)
  pub no : (verdict ≡ some false) ↔ (at < s)
  pub depends : (verdict ≡ none) ↔ ((s ≤ at) × (at < m))

abbrev both_of : Instant → Instant → Instant → Both Bool
both_of s m at = record { at_utc = leb m at; at_brussels = leb s at }

net-IsOutcome : (s m at : Instant) → s < m → IsOutcome s m at (net (both_of s m at))
unfolding net
net-IsOutcome s m at h = record { yes = ground arith; no = ground arith; depends = ground arith }

threshold-of :
    (d : Date) (s m at : Instant) (t : Threshold)
    → day_start d utc ≡ ok m
    → day_start d europe_brussels ≡ ok s
    → threshold d at ≡ ok t
    → t.verdict ≡ net (both_of s m at)
unfolding threshold per_reading
threshold-of d s m at t e f h =
    let (from, g, k) =
      bind-ok (starts d)
        (λ from. ok (record {
          at = to_seconds at;
          verdict = net (both_of s m at);
          readings = both_of s m at;
          applies_from = from;
        }))
        (rw (e, f) at h) in
    cc

-- The two dates that roles are bound from.
date_for-IsValid :
    (r : Role) → IsValid (date_for r) × ((date_for r).year ≤ 9999) × (1 ≤ day_number (date_for r))
unfolding date_for month_days day_number days_before_year days_before_month
date_for-IsValid manufacturer = (
  record {
    year_in = omega arith;
    month_in = (omega arith, omega arith);
    day_in = (omega arith, omega arith);
  },
  omega arith,
  omega arith,
)
date_for-IsValid open_source_steward = (
  record {
    year_in = omega arith;
    month_in = (omega arith, omega arith);
    day_in = (omega arith, omega arith);
  },
  omega arith,
  omega arith,
)
date_for-IsValid other_role = (
  record {
    year_in = omega arith;
    month_in = (omega arith, omega arith);
    day_in = (omega arith, omega arith);
  },
  omega arith,
  omega arith,
)

-- The start of a role's day in Brussels, one or two hours before that in UTC.
pub record IsStart (r : Role) (s : Instant) : Type 0 where
  pub found : day_start (date_for r) europe_brussels ≡ ok s
  pub at_least : s + hour ≤ day_number (date_for r) * day
  pub at_most : day_number (date_for r) * day ≤ s + 2 * hour

date_for-IsStart : (r : Role) → (s : Instant) × IsStart r s
date_for-IsStart r =
    let (v, hi, one) = date_for-IsValid r in
    let b = day_start-IsBrusselsMidnight (date_for r) v hi one in
    (
      b.start,
      record {
        found = b.returns;
        at_least = omega (arith, b.is_midnight, b.one_or_two);
        at_most = omega (arith, b.is_midnight, b.one_or_two);
      },
    )

-- Where the obligation of a role is computed, the trigger is an instant, and there is a start of the role's day in
-- Brussels, one or two hours before that in UTC, such that the obligation arises exactly from the start in UTC on,
-- does not arise exactly before the start in Brussels, and depends on the reading exactly between the two.
pub art14_obligation-IsOutcome :
    (dt : Datetime) (trigger : Text) (r : Role) (stream : Stream) (known : Option Text)
    (o : Threshold × Option Instant)
    → art14_obligation dt trigger r stream known ≡ ok o
    → (t : Instant) × (parse_utc dt trigger ≡ ok t)
      × (s : Instant) × IsStart r s
      × IsOutcome s (day_number (date_for r) * day) t o.0.verdict
unfolding art14_obligation day_start
art14_obligation-IsOutcome dt trigger r stream known o h =
    let (v, hi, one) = date_for-IsValid r in
    let (s, start) = date_for-IsStart r in
    let (a, e1, h1) =
      bind-ok (guard (is_role r) value_error)
        (λ a. guard (is_stream stream) value_error >> (do
          t ← parse_utc dt trigger
          va ← earlier_awareness dt stream t known
          o ← threshold (date_for r) t
          ok (o, va)))
        h in
    let (b, e2, h2) =
      bind-ok (guard (is_stream stream) value_error)
        (λ b. do
          t ← parse_utc dt trigger
          va ← earlier_awareness dt stream t known
          o ← threshold (date_for r) t
          ok (o, va))
        h1 in
    let (t, e3, h3) =
      bind-ok (parse_utc dt trigger)
        (λ t. do va ← earlier_awareness dt stream t known; o ← threshold (date_for r) t; ok (o, va))
        h2 in
    let (va, e4, h4) =
      bind-ok (earlier_awareness dt stream t known)
        (λ va. threshold (date_for r) t >>= λ o. ok (o, va)) h3 in
    let (w, e5, h5) = bind-ok (threshold (date_for r) t) (λ o. ok (o, va)) h4 in
    let e =
      threshold-of (date_for r) s (day_number (date_for r) * day) t w
        (midnight-ok (date_for r) v hi) start.found e5 in
    let same : o.0.verdict ≡ w.verdict = cc in
    (
      t,
      e3,
      s,
      start,
      subst (IsOutcome s (day_number (date_for r) * day) t) (sym (same ∙ e))
          (net-IsOutcome s (day_number (date_for r) * day) t (omega (arith, start.at_least))),
    )
