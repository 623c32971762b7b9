-- ===== src/Vuln/Total.antt =====
-- `_overdue` of cra_evidence/vuln.py answers for a record that its constructor let through, if the dates of the
-- record keep clear of the year 10000.
use cra_evidence.Prelude.{
  ℕ, ◌+◌, ◌*◌, ◌/◌, ◌%◌, ◌≤◌, ◌<◌, Text, Bool, true, not, leb, [], ◌∷◌, Option, none, some, ◌≡◌,
  refl, is_empty, arith, leb→le, Result, ok, value_error, guard, bind-ok, ◌>>=◌, ◌>>◌, >>-ok_iff,
  guard-ok_iff, Bool-cases, inl, inr,
}
use cra_evidence.Clock.{
  Instant, hour, day, end_of_time, Datetime, later, to_seconds, strip, parse_utc, Date, midnight,
  date_of, shift_months, add_months, days_before_year, day_number,
}
use cra_evidence.Clock.Calendar.{date_of_day-IsValid}
use cra_evidence.Clock.Months.{one_month, shift_months-IsValid}
use cra_evidence.Applicability.Obligations.{is_stream, parse_given}
use cra_evidence.Vuln.{
  VulnerabilityRecord, is_status, clock_skew, check_sent, check_parses, post_init, Deadlines,
  deadlines, FinalBasis, is_incident, incident_due, fix_due, final_due, quiet, stage_state, stage,
  when, Overdue, overdue_of, overdue_at,
}

-- A call that gives a value.
unfoldable pub Returns : {A : Type 0} → Result A → Type 0
Returns {A} r = (a : A) × (r ≡ ok a)

bind-Returns :
    {A B : Type 0} (first : Result A) (next : A → Result B)
    → Returns first
    → ((a : A) → first ≡ ok a → Returns (next a))
    → Returns (first >>= next)
unfolding Returns
bind-Returns first next (a, e) k = let (b, f) = k a e in (b, rw e f)

later-Returns : (n : ℕ) (t : Instant) → t + n < end_of_time → Returns (later n t)
unfolding Returns later
later-Returns n t h = (t + n, ground arith)

midnight-Returns : (d : Date) → 1 ≤ d.year → day_number d < 3652059 → Returns (midnight d)
unfolding Returns midnight day_number days_before_year
midnight-Returns d one h = (day_number d * 86400000000, ground arith)

add_months-Returns : (t : Instant) → t + 31 * day < end_of_time → Returns (add_months t 1)
unfolding Returns add_months date_of
add_months-Returns t h =
    let (valid, number) = date_of_day-IsValid (t / 86400000000) in
    let moved = shift_months-IsValid 1 (date_of t) valid in
    let (m, e) =
      midnight-Returns (shift_months 1 (date_of t)) moved.year_in
        (omega (arith, number, one_month (date_of t) valid)) in
    (m + t % 86400000000, rw e refl)

-- A text that was given is parsed to an instant that leaves a month to the end of time.
abbrev pub IsEarly : Datetime → Option Text → Type 0
IsEarly dt v = (t : Instant) → parse_given dt v ≡ ok (some t) → t + 31 * day < end_of_time

check_parses-Returns :
    (dt : Datetime) (v : Option Text) → check_parses dt v ≡ ok tt → Returns (parse_given dt v)
unfolding Returns check_parses parse_given
check_parses-Returns dt none h = (none, refl)
check_parses-Returns dt (some []) h = (none, refl)
check_parses-Returns dt (some (c ∷ s)) h =
    let (t, e, k) = bind-ok (parse_utc dt (c ∷ s)) (λ t. ok tt) h in (some t, rw e refl)

check_sent-Returns :
    (dt : Datetime) (aw : Text) (v : Option Text)
    → check_sent dt aw v ≡ ok tt
    → Returns (parse_given dt v)
unfolding Returns check_sent parse_given
check_sent-Returns dt aw none h = (none, refl)
check_sent-Returns dt aw (some []) h = (none, refl)
check_sent-Returns dt aw (some (c ∷ s)) h =
    let (t, e, k) =
      bind-ok (parse_utc dt (c ∷ s)) (λ at. do a ← parse_utc dt aw; guard (leb a at) value_error)
        h in
    (some t, rw e refl)

stage-Returns :
    (dt : Datetime) (now : Instant) (due : Option Instant) (sent : Option Text)
    → Returns (parse_given dt sent)
    → Returns (stage dt now due sent)
unfolding Returns stage
stage-Returns dt now none sent r = (quiet, refl)
stage-Returns dt now (some d) sent (at, e) = (stage_state now (some d) at, rw e refl)

-- What the constructor tells of the texts.
record IsChecked (dt : Datetime) (now : Instant) (r : VulnerabilityRecord) : Type 0 where
  early : Returns (parse_given dt r.early_warning_sent_utc)
  notification : Returns (parse_given dt r.notification_sent_utc)
  final : Returns (parse_given dt r.final_report_sent_utc)
  awareness : Instant
  parsed : parse_utc dt r.awareness_utc ≡ ok awareness
  not_later : awareness ≤ now + clock_skew
  fix : Returns (parse_given dt r.corrective_available_utc)

later-le : (n : ℕ) (t u a : Instant) → later n t ≡ ok u → leb a u ≡ true → a ≤ t + n
unfolding later
later-le n t u a h le = ground (arith, leb→le a u le)

post_init-IsChecked :
    (dt : Datetime) (is_uuid : Text → Bool) (now : Instant) (r : VulnerabilityRecord)
    → post_init dt is_uuid now r ≡ ok tt
    → IsChecked dt now r
unfolding post_init
post_init-IsChecked dt is_uuid now r h =
    let k1 = ((>>-ok_iff (guard (not (is_empty (strip dt r.vuln_id))) value_error) _).0 h).1 in
    let k2 = ((>>-ok_iff (guard (is_stream r.kind) value_error) _).0 k1).1 in
    let k3 = ((>>-ok_iff (guard (is_status r.status) value_error) _).0 k2).1 in
    let (e, k4) = (>>-ok_iff (check_sent dt r.awareness_utc r.early_warning_sent_utc) _).0 k3 in
    let (n, k5) = (>>-ok_iff (check_sent dt r.awareness_utc r.notification_sent_utc) _).0 k4 in
    let (f, k6) = (>>-ok_iff (check_sent dt r.awareness_utc r.final_report_sent_utc) _).0 k5 in
    let k7 = ((>>-ok_iff (guard (is_uuid r.record_id) value_error) _).0 k6).1 in
    let (aw, parsed, k8) =
      bind-ok (parse_utc dt r.awareness_utc)
        (λ aw. do
          limit ← later clock_skew now
          guard (leb aw limit) value_error
          check_parses dt r.corrective_available_utc)
        k7 in
    let (limit, l, k9) =
      bind-ok (later clock_skew now)
        (λ limit. do guard (leb aw limit) value_error; check_parses dt r.corrective_available_utc)
        k8 in
    let (g, c) =
      (>>-ok_iff (guard (leb aw limit) value_error) (check_parses dt r.corrective_available_utc)).0
        k9 in
    record {
      early = check_sent-Returns dt r.awareness_utc r.early_warning_sent_utc e;
      notification = check_sent-Returns dt r.awareness_utc r.notification_sent_utc n;
      final = check_sent-Returns dt r.awareness_utc r.final_report_sent_utc f;
      awareness = aw;
      parsed = parsed;
      not_later =
          later-le clock_skew now limit aw l ((guard-ok_iff (leb aw limit) value_error).0 g);
      fix = check_parses-Returns dt r.corrective_available_utc c;
    }

incident_due-Returns :
    (dt : Datetime) (v : Option Text) (sent : Option Instant)
    → IsEarly dt v
    → parse_given dt v ≡ ok sent
    → Returns (incident_due sent)
unfolding Returns incident_due
incident_due-Returns dt v none early e = (_, refl)
incident_due-Returns dt v (some t) early e =
    bind-Returns (add_months t 1)
      (λ due. ok (some (to_seconds due), FinalBasis.month_after_submission))
      (add_months-Returns t (early t e)) (λ u k. (_, refl))

fix_due-Returns :
    (dt : Datetime) (v : Option Text) (fix : Option Instant)
    → IsEarly dt v
    → parse_given dt v ≡ ok fix
    → Returns (fix_due fix)
unfolding Returns fix_due
fix_due-Returns dt v none early e = (_, refl)
fix_due-Returns dt v (some t) early e =
    bind-Returns (later (14 * day) t) (λ due. ok (some (to_seconds due), FinalBasis.days_after_fix))
      (later-Returns (14 * day) t (omega (arith, early t e))) (λ u k. (_, refl))

final_due-Returns :
    (dt : Datetime) (r : VulnerabilityRecord) (sent fix : Option Instant)
    → IsEarly dt r.notification_sent_utc
    → IsEarly dt r.corrective_available_utc
    → parse_given dt r.notification_sent_utc ≡ ok sent
    → parse_given dt r.corrective_available_utc ≡ ok fix
    → Returns (final_due dt r fix)
unfolding Returns final_due
final_due-Returns dt r sent fix early_sent fix-IsEarly e1 e2 =
    elim (Bool-cases (is_incident r.kind)) [
      | inl e ↦ rw (e, e1) (incident_due-Returns dt r.notification_sent_utc sent early_sent e1)
      | inr e ↦ rw e (fix_due-Returns dt r.corrective_available_utc fix fix-IsEarly e2)
    ]

deadlines-Returns :
    (dt : Datetime) (now : Instant) (r : VulnerabilityRecord)
    → IsChecked dt now r
    → now + clock_skew + 72 * hour < end_of_time
    → IsEarly dt r.notification_sent_utc
    → IsEarly dt r.corrective_available_utc
    → Returns (deadlines dt r)
unfolding Returns deadlines
deadlines-Returns dt now r c room early_sent fix-IsEarly =
    let (fix, f) = c.fix in
    let (sent, s) = c.notification in
    let (final, l) = final_due-Returns dt r sent fix early_sent fix-IsEarly s f in
    let (e, e_ok) = later-Returns (24 * hour) c.awareness (omega (arith, c.not_later)) in
    let (n, n_ok) = later-Returns (72 * hour) c.awareness (omega (arith, c.not_later)) in
    let d : Deadlines = record {
      early_warning_due = to_seconds e;
      notification_due = to_seconds n;
      final_report_due = final.0;
      final_report_basis = final.1;
    } in
    (d, rw (c.parsed, f, l, e_ok, n_ok) refl)

-- A record that its constructor accepted at `now` has an answer at every later instant, if the notification
-- and the corrective measure leave a month to the year 10000, and the constructor's clock three days.
pub post_init-overdue_at :
    (dt : Datetime) (is_uuid : Text → Bool) (now at : Instant) (r : VulnerabilityRecord)
    (applicable : Bool)
    → post_init dt is_uuid now r ≡ ok tt
    → now + clock_skew + 72 * hour < end_of_time
    → IsEarly dt r.notification_sent_utc
    → IsEarly dt r.corrective_available_utc
    → (o : Overdue) × (overdue_at dt r at applicable ≡ ok o)
unfolding Returns overdue_at
post_init-overdue_at dt is_uuid now at r applicable h room early_sent fix-IsEarly =
    let c = post_init-IsChecked dt is_uuid now r h in
    let (d, d_ok) = deadlines-Returns dt now r c room early_sent fix-IsEarly in
    let (e, e_ok) =
      stage-Returns dt at (when applicable (some d.early_warning_due)) r.early_warning_sent_utc
        c.early in
    let (n, n_ok) =
      stage-Returns dt at (when applicable (some d.notification_due)) r.notification_sent_utc
        c.notification in
    let (f, f_ok) =
      stage-Returns dt at (when applicable d.final_report_due) r.final_report_sent_utc c.final in
    (overdue_of applicable e n f, rw (d_ok, e_ok, n_ok, f_ok) refl)
