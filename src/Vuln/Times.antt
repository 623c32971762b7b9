-- ===== src/Vuln/Times.antt =====
-- How far the deadlines of cra_evidence/vuln.py lie from the instants that they count from.
use cra_evidence.Prelude.{
  ℕ, ◌+◌, ◌*◌, ◌≤◌, ◌<◌, true, false, Option, none, some, ◌≡◌, refl, sym, ◌∙◌, ◌⊎◌, inl, inr, arith,
  subst, ok, bind-ok, ◌>>=◌, Bool-cases,
}
use cra_evidence.Clock.{
  Instant, second, hour, day, Datetime, later, to_seconds, parse_utc, add_months,
}
use cra_evidence.Clock.Months.{add_months-one}
use cra_evidence.Applicability.Obligations.{parse_given}
use cra_evidence.Vuln.{
  VulnerabilityRecord, Deadlines, deadlines, FinalBasis, is_incident, incident_due, fix_due,
  final_due,
}

-- A whole second within the second that ends between `lo` and `hi` after `t`.
unfoldable pub IsWithin : ℕ → ℕ → Instant → Instant → Type 0
IsWithin lo hi t d = (t + lo < d + second) × (d ≤ t + hi)

later-ok : (n : ℕ) (t u : Instant) → later n t ≡ ok u → u ≡ t + n
unfolding later
later-ok n t u h = ground arith

later-IsWithin : (n : ℕ) (t u : Instant) → later n t ≡ ok u → IsWithin n n t (to_seconds u)
unfolding IsWithin to_seconds
later-IsWithin n t u h = omega (arith, later-ok n t u h)

-- What the final report is due by: 28 to 31 days after the notification for an incident, 14 days after
-- the corrective measure for a vulnerability.
unfoldable pub IsFinal : Datetime → VulnerabilityRecord → Instant → Type 0
IsFinal dt r f =
    ((t : Instant) × (is_incident r.kind ≡ true)
      × (parse_given dt r.notification_sent_utc ≡ ok (some t))
      × IsWithin (28 * day) (31 * day) t f)
    ⊎ ((t : Instant) × (is_incident r.kind ≡ false)
        × (parse_given dt r.corrective_available_utc ≡ ok (some t))
        × IsWithin (14 * day) (14 * day) t f)

incident_due-IsWithin :
    (sent : Option Instant) (f : Instant) (basis : FinalBasis)
    → incident_due sent ≡ ok (some f, basis)
    → (t : Instant) × (sent ≡ some t) × IsWithin (28 * day) (31 * day) t f
unfolding incident_due IsWithin to_seconds
incident_due-IsWithin none f basis h = cc
incident_due-IsWithin (some t) f basis h =
    let (due, e, k) =
      bind-ok (add_months t 1)
        (λ due. ok (some (to_seconds due), FinalBasis.month_after_submission)) h in
    let f_is : to_seconds due ≡ f = cc in (t, refl, omega (arith, add_months-one t due e, f_is))

fix_due-IsWithin :
    (fix : Option Instant) (f : Instant) (basis : FinalBasis)
    → fix_due fix ≡ ok (some f, basis)
    → (t : Instant) × (fix ≡ some t) × IsWithin (14 * day) (14 * day) t f
unfolding fix_due
fix_due-IsWithin none f basis h = cc
fix_due-IsWithin (some t) f basis h =
    let (due, e, k) =
      bind-ok (later (14 * day) t) (λ due. ok (some (to_seconds due), FinalBasis.days_after_fix))
        h in
    let f_is : to_seconds due ≡ f = cc in
    (t, refl, subst (IsWithin (14 * day) (14 * day) t) f_is (later-IsWithin (14 * day) t due e))

final_due-IsFinal :
    (dt : Datetime) (r : VulnerabilityRecord) (fix : Option Instant) (f : Instant)
    (basis : FinalBasis)
    → parse_given dt r.corrective_available_utc ≡ ok fix
    → final_due dt r fix ≡ ok (some f, basis)
    → IsFinal dt r f
unfolding final_due IsFinal
final_due-IsFinal dt r fix f basis given h = elim (Bool-cases (is_incident r.kind)) [
  | inl e ↦
      let (sent, e1, k) =
        bind-ok (parse_given dt r.notification_sent_utc) incident_due (rw e at h) in
      let (t, s, w) = incident_due-IsWithin sent f basis k in inl (t, e, e1 ∙ rw s refl, w)
  | inr e ↦
      let (t, s, w) = fix_due-IsWithin fix f basis (rw e at h) in inr (t, e, given ∙ rw s refl, w)
]

-- The calls that deadlines were computed by.
pub record IsComputed (dt : Datetime) (r : VulnerabilityRecord) (d : Deadlines) : Type 0 where
  pub awareness : Instant
  pub parsed : parse_utc dt r.awareness_utc ≡ ok awareness
  pub early : Instant
  pub early_ok : later (24 * hour) awareness ≡ ok early
  pub early_due : d.early_warning_due ≡ to_seconds early
  pub notification : Instant
  pub notification_ok : later (72 * hour) awareness ≡ ok notification
  pub notification_due : d.notification_due ≡ to_seconds notification
  pub fix : Option Instant
  pub fix_ok : parse_given dt r.corrective_available_utc ≡ ok fix
  pub final_ok : final_due dt r fix ≡ ok (d.final_report_due, d.final_report_basis)

pub deadlines-IsComputed :
    (dt : Datetime) (r : VulnerabilityRecord) (d : Deadlines)
    → deadlines dt r ≡ ok d
    → IsComputed dt r d
unfolding deadlines
deadlines-IsComputed dt r d h =
    let due : Instant → Instant → Option Instant × FinalBasis → Deadlines = λ e n f. record {
      early_warning_due = to_seconds e;
      notification_due = to_seconds n;
      final_report_due = f.0;
      final_report_basis = f.1;
    } in
    let (t, e0, k0) =
      bind-ok (parse_utc dt r.awareness_utc)
        (λ t. do
          fix ← parse_given dt r.corrective_available_utc
          f ← final_due dt r fix
          e ← later (24 * hour) t
          n ← later (72 * hour) t
          ok (due e n f))
        h in
    let (fix, e1, k1) =
      bind-ok (parse_given dt r.corrective_available_utc)
        (λ fix. do
          f ← final_due dt r fix
          e ← later (24 * hour) t
          n ← later (72 * hour) t
          ok (due e n f))
        k0 in
    let (f, e2, k2) =
      bind-ok (final_due dt r fix)
        (λ f. do e ← later (24 * hour) t; n ← later (72 * hour) t; ok (due e n f)) k1 in
    let (e, e3, k3) =
      bind-ok (later (24 * hour) t) (λ e. do n ← later (72 * hour) t; ok (due e n f)) k2 in
    let (n, e4, k4) = bind-ok (later (72 * hour) t) (λ n. ok (due e n f)) k3 in
    let d_is : due e n f ≡ d = cc in
    subst (IsComputed dt r) d_is (record {
      awareness = t;
      parsed = e0;
      early = e;
      early_ok = e3;
      early_due = refl;
      notification = n;
      notification_ok = e4;
      notification_due = refl;
      fix = fix;
      fix_ok = e1;
      final_ok = e2;
    })

-- The deadlines of a record that has them.
pub record IsDue (dt : Datetime) (r : VulnerabilityRecord) (d : Deadlines) : Type 0 where
  pub awareness : Instant
  pub parsed : parse_utc dt r.awareness_utc ≡ ok awareness
  pub early : IsWithin (24 * hour) (24 * hour) awareness d.early_warning_due
  pub notification : IsWithin (72 * hour) (72 * hour) awareness d.notification_due
  pub final : (f : Instant) → d.final_report_due ≡ some f → IsFinal dt r f

-- The early warning is due 24 hours and the notification 72 hours after awareness, less a part of a
-- second; the final report, where it is due, 28 to 31 days after the notification of an incident or 14 days
-- after the corrective measure of a vulnerability.
pub deadlines-IsDue :
    (dt : Datetime) (r : VulnerabilityRecord) (d : Deadlines) → deadlines dt r ≡ ok d → IsDue dt r d
deadlines-IsDue dt r d h =
    let c = deadlines-IsComputed dt r d h in
    record {
      awareness = c.awareness;
      parsed = c.parsed;
      early =
          subst (IsWithin (24 * hour) (24 * hour) c.awareness) (sym c.early_due)
            (later-IsWithin (24 * hour) c.awareness c.early c.early_ok);
      notification =
          subst (IsWithin (72 * hour) (72 * hour) c.awareness) (sym c.notification_due)
            (later-IsWithin (72 * hour) c.awareness c.notification c.notification_ok);
      final = λ f e.
          final_due-IsFinal dt r c.fix f d.final_report_basis c.fix_ok (c.final_ok ∙ rw e refl);
    }
