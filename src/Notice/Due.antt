-- ===== src/Notice/Due.antt =====
-- The deadlines of a notice of cra_evidence/srp_notice.py are those of the record that it is about.
use cra_evidence.Prelude.{
  ℕ, ◌*◌, Text, true, false, ◌∷◌, some, codes, ◌≡◌, refl, sym, ◌∙◌, ap, ok, bind-ok,
}
use cra_evidence.Json.{Value, Fields, get}
use cra_evidence.Clock.{Instant, hour, day, Datetime, later, to_seconds, parse_utc}
use cra_evidence.Applicability.Obligations.{Stream, vulnerability, parse_given}
use cra_evidence.Vuln.{
  VulnerabilityRecord, Deadlines, deadlines, is_incident, final_due, fix_due, days_after_fix,
}
use cra_evidence.Vuln.Times.{IsComputed, deadlines-IsComputed}
use cra_evidence.Notice.{
  early_warning, notification, final_report, is_present, str_of, awareness_name, due_after,
  final_due_of, deadline_by, deadline_utc,
}

-- A notice's field with the text that a record has.
pub record IsSame (dt : Datetime) (show : Value → Text) (fs : Fields) (k text : Text) : Type 0 where
  pub value : Value
  pub there : get k fs ≡ some value
  pub present : is_present dt show (some value) ≡ true
  pub same : str_of show value ≡ text

due_after-ok :
    (dt : Datetime) (show : Value → Text) (n : ℕ) (v : Value) (text : Text) (t u : Instant)
    → str_of show v ≡ text
    → parse_utc dt text ≡ ok t
    → later n t ≡ ok u
    → due_after dt show n v ≡ ok (some (to_seconds u))
unfolding due_after
due_after-ok dt show n v text t u e p l = rw (e, p, l) refl

-- The corrective measure that both know, of a record of a vulnerability.
fix_of :
    (dt : Datetime) (r : VulnerabilityRecord) (d : Deadlines) (c : IsComputed dt r d) (a : ℕ)
    (s : Text)
    → is_incident r.kind ≡ false
    → r.corrective_available_utc ≡ some (a ∷ s)
    → (t : Instant) × (parse_utc dt (a ∷ s) ≡ ok t)
      × (u : Instant) × (later (14 * day) t ≡ ok u)
      × (d.final_report_due ≡ some (to_seconds u))
unfolding parse_given final_due fix_due
fix_of dt r d c a s kind given =
    let parsed : parse_given dt (some (a ∷ s)) ≡ ok c.fix =
      ap (parse_given dt) (sym given) ∙ c.fix_ok in
    let (t, p, k) = bind-ok (parse_utc dt (a ∷ s)) (λ t. ok (some t)) parsed in
    let fix_is : c.fix ≡ some t = cc in
    let due : fix_due (some t) ≡ ok (d.final_report_due, d.final_report_basis) =
      ap fix_due (sym fix_is) ∙ rw (final_due, kind) at c.final_ok in
    let (u, l, m) =
      bind-ok (later (14 * day) t) (λ u. ok (some (to_seconds u), days_after_fix)) due in
    (t, p, u, l, cc)

-- For a record that has deadlines, of whatever kind, a notice with its awareness states the record's deadlines of the
-- early warning and of the notification.
pub deadline_utc-deadlines :
    (dt : Datetime) (show : Value → Text) (r : VulnerabilityRecord) (d : Deadlines)
    (stream : Stream) (fs : Fields)
    → deadlines dt r ≡ ok d
    → IsSame dt show fs awareness_name r.awareness_utc
    → (deadline_utc dt show stream early_warning fs ≡ ok (some d.early_warning_due))
      × (deadline_utc dt show stream notification fs ≡ ok (some d.notification_due))
unfolding deadline_utc deadline_by
deadline_utc-deadlines dt show r d stream fs h aw =
    let c = deadlines-IsComputed dt r d h in
    (
      rw (deadline_utc, aw.there, aw.present)
          (due_after-ok dt show (24 * hour) aw.value r.awareness_utc c.awareness c.early aw.same
              c.parsed c.early_ok
            ∙ rw c.early_due refl),
      rw (deadline_utc, aw.there, aw.present)
          (due_after-ok dt show (72 * hour) aw.value r.awareness_utc c.awareness c.notification
              aw.same c.parsed c.notification_ok
            ∙ rw c.notification_due refl),
    )

-- For a record of a vulnerability that has deadlines and a corrective measure, a notice with its awareness and that
-- measure states the record's deadline of the final report.
pub deadline_utc-final :
    (dt : Datetime) (show : Value → Text) (r : VulnerabilityRecord) (d : Deadlines) (fs : Fields)
    (a : ℕ) (s : Text)
    → deadlines dt r ≡ ok d
    → IsSame dt show fs awareness_name r.awareness_utc
    → IsSame dt show fs (codes "corrective_available_date") (a ∷ s)
    → is_incident r.kind ≡ false
    → r.corrective_available_utc ≡ some (a ∷ s)
    → deadline_utc dt show vulnerability final_report fs ≡ ok d.final_report_due
unfolding deadline_utc deadline_by final_due_of
deadline_utc-final dt show r d fs a s h aw cad kind given =
    let c = deadlines-IsComputed dt r d h in
    let (t, p, u, l, due) = fix_of dt r d c a s kind given in
    rw (deadline_utc, aw.there, aw.present, aw.same, c.parsed, final_due_of, cad.there, cad.present)
      (due_after-ok dt show (14 * day) cad.value (a ∷ s) t u cad.same p l ∙ rw due refl)
