-- ===== src/Vuln/Stages.antt =====
-- What `_overdue` of cra_evidence/vuln.py says of the three stages.
use cra_evidence.Prelude.{
  ◌≤◌, ◌<◌, Text, Bool, true, false, [], ◌∷◌, Option, none, some, ◌≡◌, refl, sym, ◌∙◌, ◌↔◌, ◌⊎◌,
  arith, ok, bind-ok, ◌>>=◌, is_empty, not,
}
use cra_evidence.Clock.{Instant, Datetime, parse_utc}
use cra_evidence.Applicability.Obligations.{parse_given}
use cra_evidence.Vuln.{
  VulnerabilityRecord, Deadlines, deadlines, StageState, quiet, stage_state, stage, when, Overdue,
  overdue_of, overdue_at,
}

-- Whether something was submitted: an empty text is nothing.
unfoldable pub is_sent : Option Text → Bool
is_sent none = false
is_sent (some s) = not (is_empty s)

-- A deadline that has passed with nothing submitted.
unfoldable pub IsMissed : Instant → Option Instant → Option Text → Type 0
IsMissed now none sent = ⊥
IsMissed now (some d) sent = (d < now) × (is_sent sent ≡ false)

-- A submission is there after it is parsed exactly if it was there before.
parse_given-ok :
    (dt : Datetime) (sent : Option Text) (at : Option Instant)
    → parse_given dt sent ≡ ok at
    → (is_sent sent ≡ false) ↔ (at ≡ none)
unfolding parse_given is_sent
parse_given-ok dt none at h = grind arith
parse_given-ok dt (some []) at h = grind arith
parse_given-ok dt (some (c ∷ s)) at h =
    let (t, e, k) = bind-ok (parse_utc dt (c ∷ s)) (λ t. ok (some t)) h in grind arith

-- What one stage says.
stage_state-overdue :
    (now d : Instant) (at : Option Instant)
    → ((stage_state now (some d) at).overdue ≡ true) ↔ ((d < now) × (at ≡ none))
unfolding stage_state
stage_state-overdue now d none = ground arith
stage_state-overdue now d (some t) = ground arith

stage-overdue :
    (dt : Datetime) (now : Instant) (due : Option Instant) (sent : Option Text) (s : StageState)
    → stage dt now due sent ≡ ok s
    → (s.overdue ≡ true) ↔ IsMissed now due sent
unfolding IsMissed stage
stage-overdue dt now none sent s h = ground arith
stage-overdue dt now (some d) sent s h =
    let (at, e, k) = bind-ok (parse_given dt sent) (λ at. ok (stage_state now (some d) at)) h in
    let given = parse_given-ok dt sent at e in
    let state = stage_state-overdue now d at in
    let k : stage_state now (some d) at ≡ s = cc in rw (sym k) (grind arith)

-- Where `_overdue` answers, its three stages did.
pub record IsAnswer (dt : Datetime) (r : VulnerabilityRecord) (now : Instant) (applicable : Bool)
    (o : Overdue) : Type 0 where
  pub due : Deadlines
  pub early : StageState
  pub notified : StageState
  pub final : StageState
  pub due_ok : deadlines dt r ≡ ok due
  pub early_ok :
      stage dt now (when applicable (some due.early_warning_due)) r.early_warning_sent_utc
      ≡ ok early
  pub notified_ok :
      stage dt now (when applicable (some due.notification_due)) r.notification_sent_utc
      ≡ ok notified
  pub final_ok :
      stage dt now (when applicable due.final_report_due) r.final_report_sent_utc ≡ ok final
  pub is_of : o ≡ overdue_of applicable early notified final

pub overdue_at-IsAnswer :
    (dt : Datetime) (r : VulnerabilityRecord) (now : Instant) (applicable : Bool) (o : Overdue)
    → overdue_at dt r now applicable ≡ ok o
    → IsAnswer dt r now applicable o
unfolding overdue_at
overdue_at-IsAnswer dt r now applicable o h =
    let (d, e, k) =
      bind-ok (deadlines dt r)
        (λ d. do
          ew ← stage dt now (when applicable (some d.early_warning_due)) r.early_warning_sent_utc
          nt ← stage dt now (when applicable (some d.notification_due)) r.notification_sent_utc
          fr ← stage dt now (when applicable d.final_report_due) r.final_report_sent_utc
          ok (overdue_of applicable ew nt fr))
        h in
    let (ew, e1, k1) =
      bind-ok (stage dt now (when applicable (some d.early_warning_due)) r.early_warning_sent_utc)
        (λ ew. do
          nt ← stage dt now (when applicable (some d.notification_due)) r.notification_sent_utc
          fr ← stage dt now (when applicable d.final_report_due) r.final_report_sent_utc
          ok (overdue_of applicable ew nt fr))
        k in
    let (nt, e2, k2) =
      bind-ok (stage dt now (when applicable (some d.notification_due)) r.notification_sent_utc)
        (λ nt. do
          fr ← stage dt now (when applicable d.final_report_due) r.final_report_sent_utc
          ok (overdue_of applicable ew nt fr))
        k1 in
    let (fr, e3, k3) =
      bind-ok (stage dt now (when applicable d.final_report_due) r.final_report_sent_utc)
        (λ fr. ok (overdue_of applicable ew nt fr)) k2 in
    record {
      due = d;
      early = ew;
      notified = nt;
      final = fr;
      due_ok = e;
      early_ok = e1;
      notified_ok = e2;
      final_ok = e3;
      is_of = cc;
    }

-- One of the three stages was missed.
unfoldable pub IsAnyMissed : Deadlines → Instant → VulnerabilityRecord → Type 0
IsAnyMissed d now r =
    IsMissed now (some d.early_warning_due) r.early_warning_sent_utc
    ⊎ (IsMissed now (some d.notification_due) r.notification_sent_utc
        ⊎ IsMissed now d.final_report_due r.final_report_sent_utc)

-- Where reporting applies, a record is overdue exactly if the deadline of one of its stages lies before now
-- and nothing was submitted for that stage.
pub overdue_at-IsAnyMissed :
    (dt : Datetime) (r : VulnerabilityRecord) (now : Instant) (o : Overdue)
    → overdue_at dt r now true ≡ ok o
    → (d : Deadlines) × (deadlines dt r ≡ ok d) × ((o.any_overdue ≡ true) ↔ IsAnyMissed d now r)
unfolding IsAnyMissed overdue_of
overdue_at-IsAnyMissed dt r now o h =
    let a = overdue_at-IsAnswer dt r now true o h in
    let e =
      stage-overdue dt now (some a.due.early_warning_due) r.early_warning_sent_utc a.early
        a.early_ok in
    let n =
      stage-overdue dt now (some a.due.notification_due) r.notification_sent_utc a.notified
        a.notified_ok in
    let f =
      stage-overdue dt now a.due.final_report_due r.final_report_sent_utc a.final a.final_ok in
    (a.due, a.due_ok, rw a.is_of (grind arith))

-- Where reporting does not apply, nothing is overdue and nothing is late.
stage-none :
    (dt : Datetime) (now : Instant) (sent : Option Text) (s : StageState)
    → stage dt now none sent ≡ ok s
    → s ≡ quiet
unfolding stage
stage-none dt now sent s h = cc

pub overdue_at-quiet :
    (dt : Datetime) (r : VulnerabilityRecord) (now : Instant) (o : Overdue)
    → overdue_at dt r now false ≡ ok o
    → o ≡ overdue_of false quiet quiet quiet
overdue_at-quiet dt r now o h =
    let a = overdue_at-IsAnswer dt r now false o h in
    let e = stage-none dt now r.early_warning_sent_utc a.early a.early_ok in
    let n = stage-none dt now r.notification_sent_utc a.notified a.notified_ok in
    let f = stage-none dt now r.final_report_sent_utc a.final a.final_ok in a.is_of ∙ cc

-- A stage at a later instant.
stage_state-later :
    (now future d : Instant) (at : Option Instant)
    → now ≤ future
    → ((stage_state future (some d) at).late ≡ (stage_state now (some d) at).late)
      × ((stage_state now (some d) at).overdue ≡ true
          → (stage_state future (some d) at).overdue ≡ true)
unfolding stage_state
stage_state-later now future d none le = ground arith
stage_state-later now future d (some t) le = ground arith

pub record IsLater (s u : StageState) : Type 0 where
  pub late_same : u.late ≡ s.late
  pub overdue_stays : s.overdue ≡ true → u.overdue ≡ true

stage-IsLater :
    (dt : Datetime) (now future : Instant) (due : Option Instant) (sent : Option Text)
    (s : StageState)
    → now ≤ future
    → stage dt now due sent ≡ ok s
    → (u : StageState) × (stage dt future due sent ≡ ok u) × IsLater s u
unfolding stage
stage-IsLater dt now future none sent s le h =
    (quiet, refl, record { late_same = cc; overdue_stays = grind arith })
stage-IsLater dt now future (some d) sent s le h =
    let (at, e, k) = bind-ok (parse_given dt sent) (λ at. ok (stage_state now (some d) at)) h in
    let k : stage_state now (some d) at ≡ s = cc in
    let l = stage_state-later now future d at le in
    (
      stage_state future (some d) at,
      rw e refl,
      rw (sym k) (record { late_same = l.0; overdue_stays = l.1 }),
    )

-- What is overdue stays overdue for as long as nothing is submitted, and what is late does not change.
pub overdue_at-later :
    (dt : Datetime) (r : VulnerabilityRecord) (now future : Instant) (applicable : Bool)
    (o : Overdue)
    → now ≤ future
    → overdue_at dt r now applicable ≡ ok o
    → (p : Overdue) × (overdue_at dt r future applicable ≡ ok p)
      × (o.any_overdue ≡ true → p.any_overdue ≡ true)
      × (p.late_submissions ≡ o.late_submissions)
unfolding overdue_at overdue_of
overdue_at-later dt r now future applicable o le h =
    let a = overdue_at-IsAnswer dt r now applicable o h in
    let (e, e_ok, el) =
      stage-IsLater dt now future (when applicable (some a.due.early_warning_due))
        r.early_warning_sent_utc a.early le a.early_ok in
    let (n, n_ok, nl) =
      stage-IsLater dt now future (when applicable (some a.due.notification_due))
        r.notification_sent_utc a.notified le a.notified_ok in
    let (f, f_ok, fl) =
      stage-IsLater dt now future (when applicable a.due.final_report_due) r.final_report_sent_utc
        a.final le a.final_ok in
    (
      overdue_of applicable e n f,
      rw (a.due_ok, e_ok, n_ok, f_ok) refl,
      rw a.is_of (grind (arith, el.overdue_stays, nl.overdue_stays, fl.overdue_stays)),
      rw (a.is_of, el.late_same, nl.late_same, fl.late_same) refl,
    )
