-- ===== src/Vuln.antt =====
-- VulnerabilityRecord of cra_evidence/vuln.py: the checks of its constructor, its deadlines, and what is overdue.
pub mod Stages
pub mod Times
pub mod Total
use cra_evidence.Prelude.{
  ℕ, ◌+◌, ◌*◌, Text, Bool, true, false, not, ◌&&◌, ◌||◌, ltb, leb, if◌then◌else◌, List, [], ◌∷◌,
  ◌++◌, Option, none, some, is_empty, Result, ok, raised, value_error, guard, ◌>>=◌, ◌>>◌,
}
use cra_evidence.Clock.{
  Instant, hour, day, Datetime, later, to_seconds, strip, parse_utc, add_months,
}
use cra_evidence.Applicability.{Both}
use cra_evidence.Applicability.Obligations.{
  manufacturer, Stream, vulnerability, incident, other_stream, is_stream, Threshold, parse_given,
  art14_obligation,
}

-- STATUSES, and any other text.
pub data Status : Type 0 where
  aware early_warning_sent notified fixed final_reported other_status : Status

unfoldable pub is_status : Status → Bool
is_status other_status = false
is_status _ = true

-- The fields that the clock and the checks read.
pub record VulnerabilityRecord : Type 0 where
  pub product_id : Text
  pub vuln_id : Text
  pub actively_exploited : Bool
  pub awareness_utc : Text
  pub status : Status
  pub corrective_available_utc : Option Text
  pub record_id : Text
  pub kind : Stream
  pub early_warning_sent_utc : Option Text
  pub notification_sent_utc : Option Text
  pub final_report_sent_utc : Option Text

abbrev pub clock_skew : ℕ
clock_skew = 300000000

-- No sent instant is earlier than the awareness.
unfoldable pub check_sent : Datetime → Text → Option Text → Result (Unit {0})
check_sent dt awareness none = ok tt
check_sent dt awareness (some v) = do
  at ← parse_utc dt v
  aw ← parse_utc dt awareness
  guard (leb aw at) value_error

unfoldable pub check_parses : Datetime → Option Text → Result (Unit {0})
check_parses dt none = ok tt
check_parses dt (some v) = do at ← parse_utc dt v; ok tt

-- `__post_init__`, at the host's instant `now`; `is_uuid` is the parser of uuid.UUID.
unfoldable pub post_init :
    Datetime → (Text → Bool) → Instant → VulnerabilityRecord → Result (Unit {0})
unfolding is_status check_sent check_parses
post_init dt is_uuid now r = do
  guard (not (is_empty (strip dt r.vuln_id))) value_error
  guard (is_stream r.kind) value_error
  guard (is_status r.status) value_error
  check_sent dt r.awareness_utc r.early_warning_sent_utc
  check_sent dt r.awareness_utc r.notification_sent_utc
  check_sent dt r.awareness_utc r.final_report_sent_utc
  guard (is_uuid r.record_id) value_error
  aw ← parse_utc dt r.awareness_utc
  limit ← later clock_skew now
  guard (leb aw limit) value_error
  check_parses dt r.corrective_available_utc

pub data FinalBasis : Type 0 where
  month_after_submission undetermined_submission days_after_fix undetermined_fix : FinalBasis

pub record Deadlines : Type 0 where
  pub early_warning_due : Instant
  pub notification_due : Instant
  pub final_report_due : Option Instant
  pub final_report_basis : FinalBasis

unfoldable pub is_incident : Stream → Bool
is_incident incident = true
is_incident _ = false

-- The final report of a severe incident, by the notification's submission.
unfoldable pub incident_due : Option Instant → Result (Option Instant × FinalBasis)
incident_due none = ok (none, undetermined_submission)
incident_due (some sent) = do
  due ← add_months sent 1
  ok (some (to_seconds due), month_after_submission)

-- The final report of a vulnerability, by the corrective measure.
unfoldable pub fix_due : Option Instant → Result (Option Instant × FinalBasis)
fix_due none = ok (none, undetermined_fix)
fix_due (some fix) = do due ← later (14 * day) fix; ok (some (to_seconds due), days_after_fix)

unfoldable pub final_due :
    Datetime → VulnerabilityRecord → Option Instant → Result (Option Instant × FinalBasis)
unfolding is_incident incident_due fix_due
final_due dt r fix =
    if is_incident r.kind
    then (parse_given dt r.notification_sent_utc >>= incident_due)
    else fix_due fix

unfoldable pub deadlines : Datetime → VulnerabilityRecord → Result Deadlines
unfolding final_due
deadlines dt r = do
  t0 ← parse_utc dt r.awareness_utc
  fix ← parse_given dt r.corrective_available_utc
  final ← final_due dt r fix
  early ← later (24 * hour) t0
  notification ← later (72 * hour) t0
  ok (record {
    early_warning_due = to_seconds early;
    notification_due = to_seconds notification;
    final_report_due = final.0;
    final_report_basis = final.1;
  })

-- `_state`, of a deadline and the instant at which the stage was submitted.
pub record StageState : Type 0 where
  pub overdue : Bool
  pub late : Bool

abbrev pub quiet : StageState
quiet = record { overdue = false; late = false }

unfoldable pub stage_state : Instant → Option Instant → Option Instant → StageState
stage_state now none sent = quiet
stage_state now (some due) none = record { overdue = ltb due now; late = false }
stage_state now (some due) (some sent) = record { overdue = false; late = ltb due sent }

abbrev pub when : Bool → Option Instant → Option Instant
when applicable due = if applicable then due else none

-- A submission is parsed only where a deadline applies.
unfoldable pub stage : Datetime → Instant → Option Instant → Option Text → Result StageState
unfolding stage_state
stage dt now none sent = ok quiet
stage dt now (some due) sent = do at ← parse_given dt sent; ok (stage_state now (some due) at)

pub data LateStage : Type 0 where
  early_warning notification final_report : LateStage

abbrev late_if : StageState → LateStage → List LateStage
late_if s k = if s.late then k ∷ [] else []

pub record Overdue : Type 0 where
  pub reporting_applicable : Bool
  pub early_warning_overdue : Bool
  pub notification_overdue : Bool
  pub final_report_overdue : Bool
  pub late_submissions : List LateStage
  pub any_overdue : Bool

unfoldable pub overdue_of : Bool → StageState → StageState → StageState → Overdue
overdue_of applicable ew nt fr = record {
  reporting_applicable = applicable;
  early_warning_overdue = ew.overdue;
  notification_overdue = nt.overdue;
  final_report_overdue = fr.overdue;
  late_submissions = late_if ew early_warning ++ late_if nt notification ++ late_if fr final_report;
  any_overdue = ew.overdue || (nt.overdue || fr.overdue);
}

-- `_overdue`
unfoldable pub overdue_at : Datetime → VulnerabilityRecord → Instant → Bool → Result Overdue
unfolding deadlines stage overdue_of
overdue_at dt r now applicable = do
  d ← deadlines dt r
  ew ← stage dt now (when applicable (some d.early_warning_due)) r.early_warning_sent_utc
  nt ← stage dt now (when applicable (some d.notification_due)) r.notification_sent_utc
  fr ← stage dt now (when applicable d.final_report_due) r.final_report_sent_utc
  ok (overdue_of applicable ew nt fr)

-- `overdue`: one answer, or one for each reading of the start, with the flags of the reading that obliges
-- (`reporting_applicable` of that answer is None in the source).
pub data Answer : Type 0 where
  not_reportable : Overdue → Answer
  agreed : Threshold → Overdue → Answer
  both_readings : Threshold → Overdue → Both Overdue → Answer

abbrev pub reportable : VulnerabilityRecord → Bool
reportable r = r.actively_exploited || is_incident r.kind

unfoldable pub answer : Datetime → VulnerabilityRecord → Instant → Threshold → Result Answer
unfolding overdue_at
answer dt r now t = elim t.verdict [
  | some applicable ↦ do o ← overdue_at dt r now applicable; ok (agreed t o)
  | none ↦ do
    u ← overdue_at dt r now t.readings.at_utc
    b ← overdue_at dt r now t.readings.at_brussels
    o ← overdue_at dt r now true
    ok (both_readings t o (record { at_utc = u; at_brussels = b }))
]

unfoldable pub overdue : Datetime → VulnerabilityRecord → Instant → Result Answer
unfolding answer
overdue dt r now =
    if reportable r
    then (do t ← art14_obligation dt r.awareness_utc manufacturer r.kind none; answer dt r now t.0)
    else (do o ← overdue_at dt r now false; ok (not_reportable o))
