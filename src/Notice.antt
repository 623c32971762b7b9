-- ===== src/Notice.antt =====
-- SRPNotice of cra_evidence/srp_notice.py: its constructor, what is missing at its stage, and its deadline.
pub mod Tables
pub mod Carry
pub mod Due
use cra_evidence.Prelude.{
  ℕ, ◌*◌, Text, Bool, true, false, not, ◌&&◌, ◌||◌, ltb, leb, if◌then◌else◌, List, [], ◌∷◌, ◌++◌,
  Option, none, some, length, any, is_empty, codes, text_eq, Result, ok, raised, value_error, guard,
  ◌>>=◌, ◌>>◌,
}
use cra_evidence.Json.{
  set_field, Key, name, nonstr, Value, null, str, arr, Items, nil, cons, Fields, end, field, get,
  is_name,
}
use cra_evidence.Clock.{Instant, hour, day, Datetime, later, to_seconds, strip, parse_utc}
use cra_evidence.Applicability.Obligations.{
  Stream, vulnerability, incident, other_stream, is_stream,
}
use cra_evidence.Vuln.{clock_skew}
use cra_evidence.Notice.Tables.{
  StageCode, required, carried, Format, instant, one_of, some_of, free_text, listed_text, FieldSpec,
  common_fields, vuln_fields, incident_fields,
}

-- STAGES, and any other text.
pub data Stage : Type 0 where
  early_warning notification final_report other_stage : Stage

unfoldable pub is_stage : Stage → Bool
is_stage other_stage = false
is_stage _ = true

-- What the constructor is given; the fields that the notice then has may be more.
pub record SrpNotice : Type 0 where
  pub stream : Stream
  pub stage : Stage
  pub fields : Fields
  pub notice_id : Text
  pub previous_fields : Option Fields

-- No name of the second table is one of the first.
unfoldable pub schema : Stream → Result (List FieldSpec)
schema vulnerability = ok (common_fields ++ vuln_fields)
schema incident = ok (common_fields ++ incident_fields)
schema other_stream = raised value_error

-- What Python's `str` prints of a value; of a text it is the text.
unfoldable pub str_of : (Value → Text) → Value → Text
str_of show (str s) = s
str_of show v = show v

unfoldable pub is_present : Datetime → (Value → Text) → Option Value → Bool
unfolding str_of
is_present dt show none = false
is_present dt show (some null) = false
is_present dt show (some (arr nil)) = false
is_present dt show (some v) = not (is_empty (strip dt (str_of show v)))

-- `spec["stages"][stage]`; a stage that is none of the three was refused.
unfoldable pub code_at : Stage → FieldSpec → StageCode
code_at early_warning f = f.at_early_warning
code_at notification f = f.at_notification
code_at _ f = f.at_final_report

abbrev pub is_required : StageCode → Bool
is_required required = true
is_required _ = false

abbrev pub is_carried : StageCode → Bool
is_carried carried = true
is_carried _ = false

-- One field of the schema, copied from the previous step unless it is updated.
unfoldable pub carry_field :
    Datetime → (Value → Text) → Stage → Fields → FieldSpec → Fields → Fields
unfolding code_at is_present set_field
carry_field dt show stage previous f fs = elim (get f.field_name previous) [
  | none ↦ fs
  | some v ↦
      if is_carried (code_at stage f)
        && (not (is_present dt show (get f.field_name fs)) && is_present dt show (some v))
      then set_field f.field_name v fs
      else fs
]

unfoldable pub carry : Datetime → (Value → Text) → Stage → Fields → List FieldSpec → Fields → Fields
unfolding carry_field
carry dt show stage previous [] fs = fs
carry dt show stage previous (f ∷ sch) fs =
    carry dt show stage previous sch (carry_field dt show stage previous f fs)

unfoldable pub carried_fields :
    Datetime → (Value → Text) → Stage → Option Fields → List FieldSpec → Fields → Fields
unfolding carry
carried_fields dt show stage none sch fs = fs
carried_fields dt show stage (some previous) sch fs = carry dt show stage previous sch fs

unfoldable pub spec_of : Text → List FieldSpec → Option FieldSpec
spec_of k [] = none
spec_of k (f ∷ sch) = if text_eq f.field_name k then some f else spec_of k sch

unfoldable pub is_allowed : (Value → Text) → List Text → Value → Bool
unfolding str_of
is_allowed show allowed v = any (text_eq (str_of show v)) allowed

unfoldable pub all_allowed : (Value → Text) → List Text → Items → Bool
unfolding is_allowed
all_allowed show allowed nil = true
all_allowed show allowed (cons v vs) = is_allowed show allowed v && all_allowed show allowed vs

unfoldable pub some_allowed : (Value → Text) → List Text → Value → Bool
unfolding is_allowed all_allowed
some_allowed show allowed (arr vs) = all_allowed show allowed vs
some_allowed show allowed v = is_allowed show allowed v

unfoldable pub within_length : (Value → Text) → Option ℕ → Value → Bool
unfolding str_of
within_length show none v = true
within_length show (some n) v = leb (length (str_of show v)) n

unfoldable pub check_format : Datetime → (Value → Text) → Format → Value → Result (Unit {0})
unfolding is_allowed some_allowed str_of
check_format dt show (one_of allowed) v = guard (is_allowed show allowed v) value_error
check_format dt show (some_of allowed) v = guard (some_allowed show allowed v) value_error
check_format dt show instant v = do at ← parse_utc dt (str_of show v); ok tt
check_format dt show _ v = ok tt

unfoldable pub check_value : Datetime → (Value → Text) → FieldSpec → Value → Result (Unit {0})
unfolding is_present within_length check_format
check_value dt show f v =
    let checked = do
      guard (within_length show f.max_length v) value_error
      check_format dt show f.format v
    in if is_present dt show (some v) then checked else ok tt

unfoldable pub check_fields :
    Datetime → (Value → Text) → List FieldSpec → Fields → Result (Unit {0})
unfolding spec_of check_value
check_fields dt show sch end = ok tt
check_fields dt show sch (field (nonstr k) v fs) = raised value_error
check_fields dt show sch (field (name k) v fs) = elim (spec_of k sch) [
  | none ↦ raised value_error
  | some f ↦ check_value dt show f v >> check_fields dt show sch fs
]

abbrev pub awareness_name : Text
awareness_name = codes "awareness_datetime_utc"

abbrev awareness_code : Stage → Option FieldSpec → Bool
awareness_code stage none = false
awareness_code stage (some f) = is_required (code_at stage f)

-- The awareness: required at a stage, and never in the future.
unfoldable pub check_awareness :
    Datetime → (Value → Text) → Instant → Stage → List FieldSpec → Option Value → Result (Unit {0})
unfolding is_present spec_of str_of code_at
check_awareness dt show now stage sch none =
    guard (not (awareness_code stage (spec_of awareness_name sch))) value_error
check_awareness dt show now stage sch (some v) =
    let past = do
      at ← parse_utc dt (str_of show v)
      limit ← later clock_skew now
      guard (leb at limit) value_error
    in if is_present dt show (some v)
      then past
      else guard (not (awareness_code stage (spec_of awareness_name sch))) value_error

-- `if self.previous_fields`: an empty dict is none.
abbrev nonempty : Option Fields → Option Fields
nonempty (some end) = none
nonempty o = o

-- The constructor, at the host's instant `now`; it gives the fields that the notice then has.
unfoldable pub make_notice :
    Datetime → (Value → Text) → (Text → Bool) → Instant → SrpNotice → Result Fields
unfolding is_stage schema carried_fields check_awareness check_fields
make_notice dt show is_uuid now n = do
  guard (is_stream n.stream && is_stage n.stage) value_error
  sch ← schema n.stream
  let fs = carried_fields dt show n.stage (nonempty n.previous_fields) sch n.fields
  guard (is_uuid n.notice_id) value_error
  check_awareness dt show now n.stage sch (get awareness_name fs)
  check_fields dt show sch fs
  ok fs

-- `any(spec["stages"].get(s0) == "R" for s0 in earlier)`
unfoldable pub required_before : Stage → FieldSpec → Bool
required_before early_warning f = false
required_before notification f = is_required f.at_early_warning
required_before _ f = is_required f.at_early_warning || is_required f.at_notification

unfoldable pub is_needed : Stage → FieldSpec → Bool
unfolding code_at required_before
is_needed stage f =
    is_required (code_at stage f) || (is_carried (code_at stage f) && required_before stage f)

-- `missing`, of a notice with these fields
unfoldable pub missing :
    Datetime → (Value → Text) → Stage → List FieldSpec → Fields → List FieldSpec
unfolding is_needed is_present
missing dt show stage [] fs = []
missing dt show stage (f ∷ sch) fs =
    let rest = missing dt show stage sch fs in
    if is_needed stage f && not (is_present dt show (get f.field_name fs)) then f ∷ rest else rest

unfoldable pub is_complete : Datetime → (Value → Text) → Stage → List FieldSpec → Fields → Bool
unfolding missing
is_complete dt show stage sch fs = is_empty (missing dt show stage sch fs)

-- `n` behind the instant of a text that was given
unfoldable pub due_after : Datetime → (Value → Text) → ℕ → Value → Result (Option Instant)
unfolding str_of
due_after dt show n v = do
  at ← parse_utc dt (str_of show v)
  due ← later n at
  ok (some (to_seconds due))

-- The final report is due 14 days after the corrective measure, and undetermined without one.
unfoldable pub final_due_of : Datetime → (Value → Text) → Option Value → Result (Option Instant)
unfolding is_present due_after
final_due_of dt show none = ok none
final_due_of dt show (some v) =
    if is_present dt show (some v) then due_after dt show (14 * day) v else ok none

-- `deadline_utc`
unfoldable pub deadline_by :
    Datetime → (Value → Text) → Stream → Stage → Fields → Value → Result (Option Instant)
unfolding due_after final_due_of str_of
deadline_by dt show stream early_warning fs aw = due_after dt show (24 * hour) aw
deadline_by dt show stream notification fs aw = due_after dt show (72 * hour) aw
deadline_by dt show incident _ fs aw = do at ← parse_utc dt (str_of show aw); ok none
deadline_by dt show _ _ fs aw = do
  at ← parse_utc dt (str_of show aw)
  final_due_of dt show (get (codes "corrective_available_date") fs)

unfoldable pub deadline_utc :
    Datetime → (Value → Text) → Stream → Stage → Fields → Result (Option Instant)
unfolding deadline_by is_present
deadline_utc dt show stream stage fs = elim (get awareness_name fs) [
  | none ↦ ok none
  | some aw ↦
      if is_present dt show (some aw) then deadline_by dt show stream stage fs aw else ok none
]
