-- ===== src/Notice/Carry.antt =====
-- The constructor of SRPNotice in cra_evidence/srp_notice.py carries fields forward.
use cra_evidence.Prelude.{
  Text, Bool, true, false, not, ◌&&◌, ◌||◌, List, [], ◌∷◌, ◌++◌, none, some, Option-cases,
  Bool-cases, text_eq, text_eq→eq, ◌≡◌, refl, ◌∙◌, ap, arith, subst, ok, All, all, inl, inr,
  is_empty→eq, &&_iff,
}
use cra_evidence.Json.{Value, Fields, get}
use cra_evidence.Json.Assign.{get-set_field, get-set_field-other}
use cra_evidence.Clock.{Datetime}
use cra_evidence.Applicability.Obligations.{Stream, vulnerability, incident, other_stream}
use cra_evidence.Notice.Tables.{FieldSpec, common_fields, vuln_fields, incident_fields}
use cra_evidence.Notice.{
  Stage, early_warning, notification, final_report, schema, is_present, code_at, is_required,
  is_carried, carry_field, carry, required_before, is_needed, missing, is_complete,
}

module _ (dt : Datetime) (show : Value → Text) (stage : Stage) (previous : Fields) where
  has : Fields → FieldSpec → Bool
  has fs f = is_present dt show (get f.field_name fs)

  none-absent : is_present dt show none ≡ false
  unfolding is_present
  none-absent = refl

  -- One step leaves a field that is there, and copies a carried one that is not.
  carry_field-keeps :
      (f : FieldSpec) (j : Text) (fs : Fields)
      → is_present dt show (get j fs) ≡ true
      → get j (carry_field dt show stage previous f fs) ≡ get j fs
  unfolding carry_field
  carry_field-keeps f j fs h = elim (Option-cases (get f.field_name previous)) [
    | inl e ↦ rw (carry_field, e) refl
    | inr (v, e) ↦
        elim (Bool-cases (
          is_carried (code_at stage f)
          && (not (is_present dt show (get f.field_name fs)) && is_present dt show (some v)))) [
            | inr c ↦ rw (carry_field, e, c) refl
            | inl c ↦ elim (Bool-cases (text_eq f.field_name j)) [
              | inr n ↦ rw (carry_field, e, c) (get-set_field-other j f.field_name v fs n)
              | inl n ↦
                  let p : is_present dt show (get f.field_name fs) ≡ true =
                    ap (λ x. is_present dt show (get x fs)) (text_eq→eq f.field_name j n) ∙ h in
                  let q : is_present dt show (get f.field_name fs) ≡ false = ground arith in cc
            ]
          ]
  ]

  pub carry-keeps :
      (sch : List FieldSpec) (j : Text) (fs : Fields)
      → is_present dt show (get j fs) ≡ true
      → get j (carry dt show stage previous sch fs) ≡ get j fs
  unfolding carry
  carry-keeps [] j fs h = refl
  carry-keeps (f ∷ sch) j fs h =
      let k = carry_field-keeps f j fs h in
      carry-keeps sch j (carry_field dt show stage previous f fs) (ap (is_present dt show) k ∙ h)
      ∙ k

  carry_field-has :
      (f : FieldSpec) (fs : Fields)
      → is_carried (code_at stage f) ≡ true
      → has previous f ≡ true
      → has (carry_field dt show stage previous f fs) f ≡ true
  unfolding carry_field has
  carry_field-has f fs c p = elim (Bool-cases (is_present dt show (get f.field_name fs))) [
    | inl h ↦ ap (is_present dt show) (carry_field-keeps f f.field_name fs h) ∙ h
    | inr h ↦ elim (Option-cases (get f.field_name previous)) [
      | inl e ↦ let q : is_present dt show none ≡ true = (rw e at p) in let r = none-absent in cc
      | inr (v, e) ↦ rw (carry_field, e, c, h, (rw e at p), get-set_field) (rw e at p)
    ]
  ]

  -- Every field that is carried, and was there in the previous step, is there.
  carry-has :
      (sch : List FieldSpec) (fs : Fields)
      → All
          (λ f.
            is_carried (code_at stage f) ≡ true
            → has previous f ≡ true
            → has (carry dt show stage previous sch fs) f ≡ true)
          sch
  unfolding carry has
  carry-has [] fs = tt
  carry-has (f ∷ sch) fs = (
    λ c p.
        let h = carry_field-has f fs c p in
        ap (is_present dt show)
          (carry-keeps sch f.field_name (carry_field dt show stage previous f fs) h)
        ∙ h,
    carry-has sch (carry_field dt show stage previous f fs),
  )

-- The stage before.
abbrev pub before : Stage → Stage
before final_report = notification
before _ = early_warning

-- A carried field that was required before is one that the stage before needs.
abbrev is_passed_on : Stage → FieldSpec → Bool
is_passed_on stage f =
    not (is_carried (code_at stage f) && required_before stage f) || is_needed (before stage) f

pub data IsLater : Stage → Type 0 where
  at_notification : IsLater notification
  at_final_report : IsLater final_report

schema-passed_on :
    (stream : Stream) (sch : List FieldSpec) (stage : Stage)
    → schema stream ≡ ok sch
    → IsLater stage
    → all (is_passed_on stage) sch ≡ true
unfolding schema code_at required_before is_needed
schema-passed_on vulnerability sch stage h at_notification =
    let e : common_fields ++ vuln_fields ≡ sch = cc in
    subst (λ x. all (is_passed_on notification) x ≡ true) e refl
schema-passed_on vulnerability sch stage h at_final_report =
    let e : common_fields ++ vuln_fields ≡ sch = cc in
    subst (λ x. all (is_passed_on final_report) x ≡ true) e refl
schema-passed_on incident sch stage h at_notification =
    let e : common_fields ++ incident_fields ≡ sch = cc in
    subst (λ x. all (is_passed_on notification) x ≡ true) e refl
schema-passed_on incident sch stage h at_final_report =
    let e : common_fields ++ incident_fields ≡ sch = cc in
    subst (λ x. all (is_passed_on final_report) x ≡ true) e refl
schema-passed_on other_stream sch stage h l = cc

-- Nothing was missing in the stage before.
missing-nil :
    (dt : Datetime) (show : Value → Text) (stage : Stage) (f : FieldSpec) (fs : List FieldSpec)
    (previous : Fields)
    → missing dt show stage (f ∷ fs) previous ≡ []
    → (is_needed stage f ≡ true → has dt show stage previous previous f ≡ true)
      × (missing dt show stage fs previous ≡ [])
unfolding missing has
missing-nil dt show stage f fs previous h =
    elim (Bool-cases (is_needed stage f && not (is_present dt show (get f.field_name previous)))) [
      | inl e ↦ let k = (rw (missing, e) at h) in cc
      | inr e ↦ (λ n. ground arith, rw (missing, e) at h)
    ]

required_if :
    (r k b m here there : Bool)
    → (k ≡ true → there ≡ true → here ≡ true)
    → (not (k && b) || m) ≡ true
    → (m ≡ true → there ≡ true)
    → ((r || (k && b)) && not here) ≡ true
    → r ≡ true
required_if r k b m here there c p n h = ground arith

needed-required :
    (stage : Stage) (f : FieldSpec) (here there : Bool)
    → (is_carried (code_at stage f) ≡ true → there ≡ true → here ≡ true)
    → is_passed_on stage f ≡ true
    → (is_needed (before stage) f ≡ true → there ≡ true)
    → (is_needed stage f && not here) ≡ true
    → is_required (code_at stage f) ≡ true
unfolding is_needed
needed-required stage f here there c p n h =
    required_if (is_required (code_at stage f)) (is_carried (code_at stage f))
      (required_before stage f) (is_needed (before stage) f) here there c p n h

missing-required :
    (dt : Datetime) (show : Value → Text) (stage : Stage) (sch : List FieldSpec)
    (fs previous : Fields)
    → All
        (λ f.
          is_carried (code_at stage f) ≡ true
          → has dt show stage previous previous f ≡ true
          → has dt show stage previous fs f ≡ true)
        sch
    → all (is_passed_on stage) sch ≡ true
    → missing dt show (before stage) sch previous ≡ []
    → All (λ f. is_required (code_at stage f) ≡ true) (missing dt show stage sch fs)
unfolding missing has
missing-required dt show stage [] fs previous c p m = tt
missing-required dt show stage (f ∷ sch) fs previous c p m =
    let (there, rest) = missing-nil dt show (before stage) f sch previous m in
    let (q, ps) = (&&_iff (is_passed_on stage f) (all (is_passed_on stage) sch)).0 p in
    let tail = missing-required dt show stage sch fs previous c.1 ps rest in
    elim (Bool-cases (is_needed stage f && not (is_present dt show (get f.field_name fs)))) [
      | inr e ↦ rw (missing, e) tail
      | inl e ↦
          rw (missing, e)
            (
              needed-required stage f (is_present dt show (get f.field_name fs))
                  (is_present dt show (get f.field_name previous)) c.0 q there e,
              tail,
            )
    ]

-- If nothing was missing at the stage before, a notice that carries its fields forward misses only fields that
-- its own stage requires, and none that it was to carry; and what it was given itself stays as it was.
pub carry-missing :
    (dt : Datetime) (show : Value → Text) (stream : Stream) (stage : Stage) (sch : List FieldSpec)
    (fs previous : Fields)
    → schema stream ≡ ok sch
    → IsLater stage
    → is_complete dt show (before stage) sch previous ≡ true
    → All
        (λ f. is_required (code_at stage f) ≡ true)
        (missing dt show stage sch (carry dt show stage previous sch fs))
      × ((j : Text)
          → is_present dt show (get j fs) ≡ true
          → get j (carry dt show stage previous sch fs) ≡ get j fs)
unfolding is_complete
carry-missing dt show stream stage sch fs previous h l c = (
  missing-required dt show stage sch (carry dt show stage previous sch fs) previous
      (carry-has dt show stage previous sch fs) (schema-passed_on stream sch stage h l)
      (is_empty→eq (missing dt show (before stage) sch previous) c),
  λ j. carry-keeps dt show stage previous sch j fs,
)
