-- ===== src/Notice/Tables.antt =====
-- The field tables of cra_evidence/srp_notice.py: COMMON_FIELDS, VULN_FIELDS and INCIDENT_FIELDS.
use cra_evidence.Prelude.{ℕ, Text, List, [], ◌∷◌, Option, none, some, codes}
use Prim.Native.String.{String}

-- "R", "O", "A", "C" and "-"
pub data StageCode : Type 0 where
  required optional if_available carried not_here : StageCode

-- "text", "list", "datetime-utc", and "enum" and "enum-list" with what they allow.
pub data Format : Type 0 where
  free_text listed_text instant : Format
  one_of some_of : List Text → Format

-- One entry of a table; the glossary's row and its notes are left out.
pub record FieldSpec : Type 0 where
  pub field_name : Text
  pub at_early_warning : StageCode
  pub at_notification : StageCode
  pub at_final_report : StageCode
  pub format : Format
  pub max_length : Option ℕ

abbrev row : String → StageCode → StageCode → StageCode → Format → Option ℕ → FieldSpec
row k e n f format max_length = record {
  field_name = codes k;
  at_early_warning = e;
  at_notification = n;
  at_final_report = f;
  format = format;
  max_length = max_length;
}

abbrev pub common_fields : List FieldSpec
common_fields =
    row "notification_type" required carried carried
      (one_of (codes "Vulnerability" ∷ codes "Incident" ∷ [])) none
    ∷ row "title" required carried carried free_text (some 255)
    ∷ row "summary" required carried carried free_text (some 4000)
    ∷ row "manufacturer_name" required carried carried free_text (some 255)
    ∷ row "member_states_available" required carried carried listed_text none
    ∷ row "product_name" required carried carried free_text (some 255)
    ∷ row "product_version" required carried carried free_text (some 255)
    ∷ row "product_type" optional carried carried
        (one_of (codes "Default" ∷ codes "Important" ∷ codes "Critical" ∷ [])) none
    ∷ row "product_class" optional carried carried
        (one_of (codes "Class I" ∷ codes "Class II" ∷ [])) none
    ∷ row "product_category" optional carried carried free_text (some 255)
    ∷ row "end_of_support" optional carried carried (one_of (codes "Yes" ∷ codes "No" ∷ [])) none
    ∷ row "component_name" optional carried carried free_text (some 255)
    ∷ row "mitigating_measure_expected_shortly" optional carried carried
        (one_of (codes "Yes" ∷ codes "No" ∷ [])) none
    ∷ row "user_action_reduce_impact" optional carried carried free_text (some 4000)
    ∷ row "sensitivity_justification" optional optional carried free_text (some 255)
    ∷ row "corrective_measures_taken" optional optional required free_text (some 2000)
    ∷ row "user_measures" optional optional required free_text (some 4000)
    ∷ row "attack_vector" not_here optional optional free_text (some 255)
    ∷ []

abbrev pub vuln_fields : List FieldSpec
vuln_fields =
    row "cve_id" optional carried carried free_text (some 255)
    ∷ row "euvd_id" optional carried carried free_text (some 255)
    ∷ row "general_information" optional required carried free_text (some 4000)
    ∷ row "corrective_available_date" optional optional required instant none
    ∷ row "security_update_details" optional optional required free_text (some 2000)
    ∷ row "severity_description" optional optional required free_text (some 4000)
    ∷ row "impact_description" optional optional required free_text (some 4000)
    ∷ row "awareness_datetime_utc" required carried carried instant none
    ∷ row "vulnerability_occurred_datetime_utc" optional required carried instant none
    ∷ row "malicious_actor" optional optional if_available free_text (some 100)
    ∷ row "particular_exceptional_circumstances" not_here optional not_here
        (some_of (
          codes "no_other_member_state"
          ∷ codes "contrary_to_essential_interests"
          ∷ codes "imminent_high_risk"
          ∷ []))
        none
    ∷ row "pec_delay_reason" not_here optional not_here
        (some_of (
          codes "no_other_member_state"
          ∷ codes "contrary_to_essential_interests"
          ∷ codes "imminent_high_risk"
          ∷ []))
        none
    ∷ row "further_information_cdac" optional optional carried free_text (some 800)
    ∷ []

abbrev pub incident_fields : List FieldSpec
incident_fields =
    row "suspected_malicious" required carried carried
      (one_of (codes "Yes" ∷ codes "No" ∷ codes "Unknown" ∷ [])) none
    ∷ row "incident_nature" optional required carried free_text (some 4000)
    ∷ row "mitigation_measures" optional optional required free_text (some 4000)
    ∷ row "severity_description" optional optional required free_text (some 4000)
    ∷ row "impact_description" optional optional required free_text (some 4000)
    ∷ row "threat_type_root_cause" optional optional required free_text (some 255)
    ∷ row "awareness_datetime_utc" required required carried instant none
    ∷ row "incident_datetime_utc" optional required optional instant none
    ∷ row "initial_assessment" optional required carried free_text (some 4000)
    ∷ []
