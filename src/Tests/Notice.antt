-- ===== src/Tests/Notice.antt =====
-- Notices of cra_evidence/srp_notice.py: a notification that carries an early warning forward, and deadlines.
use cra_evidence.Prelude.{
  Text, true, false, List, [], ◌++◌, none, some, codes, text_eq, ◌≡◌, refl, All, ok,
}
use cra_evidence.Json.{name, Value, str, Fields, end, field, get, is_name}
use cra_evidence.Clock.{
  parse_utc, strip, drop_space, drop_end, zulu, insert_colon, is_short_offset, to_utc, earlier,
  later, to_seconds,
}
use cra_evidence.Tests.Clock.{toy}
use cra_evidence.Applicability.Obligations.{vulnerability, parse_given}
use cra_evidence.Vuln.{
  VulnerabilityRecord, aware, Deadlines, deadlines, final_due, is_incident, fix_due,
}
use cra_evidence.Notice.Tables.{FieldSpec, common_fields, vuln_fields}
use cra_evidence.Notice.{
  early_warning, notification, final_report, schema, is_present, str_of, code_at, is_required,
  carry, is_needed, required_before, missing, is_complete, deadline_utc, awareness_name,
}
use cra_evidence.Notice.Carry.{at_notification, carry-missing}
use cra_evidence.Notice.Due.{IsSame, deadline_utc-deadlines, deadline_utc-final}

abbrev silent : Value → Text
silent v = []

abbrev warning : Fields
warning = field (name (codes "notification_type")) (str (codes "Vulnerability")) (
    field (name (codes "title")) (str (codes "t")) (
      field (name (codes "summary")) (str (codes "s")) (
        field (name (codes "manufacturer_name")) (str (codes "m")) (
          field (name (codes "member_states_available")) (str (codes "IT")) (
            field (name (codes "product_name")) (str (codes "p")) (
              field (name (codes "product_version")) (str (codes "1")) (
                field (name (codes "awareness_datetime_utc")) (str (codes "a"))
                  (field (name (codes "corrective_available_date")) (str (codes "b")) end))))))))

update : Fields
update = field (name (codes "title")) (str (codes "better")) end

vulnerability_fields : List FieldSpec
vulnerability_fields = common_fields ++ vuln_fields

schema_is : schema vulnerability ≡ ok vulnerability_fields
unfolding schema vulnerability_fields
schema_is = refl

complete : is_complete toy silent early_warning vulnerability_fields warning ≡ true
unfolding vulnerability_fields is_complete missing is_needed required_before code_at is_present
    str_of strip drop_space drop_end get is_name text_eq
complete = refl

carry-missing_example :
    All
      (λ f. is_required (code_at notification f) ≡ true)
      (missing toy silent notification vulnerability_fields
        (carry toy silent notification warning vulnerability_fields update))
    × ((j : Text)
        → is_present toy silent (get j update) ≡ true
        → get j (carry toy silent notification warning vulnerability_fields update) ≡ get j update)
carry-missing_example =
    carry-missing toy silent vulnerability notification vulnerability_fields update warning
      schema_is at_notification complete

abbrev flaw : VulnerabilityRecord
flaw = record {
  product_id = codes "P1";
  vuln_id = codes "CVE-1";
  actively_exploited = true;
  awareness_utc = codes "a";
  status = aware;
  corrective_available_utc = some (codes "b");
  record_id = codes "r";
  kind = vulnerability;
  early_warning_sent_utc = none;
  notification_sent_utc = none;
  final_report_sent_utc = none;
}

due : (d : Deadlines) × (deadlines toy flaw ≡ ok d)
unfolding deadlines final_due is_incident fix_due parse_given parse_utc strip drop_space drop_end
    zulu insert_colon is_short_offset to_utc earlier later to_seconds
due = (_, refl)

awareness-IsSame : IsSame toy silent warning awareness_name (codes "a")
unfolding is_present str_of strip drop_space drop_end get is_name text_eq
awareness-IsSame = record { value = str (codes "a"); there = refl; present = refl; same = refl }

fix-IsSame : IsSame toy silent warning (codes "corrective_available_date") (codes "b")
unfolding is_present str_of strip drop_space drop_end get is_name text_eq
fix-IsSame = record { value = str (codes "b"); there = refl; present = refl; same = refl }

no_incident : is_incident vulnerability ≡ false
unfolding is_incident
no_incident = refl

deadline_utc-deadlines_example :
    (deadline_utc toy silent vulnerability early_warning warning
      ≡ ok (some due.0.early_warning_due))
    × (deadline_utc toy silent vulnerability notification warning
        ≡ ok (some due.0.notification_due))
deadline_utc-deadlines_example =
    deadline_utc-deadlines toy silent flaw due.0 vulnerability warning due.1 awareness-IsSame

deadline_utc-final_example :
    deadline_utc toy silent vulnerability final_report warning ≡ ok due.0.final_report_due
deadline_utc-final_example =
    deadline_utc-final toy silent flaw due.0 warning b'b' [] due.1 awareness-IsSame fix-IsSame
      no_incident refl
