-- ===== src/Tests/Pack.antt =====
-- Runs of the pack verifier of cra_evidence/verify_pack.py: a signed pack with no ledger next to it.
use cra_evidence.Canonical.Encode.{canonical_bytes}
use cra_evidence.Pack.Shape.{digest_part, contains}
use cra_evidence.Pack.Anchor.{read_ledger}
use cra_evidence.Ledger.Parse.{parse_line}
use cra_evidence.Pack.Stored.{IsStored, Records, source_elements-IsStored}
use cra_evidence.Pack.Sources.{source_status, source_elements, source_file, wanted}
use cra_evidence.Prelude.{
  ℕ, Text, true, false, if◌then◌else◌, [], ◌∷◌, ◌++◌, none, some, codes, text_eq, ◌≡◌, refl,
}
use cra_evidence.Json.{
  without, Value, int, pos, get, name, bool, str, obj, Fields, end, field, is_name,
}
use cra_evidence.Runtime.{Runtime}
use cra_evidence.Disk.{read_node, regular, absent, Disk}
use cra_evidence.Pack.{
  pass, both, is_fail, hash_only, verified, not_evaluated, contradicted, source_mismatch, fold,
}
use cra_evidence.Ledger.{decode, is_str}
use cra_evidence.Pack.TipCheck.{tip_ok, verify_tip}
use cra_evidence.Pack.Seal.{verify_tip-seals}
use cra_evidence.Pack.Hex.{is_hex, is_instant, weak_ed25519_key}
use cra_evidence.Pack.Signature.{
  parse_file, sidecar_fields_ok, check_message, signed_payload, check_signature, check_digest,
  check_sidecar, verify_pack_signature, sha3_hex, pack_digest, unknown_fields, text_of, Ed25519,
  load,
}
use cra_evidence.Pack.Stages.{ledger_reading, Request}
use cra_evidence.Pack.Receipt.{
  conclude, verify_document, Receipt, guarded, verify_loaded, verify_pack,
}
use cra_evidence.Pack.Folds.{is_culprit, is_culprit_subject, is_culprit-fold}
use cra_evidence.Pack.Conclude.{spec_verdict}
use cra_evidence.Pack.Equation.{verify_pack-equation}

abbrev digest : Text
digest = codes "1111111111111111111111111111111111111111111111111111111111111111"

abbrev pack : Fields
pack = field (name (codes "kind")) (str (codes "cra_evidence_pack/1")) (
    field (name (codes "honest_scope")) (str (codes "NOT a conformity assessment")) (
      field (name (codes "pack_sha3")) (str digest) (
        field (name (codes "verification"))
          (obj (
            field (name (codes "chain_ok")) (bool true)
              (field (name (codes "record_digests_bound")) (bool true) end)))
          end)))

abbrev sidecar : Fields
sidecar = field (name (codes "signed_pack_sha3")) (str digest) (
    field (name (codes "signer_id")) (str (codes "producer")) (
      field (name (codes "signed_utc")) (str (codes "2026-02-28T10:00:00Z")) (
        field (name (codes "public_key_hex")) (str digest)
          (field (name (codes "signature_hex")) (str (digest ++ digest)) end))))

abbrev toy : Runtime
toy = record {
  sha256 = λ b. digest;
  sha3_256 = λ b. digest;
  decode_utf8 = λ b. some b;
  scan_json = λ t. some (obj (if text_eq t (codes "s") then sidecar else pack));
}

abbrev disk : Disk
disk = record {
  at = λ p.
      if text_eq p (codes "p")
      then regular (codes "p")
      else if text_eq p (codes "p.sig.json")
      then regular (codes "s")
      else absent;
  beside = λ p n. n;
}

abbrev ed : Ed25519
ed = some (λ key sig message. true)

abbrev request : Request
request = record {
  ledger_path = none;
  trust_store = none;
  log_pubkey = none;
  require_sources = false;
}

abbrev receipt : Receipt
receipt = guarded false (verify_loaded toy ed disk (codes "p") request (load toy disk (codes "p")))

receipt-accepted : receipt.accepted ≡ true
unfolding guarded verify_loaded load parse_file text_eq get is_str without unknown_fields is_instant
    weak_ed25519_key is_hex text_of read_node decode parse_line verify_document conclude
    ledger_reading read_ledger contains digest_part pack_digest sha3_hex canonical_bytes
    verify_pack_signature check_sidecar check_digest check_signature signed_payload check_message
    sidecar_fields_ok is_fail both cra_evidence.Disk.read_regular
    cra_evidence.Pack.Stages.is_bad_name cra_evidence.Pack.Stages.ledger_file
    cra_evidence.Pack.Stages.ledger_location cra_evidence.Pack.Hex.hex_ok
    cra_evidence.Pack.Shape.shape_part cra_evidence.Pack.Shape.snapshot_part
    cra_evidence.Pack.Sources.dict_of
receipt-accepted = refl

leap_day : is_instant (codes "2024-02-29T23:59:59.5+02:00") ≡ true
unfolding is_instant text_eq
leap_day = refl

no_leap_day : is_instant (codes "2026-02-29T23:59:59Z") ≡ false
unfolding is_instant text_eq
no_leap_day = refl

identity_key :
    weak_ed25519_key (codes "0100000000000000000000000000000000000000000000000000000000000000")
    ≡ true
unfolding weak_ed25519_key text_eq
identity_key = refl

verify_pack-equation_example : receipt.accepted ≡ spec_verdict receipt
unfolding verify_pack
verify_pack-equation_example =
    verify_pack-equation false toy ed disk (codes "p") request receipt refl

is_culprit-fold_example :
    is_culprit_subject
      (fold (verified ∷ not_evaluated hash_only ∷ contradicted source_mismatch ∷ []))
    ≡ true
unfolding is_culprit
is_culprit-fold_example =
    is_culprit-fold (verified ∷ not_evaluated hash_only ∷ contradicted source_mismatch ∷ [])

abbrev tip : Value
tip = obj (
    field (name (codes "kind")) (str (codes "cryptovalid_tip/1")) (
      field (name (codes "entries")) (int (pos 2)) (
        field (name (codes "ledger_id")) (str digest) (
          field (name (codes "tip_sha256")) (str digest) (
            field (name (codes "ts")) (str (codes "2026-02-28T10:00:00Z"))
              (field (name (codes "signature_hex")) (str (digest ++ digest)) end))))))

tip_verifies : verify_tip ed tip digest 2 (some (str digest)) (some (str digest)) ≡ tip_ok
unfolding verify_tip is_instant weak_ed25519_key is_hex text_eq get text_of is_str
tip_verifies = refl

verify_tip-seals_example :
    (◌≡◌ {A = ℕ} 2 2)
    × (some (str digest) ≡ some (str digest))
    × (some (str digest) ≡ some (str digest))
verify_tip-seals_example =
    verify_tip-seals ed ed tip digest digest 2 2 (some (str digest)) (some (str digest))
      (some (str digest)) (some (str digest)) tip_verifies tip_verifies

-- An entry that records a stored document, and a disk that holds it.
abbrev sbom_entry : Value
sbom_entry = obj (
    field (name (codes "data"))
      (obj (
        field (name (codes "kind")) (str (codes "cra_sbom")) (
          field (name (codes "source")) (obj (field (name (codes "sha256")) (str digest) end))
            end)))
      end)

abbrev store : Disk
store = record {
  at = λ p.
      if text_eq p
        (codes "l.sources/1111111111111111111111111111111111111111111111111111111111111111.json")
      then regular (codes "{}")
      else absent;
  beside = λ p n. n;
}

store_passes : source_status true (source_elements toy store (codes "l") (sbom_entry ∷ [])) ≡ pass
unfolding source_status source_elements wanted text_eq get is_str is_hex
    cra_evidence.Pack.Sources.recorded cra_evidence.Pack.Sources.data_of
    cra_evidence.Pack.Sources.judge_document
store_passes = refl

sbom_source : Fields
sbom_source = field (name (codes "sha256")) (str digest) end

sbom-Records :
    Records sbom_entry sbom_source b'1'
      (codes "111111111111111111111111111111111111111111111111111111111111111")
unfolding sbom_source get text_eq is_name cra_evidence.Pack.Sources.data_of
sbom-Records = record { kind = refl; source = refl; sha256 = refl }

source_elements-IsStored_example : IsStored toy digest (store.at (source_file (codes "l") digest))
source_elements-IsStored_example =
    source_elements-IsStored toy store (codes "l") true [] [] sbom_entry sbom_source b'1'
      (codes "111111111111111111111111111111111111111111111111111111111111111") store_passes
      sbom-Records
