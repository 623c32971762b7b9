-- ===== src/Pack/Receipt.antt =====
-- `_verify` and `verify_pack` of cra_evidence/verify_pack.py: the signature, the verdict and the receipt.
use cra_evidence.Prelude.{
  Text, Bool, true, false, not, ◌&&◌, ◌||◌, if◌then◌else◌, List, [], ◌∷◌, ◌++◌, Option, none, some,
  any, codes, value_error, Result, ok, raised, ◌>>=◌,
}
use cra_evidence.Json.{Value, obj, Fields, get}
use cra_evidence.Runtime.{Runtime}
use cra_evidence.Ledger.{is_str}
use cra_evidence.Disk.{Disk}
use cra_evidence.Pack.{
  Element, fail, pack_json, verifier_exception, Layer, layer_of, RefusalClass, format_unsupported,
  unknown_member, malformed, Requirement, trusted_signer_unmet, ledger_required, tip_required,
  sources_required, authenticity_basis, SubjectName, sealed_content, ledger_anchor,
  signed_tip_subject, source_subject, signature_subject, Part, both, is_fail, Subject, fold,
}
use cra_evidence.Pack.Hex.{is_hex}
use cra_evidence.Pack.Signature.{
  Ed25519, TrustStore, Loaded, document, load, pack_digest, unknown_fields, Signature,
  verify_pack_signature,
}
use cra_evidence.Pack.Sources.{dict_of}
use cra_evidence.Pack.Producer.{
  signature_part, Authenticity, authenticity_of, is_authentic, is_passing, no_authenticity,
}
use cra_evidence.Pack.Shape.{
  pack_keys, scope_ok, snapshot_ok, refuse_unless, digest_part, shape_part, snapshot_part,
}
use cra_evidence.Pack.Stages.{Request, ledger_file_of, is_bad_name, ledger_reading}

pub data Admission : Type 0 where
  admitted : Admission
  refused : RefusalClass → Admission
  not_evaluated_run : Admission

pub record States : Type 0 where
  pub sealed : Subject
  pub anchor : Subject
  pub tip : Subject
  pub sources : Subject
  pub signature : Subject

-- `states` and `policy` are there exactly in an admitted receipt; `policy` lists what is unmet.
pub record Receipt : Type 0 where
  pub accepted : Bool
  pub assessed : Bool
  pub authenticity : Authenticity
  pub anchored : Bool
  pub layers : List Layer
  pub pack_digest_shown : Option Value
  pub admission : Admission
  pub states : Option States
  pub policy : Option (List Requirement)

unfoldable pub same_subject : SubjectName → SubjectName → Bool
same_subject sealed_content sealed_content = true
same_subject ledger_anchor ledger_anchor = true
same_subject signed_tip_subject signed_tip_subject = true
same_subject source_subject source_subject = true
same_subject signature_subject signature_subject = true
same_subject _ _ = false

-- `el[k]`
unfoldable pub elements_of : SubjectName → List (SubjectName × Element) → List Element
unfolding same_subject
elements_of k [] = []
elements_of k (e ∷ es) =
    let rest = elements_of k es in if same_subject k e.0 then e.1 ∷ rest else rest

unfoldable pub states_of : List (SubjectName × Element) → States
unfolding fold elements_of
states_of log = record {
  sealed = fold (elements_of sealed_content log);
  anchor = fold (elements_of ledger_anchor log);
  tip = fold (elements_of signed_tip_subject log);
  sources = fold (elements_of source_subject log);
  signature = fold (elements_of signature_subject log);
}

unfoldable pub same_requirement : Requirement → Requirement → Bool
same_requirement trusted_signer_unmet trusted_signer_unmet = true
same_requirement ledger_required ledger_required = true
same_requirement tip_required tip_required = true
same_requirement sources_required sources_required = true
same_requirement authenticity_basis authenticity_basis = true
same_requirement _ _ = false

-- `[u for u in POLICY_UNMET if u in unmet]`
unfoldable pub listed : List Requirement → List Requirement → List Requirement
unfolding same_requirement
listed [] unmet = []
listed (u ∷ us) unmet =
    let rest = listed us unmet in if any (same_requirement u) unmet then u ∷ rest else rest

abbrev pub policy_unmet : List Requirement
policy_unmet =
    trusted_signer_unmet ∷ ledger_required ∷ tip_required ∷ sources_required ∷ authenticity_basis
    ∷ []

unfoldable pub is_judged : Layer → Bool
is_judged l = is_fail l && l.assessed

unfoldable pub is_unassessed : Layer → Bool
is_unassessed l = not l.assessed

-- `_with_admission` of the receipt that was computed.
unfoldable pub admit : List RefusalClass → Part → Receipt → Receipt
unfolding states_of listed
admit [] p r = record r {
  admission = admitted;
  states = some (states_of p.log);
  policy = some (listed policy_unmet p.unmet);
}
admit (c ∷ cs) p r = record r { admission = refused c; states = none; policy = none }

abbrev pub basis_part : Bool → Part
basis_part given = record {
  layers = [];
  log = [];
  unmet = if given then [] else authenticity_basis ∷ [];
}

-- The end of `_verify`: `p` is what all stages have recorded.
unfoldable pub conclude :
    Option TrustStore → Signature → Bool → Option Value → List RefusalClass → Part → Receipt
unfolding authenticity_of is_authentic is_judged is_unassessed admit
conclude store sig anchored digest refusals p =
    let good = is_authentic (authenticity_of store sig anchored) && not (any is_fail p.layers) in
    admit refusals p (record {
      accepted = good;
      assessed = any is_judged p.layers || not (any is_unassessed p.layers);
      authenticity = if good then authenticity_of store sig anchored else no_authenticity;
      anchored = anchored;
      layers = p.layers;
      pack_digest_shown = digest;
      admission = not_evaluated_run;
      states = none;
      policy = none;
    })

unfoldable pub verify_document : Runtime → Ed25519 → Disk → Text → Request → Fields → Result Receipt
unfolding conclude signature_part
verify_document rt ed disk path q pack = do
  reading ← ledger_reading rt ed disk path q pack
  let kind_good = is_str (get (codes "kind") pack) (codes "cra_evidence_pack/1")
  let schema_good = not (unknown_fields pack_keys pack)
  let scope_good = scope_ok (get (codes "honest_scope") pack)
  let digest = digest_part rt pack (pack_digest rt pack)
  let sig = verify_pack_signature rt ed disk path q.trust_store pack
  ok (
      conclude q.trust_store sig reading.anchored (get (codes "pack_sha3") pack)
        (refuse_unless kind_good format_unsupported
          ++ refuse_unless schema_good unknown_member
          ++ refuse_unless scope_good malformed
          ++ digest.0
          ++ refuse_unless (not (is_bad_name (ledger_file_of pack))) malformed)
        (both (shape_part kind_good schema_good scope_good) (
          both digest.1 (
            both (snapshot_part (snapshot_ok (dict_of (get (codes "verification") pack)))) (
              both reading.part (
                both (signature_part q.trust_store sig)
                  (basis_part (is_passing sig || reading.anchored))))))))

-- A receipt with one layer.
abbrev pub one_layer : Layer → Admission → Receipt
one_layer l a = record {
  accepted = false;
  assessed = l.assessed;
  authenticity = no_authenticity;
  anchored = false;
  layers = l ∷ [];
  pack_digest_shown = none;
  admission = a;
  states = none;
  policy = none;
}

unfoldable pub verify_loaded : Runtime → Ed25519 → Disk → Text → Request → Loaded → Result Receipt
verify_loaded rt ed disk path q (document (obj pack)) = verify_document rt ed disk path q pack
verify_loaded rt ed disk path q _ = ok (one_layer (layer_of pack_json fail) (refused malformed))

-- `fault` is the test hook CRA_VERIFY_INJECT_FAULT. An exception inside is a receipt.
unfoldable pub guarded : Bool → Result Receipt → Receipt
guarded false (ok r) = r
guarded _ _ = record (one_layer (layer_of verifier_exception fail) not_evaluated_run) {
  assessed = false;
}

abbrev pub log_key_shape : Option Text → Bool
log_key_shape none = true
log_key_shape (some k) = is_hex 64 k

unfoldable pub verify_pack : Bool → Runtime → Ed25519 → Disk → Text → Request → Result Receipt
unfolding verify_loaded guarded
verify_pack fault rt ed disk path q =
    if log_key_shape q.log_pubkey
    then ok (guarded fault (verify_loaded rt ed disk path q (load rt disk path)))
    else raised value_error
