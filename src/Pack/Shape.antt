-- ===== src/Pack/Shape.antt =====
-- `_verify` of cra_evidence/verify_pack.py: the checks of the pack by itself.
use cra_evidence.Prelude.{
  ◌==◌, Text, Bool, true, false, ◌&&◌, ◌||◌, if◌then◌else◌, List, [], ◌∷◌, Option, some, is_empty,
  codes, Result, ok, raised,
}
use cra_evidence.Json.{Value, bool, str, Fields, get}
use cra_evidence.Runtime.{Runtime}
use cra_evidence.Ledger.{is_str}
use cra_evidence.Pack.{
  digest_mismatch, self_verification_failed, verified, contradicted, pass, fail, pack_json,
  pack_kind, pack_schema, honest_scope, pack_sha3, pack_self_verification, layer_of, pass_if,
  RefusalClass, malformed, sealed_content, Part, finding,
}

abbrev pub pack_keys : List Text
pack_keys =
    codes "kind"
    ∷ codes "generated_utc"
    ∷ codes "legal_basis"
    ∷ codes "honest_scope"
    ∷ codes "product_id"
    ∷ codes "product_version"
    ∷ codes "retention"
    ∷ codes "retention_years"
    ∷ codes "ledger_file"
    ∷ codes "ledger_entries"
    ∷ codes "ledger_last_self_hash"
    ∷ codes "record_counts"
    ∷ codes "verification"
    ∷ codes "pack_sha3"
    ∷ []

abbrev honest_scope_mark : Text
honest_scope_mark = codes "NOT a conformity assessment"

unfoldable pub starts_with : Text → Text → Bool
starts_with [] s = true
starts_with (c ∷ cs) [] = false
starts_with (c ∷ cs) (d ∷ s) = (c == d) && starts_with cs s

-- `part in s`
unfoldable pub contains : Text → Text → Bool
unfolding starts_with
contains part [] = is_empty part
contains part (c ∷ s) = starts_with part (c ∷ s) || contains part s

abbrev pub scope_ok : Option Value → Bool
scope_ok (some (str s)) = contains honest_scope_mark s
scope_ok _ = false

abbrev is_true : Option Value → Bool
is_true (some (bool b)) = b
is_true _ = false

abbrev pub snapshot_ok : Fields → Bool
snapshot_ok pv =
    is_true (get (codes "chain_ok") pv) && is_true (get (codes "record_digests_bound") pv)

-- A check whose failure is a refusal.
abbrev pub refuse_unless : Bool → RefusalClass → List RefusalClass
refuse_unless good c = if good then [] else c ∷ []

-- The pack by itself: what it is refused for, and the layers with the elements of sealed_content.
unfoldable pub digest_part : Runtime → Fields → Result Text → List RefusalClass × Part
digest_part rt pack (raised e) =
    (malformed ∷ [], record { layers = layer_of pack_sha3 fail ∷ []; log = []; unmet = [] })
digest_part rt pack (ok h) =
    let good = is_str (get (codes "pack_sha3") pack) h in
    (
      [],
      finding pack_sha3 (pass_if good) sealed_content
          (if good then verified else contradicted digest_mismatch),
    )

unfoldable pub shape_part : Bool → Bool → Bool → Part
shape_part kind_good schema_good scope_good = record {
  layers =
      layer_of pack_json pass
      ∷ layer_of pack_kind (pass_if kind_good)
      ∷ layer_of pack_schema (pass_if schema_good)
      ∷ layer_of honest_scope (pass_if scope_good)
      ∷ [];
  log = [];
  unmet = [];
}

unfoldable pub snapshot_part : Bool → Part
snapshot_part good =
    finding pack_self_verification (pass_if good) sealed_content
      (if good then verified else contradicted self_verification_failed)
