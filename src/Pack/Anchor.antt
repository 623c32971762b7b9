-- ===== src/Pack/Anchor.antt =====
-- The ledger next to the pack, in `_verify` of cra_evidence/verify_pack.py: which file it is, its one reading,
-- the binding of its records, the anchor, the declared state, and the checks that follow a verified chain.
use cra_evidence.Prelude.{
  ℕ, ◌-◌, Text, Bytes, Bool, true, false, not, ◌&&◌, ltb, leb, if◌then◌else◌, List, [], ◌∷◌, Option,
  none, some, length, get_elem?, any, codes, Result, ok, ◌>>=◌,
}
use cra_evidence.Json.{pos, negsuc, Value, int, str, obj, Fields, get, without}
use cra_evidence.Runtime.{Runtime}
use cra_evidence.Ledger.{is_str, reads, entries, verify}
use cra_evidence.Disk.{Node, regular, special, Disk, present}
use cra_evidence.Pack.{
  ledger_malformed, entry_unknown_member, record_unbound, not_anchored, state_mismatch, tip_invalid,
  tail_mismatch, not_present, unreadable, key_not_given, instrument_failure, Element, verified,
  contradicted, not_evaluated, pass, fail, skip, ledger_schema, ledger_chain, pack_ledger_state,
  source_documents, signed_tip, layer_of, pass_if, is_fail, tip_required, sources_required,
  SubjectName, ledger_anchor, signed_tip_subject, source_subject, Part, nothing, finding,
}
use cra_evidence.Pack.Hex.{is_hex}
use cra_evidence.Pack.Signature.{
  Ed25519, Loaded, document, failed, load, sha3_hex, text_of, unknown_fields,
}
use cra_evidence.Pack.TipCheck.{TipVerdict, tip_ok, tip_unchecked, tip_refused, verify_tip}
use cra_evidence.Pack.Sources.{data_of, is_hash_only, source_status}

abbrev entry_keys : List Text
entry_keys = codes "idx" ∷ codes "ts" ∷ codes "data" ∷ codes "prev_hash" ∷ codes "self_hash" ∷ []

abbrev pub record_kinds : List Text
record_kinds =
    codes "cra_sbom"
    ∷ codes "cra_vuln"
    ∷ codes "cra_srp_notice"
    ∷ codes "cra_longterm_seal"
    ∷ codes "cra_pack_anchor"
    ∷ []

unfoldable pub has_unknown : Value → Bool
has_unknown (obj e) = unknown_fields entry_keys e
has_unknown _ = false

unfoldable pub schema_part : List Value → Part
schema_part es =
    if any has_unknown es
    then finding ledger_schema fail ledger_anchor (contradicted entry_unknown_member)
    else nothing

-- The file read once: what could not be read or parse_file, a chain that does not verify, or one that does.
pub data Snapshot : Type 0 where
  unread : Element → Snapshot
  broken chained : List Value → Snapshot

unfoldable pub parse_ledger : Runtime → Bytes → Snapshot
parse_ledger rt b =
    let s = entries rt (reads b) in
    elim s.1 [
      | some e ↦ unread (contradicted ledger_malformed)
      | none ↦ if (verify rt (s.0, none)).chain_ok then chained s.0 else broken s.0
    ]

unfoldable pub read_ledger : Runtime → Node → Snapshot
unfolding parse_ledger
read_ledger rt (regular b) = parse_ledger rt b
read_ledger rt special = unread (contradicted ledger_malformed)
read_ledger rt _ = unread (not_evaluated unreadable)

-- `sha3_hex(...) == d.get("record_sha3")` for the records, an exception of the digest included
unfoldable pub is_bound : Runtime → Fields → Result Bool
unfolding sha3_hex
is_bound rt d =
    if any (is_str (get (codes "kind") d)) record_kinds
    then (do
      h ← sha3_hex rt (obj (without (codes "record_sha3") d))
      ok (is_str (get (codes "record_sha3") d) h))
    else ok true

unfoldable pub all_bound : Runtime → List Value → Result Bool
all_bound rt [] = ok true
all_bound rt (e ∷ es) = do b ← is_bound rt (data_of e); rest ← all_bound rt es; ok (b && rest)

unfoldable pub is_anchor : Fields → Fields → Bool
unfolding text_of
is_anchor pack d =
    is_str (get (codes "kind") d) (codes "cra_pack_anchor")
    && (is_hex 64 (text_of (get (codes "pack_sha3") pack))
        && is_str (get (codes "anchored_pack_sha3") d) (text_of (get (codes "pack_sha3") pack)))

-- The `idx` of an entry; in a verified chain it is an integer from 0 on.
unfoldable pub idx_of : Value → Option ℕ
idx_of (obj e) = elim (get (codes "idx") e) [
  | some v ↦ elim v [ int z ↦ elim z [ pos n ↦ some n | negsuc n ↦ none ] | _ ↦ none ]
  | none ↦ none
]
idx_of _ = none

-- The index of the last anchor of the pack: `anchor` and `anchor_idx` behind the loop.
unfoldable pub last_anchor : Fields → List Value → Option (Option ℕ)
unfolding is_anchor idx_of
last_anchor pack [] = none
last_anchor pack (e ∷ es) = elim (last_anchor pack es) [
  | some i ↦ some i
  | none ↦ if is_anchor pack (data_of e) then some (idx_of e) else none
]

unfoldable pub is_some_anchor : Option (Option ℕ) → Bool
is_some_anchor none = false
is_some_anchor (some i) = true

unfoldable pub not_before : ℕ → Option (Option ℕ) → Bool
not_before n (some (some i)) = leb n i
not_before n _ = true

-- `e["self_hash"]`
unfoldable pub self_hash_of : Option Value → Option Value
self_hash_of (some (obj e)) = get (codes "self_hash") e
self_hash_of _ = none

-- `entries[n - 1].get("self_hash") == pack.get("ledger_last_self_hash")`; in a verified chain the hash is
-- a text, so it can equal a text only.
abbrev same_text : Option Value → Option Value → Bool
same_text (some (str s)) v = is_str v s
same_text _ v = false

abbrev declared : Option Value → ℕ
declared (some (int (pos n))) = n
declared _ = 0

unfoldable pub state_ok : Fields → List Value → Option (Option ℕ) → Bool
unfolding self_hash_of not_before
state_ok pack es anchor =
    let n = declared (get (codes "ledger_entries") pack) in
    ltb 0 n
    && (leb n (length es)
        && (same_text (self_hash_of (get_elem? es (n - 1)))
              (get (codes "ledger_last_self_hash") pack)
            && not_before n anchor))

unfoldable pub anchor_part : Bool → Bool → Part
anchor_part bound anchor =
    if not bound
    then finding ledger_chain fail ledger_anchor (contradicted record_unbound)
    else if anchor
    then finding ledger_chain pass ledger_anchor verified
    else finding ledger_chain fail ledger_anchor (contradicted not_anchored)

unfoldable pub state_part : Bool → Part
state_part good =
    finding pack_ledger_state (pass_if good) ledger_anchor
      (if good then verified else contradicted state_mismatch)

unfoldable pub tag : SubjectName → List Element → List (SubjectName × Element)
tag k [] = []
tag k (e ∷ es) = (k, e) ∷ tag k es

unfoldable pub source_part : Bool → List Element → Part
unfolding source_status tag
source_part require es = record {
  layers = layer_of source_documents (source_status require es) ∷ [];
  log = tag source_subject es;
  unmet =
      if is_fail (layer_of source_documents (source_status require es))
        && (require && any is_hash_only es)
      then sources_required ∷ []
      else [];
}

unfoldable pub tip_verdict_part : TipVerdict → Part
tip_verdict_part tip_ok = finding signed_tip pass signed_tip_subject verified
tip_verdict_part tip_unchecked = record {
  layers = record { layer = signed_tip; status = fail; assessed = false } ∷ [];
  log = (signed_tip_subject, not_evaluated instrument_failure) ∷ [];
  unmet = [];
}
tip_verdict_part tip_refused = finding signed_tip fail signed_tip_subject (contradicted tip_invalid)
tip_verdict_part _ = finding signed_tip fail signed_tip_subject (contradicted tail_mismatch)

abbrev last_of : List Value → Option Value
last_of es = get_elem? es (length es - 1)

unfoldable pub loaded_tip_part : Ed25519 → Text → List Value → Loaded → Part
unfolding tip_verdict_part self_hash_of
loaded_tip_part ed key es (document tip) =
    tip_verdict_part (
      verify_tip ed tip key (length es) (self_hash_of (get_elem? es 0)) (self_hash_of (last_of es)))
loaded_tip_part ed key es failed =
    finding signed_tip fail signed_tip_subject (not_evaluated unreadable)
loaded_tip_part ed key es _ = finding signed_tip fail signed_tip_subject (contradicted tip_invalid)

unfoldable pub tip_part : Runtime → Ed25519 → Disk → Text → Option Text → List Value → Part
unfolding loaded_tip_part
tip_part rt ed disk tip_path (some key) es =
    if present disk tip_path then loaded_tip_part ed key es (load rt disk tip_path) else record {
      layers = layer_of signed_tip fail ∷ [];
      log = (signed_tip_subject, not_evaluated not_present) ∷ [];
      unmet = tip_required ∷ [];
    }
tip_part rt ed disk tip_path none es =
    if present disk tip_path
    then finding signed_tip skip signed_tip_subject (not_evaluated key_not_given)
    else record { layers = layer_of signed_tip skip ∷ []; log = []; unmet = [] }
