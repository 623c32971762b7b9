-- ===== src/Pack/Sources.antt =====
-- `_source_documents` of cra_evidence/verify_pack.py: the stored documents of the recorded SBOM sources.
use cra_evidence.Prelude.{
  ℕ, ◌*◌, ◌^◌, Text, Bool, true, false, if◌then◌else◌, List, [], ◌∷◌, ◌++◌, map, Option, none, some,
  any, is_empty, codes, text_eq,
}
use cra_evidence.Json.{Value, null, str, obj, Fields, end, get}
use cra_evidence.Runtime.{Runtime}
use cra_evidence.Canonical.Encode.{text_lt}
use cra_evidence.Ledger.{is_str}
use cra_evidence.Disk.{
  Node, regular, special, denied, below_file, absent, Disk, Read, content, not_regular_file,
  file_too_large, os_failure, read_node,
}
use cra_evidence.Pack.{
  Element, verified, contradicted, not_evaluated, record_malformed, source_mismatch, unreadable,
  hash_only, Status, pass, fail, skip,
}
use cra_evidence.Pack.Hex.{is_hex}

-- `v if isinstance(v, dict) else {}`
unfoldable pub dict_of : Option Value → Fields
dict_of (some (obj d)) = d
dict_of _ = end

-- `e.get("data")` of an entry; the entries of a verified chain are dicts.
unfoldable pub data_of : Value → Fields
unfolding dict_of
data_of (obj e) = dict_of (get (codes "data") e)
data_of _ = end

-- What the loop over the entries does with one: nothing, a malformed record, or a hash that is wanted.
pub data Recorded : Type 0 where
  unrecorded faulty : Recorded
  hashed : Text → Recorded

abbrev external_formats : List Text
external_formats = codes "cyclonedx-json" ∷ codes "spdx-json" ∷ codes "spdx-jsonld" ∷ []

abbrev without_hash : Fields → Recorded
without_hash src =
    if any (is_str (get (codes "format") src)) external_formats then faulty else unrecorded

unfoldable pub source_hash : Fields → Option Value → Recorded
source_hash src none = without_hash src
source_hash src (some null) = without_hash src
source_hash src (some (str [])) = without_hash src
source_hash src (some (str (c ∷ h))) = if is_hex 64 (c ∷ h) then hashed (c ∷ h) else faulty
source_hash src (some _) = faulty

unfoldable pub recorded : Fields → Recorded
unfolding source_hash
recorded d =
    if is_str (get (codes "kind") d) (codes "cra_sbom")
    then elim (get (codes "source") d) [
      | none ↦ unrecorded
      | some v ↦ elim v [ obj src ↦ source_hash src (get (codes "sha256") src) | _ ↦ unrecorded ]
    ]
    else unrecorded

-- `sorted(wanted)`: each hash once
unfoldable pub insert_once : Text → List Text → List Text
insert_once h [] = h ∷ []
insert_once h (k ∷ ks) =
    let rest = insert_once h ks in
    if text_eq h k then k ∷ ks else if text_lt h k then h ∷ k ∷ ks else k ∷ rest

unfoldable pub note_hash : Recorded → List Text → List Text
unfolding insert_once
note_hash (hashed h) hs = insert_once h hs
note_hash _ hs = hs

unfoldable pub wanted : List Value → List Text
unfolding note_hash
wanted [] = []
wanted (e ∷ es) = note_hash (recorded (data_of e)) (wanted es)

unfoldable pub note_faulty : Recorded → List Element → List Element
note_faulty faulty es = contradicted record_malformed ∷ es
note_faulty _ es = es

unfoldable pub malformed_records : List Value → List Element
unfolding note_faulty
malformed_records [] = []
malformed_records (e ∷ es) = note_faulty (recorded (data_of e)) (malformed_records es)

abbrev pub max_source_bytes : ℕ
max_source_bytes = 256 * 2 ^ 20

-- A stored document, read and hashed.
unfoldable pub judge_read : Runtime → Text → Read → Element
judge_read rt h (content b) =
    if text_eq (rt.sha256 b) h then verified else contradicted source_mismatch
judge_read rt h not_regular_file = contradicted source_mismatch
judge_read rt h file_too_large = contradicted source_mismatch
judge_read rt h os_failure = not_evaluated unreadable

unfoldable pub judge_document : Runtime → Text → Node → Element
unfolding judge_read read_node
judge_document rt h absent = not_evaluated hash_only
judge_document rt h (regular b) = judge_read rt h (read_node max_source_bytes (regular b))
judge_document rt h special = judge_read rt h (read_node max_source_bytes special)
judge_document rt h denied = not_evaluated unreadable
judge_document rt h below_file = not_evaluated unreadable

-- <ledger>.sources/<sha256>.json
abbrev pub source_file : Text → Text → Text
source_file ledger h = ledger ++ codes ".sources/" ++ h ++ codes ".json"

unfoldable pub judge_documents : Runtime → Disk → Text → List Text → List Element
judge_documents rt disk ledger hs =
    map (λ h. judge_document rt h (disk.at (source_file ledger h))) hs

unfoldable pub source_elements : Runtime → Disk → Text → List Value → List Element
unfolding wanted malformed_records judge_documents
source_elements rt disk ledger es =
    malformed_records es ++ judge_documents rt disk ledger (wanted es)

-- An element that goes with an item of `bad`.
unfoldable pub is_bad : Element → Bool
is_bad (contradicted r) = true
is_bad (not_evaluated unreadable) = true
is_bad _ = false

unfoldable pub is_hash_only : Element → Bool
is_hash_only (not_evaluated hash_only) = true
is_hash_only _ = false

-- The status of the layer: each element that is not verified counts to `bad` or to `absent`.
unfoldable pub source_status : Bool → List Element → Status
unfolding is_bad is_hash_only
source_status require es =
    if is_empty es
    then skip
    else if any is_bad es
    then fail
    else if any is_hash_only es
    then (if require then fail else skip)
    else pass
