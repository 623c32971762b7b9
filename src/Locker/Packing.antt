-- ===== src/Locker/Packing.antt =====
-- `_evidence_pack_locked` of cra_evidence/locker.py: the pack, its anchor in the ledger, and the rename.
use cra_evidence.Prelude.{
  ◌+◌, Text, Bytes, Bool, true, not, ◌==◌, if◌then◌else◌, List, [], ◌∷◌, ◌++◌, Option, none, some,
  codes, text_eq, ◌||◌, Result, ok, raised, value_error, os_error, output_not_written,
  tip_not_written, ◌>>=◌, ◌>>◌,
}
use cra_evidence.Json.{
  pos, name, Value, null, bool, int, str, obj, Fields, end, field, get, set_field,
}
use cra_evidence.Runtime.{Runtime}
use cra_evidence.Ledger.{entries, reads}
use cra_evidence.Ledger.Append.{State, Host, Config}
use cra_evidence.Pack.Signature.{sha3_hex, text_of}
use cra_evidence.Pack.Sources.{data_of}
use cra_evidence.Outputs.{
  of_str, Files, Output, write_tmp, remove, rename, unlink_quietly, refuse_directory,
}
use cra_evidence.Locker.{LockerVerdict, verify_records, append_bound}

abbrev legal_basis : Text
legal_basis =
    codes "Reg. (EU) 2024/2847 (Cyber Resilience Act): Annex I Part II(1) SBOM; "
    ++ codes "Art. 14(2) actively exploited vulnerability (early warning 24 h, "
    ++ codes "notification 72 h, final report 14 days after a corrective or "
    ++ codes "mitigating measure is available); Art. 14(4) severe incident (24 h, 72 "
    ++ codes "h, final report one month after the submission of the incident "
    ++ codes "notification) — reporting obligations applying from 11 September 2026 "
    ++ codes "(Art. 71); technical documentation and EU declaration of conformity "
    ++ codes "kept at least 10 years after placing on the market or for the support "
    ++ codes "period, whichever is longer (Art. 13(13))"

abbrev honest_scope : Text
honest_scope =
    codes "firm-side evidence locker: proves that these records existed, in this "
    ++ codes "order, unchanged since (hash chain, offline-verifiable); it is NOT a "
    ++ codes "conformity assessment, NOT CE marking, NOT the official CSIRT/ENISA "
    ++ codes "channel (the SRP is a human portal), NOT an objective time anchor "
    ++ codes "unless an RFC 3161 / OTS token is attached"

-- `counts[k] = counts.get(k, 0) + 1`
unfoldable pub bump : Option Value → Value
bump (some (int (pos n))) = int (pos (n + 1))
bump _ = int (pos 1)

unfoldable pub count_kind : Text → Fields → Fields
unfolding bump
count_kind [] counts = counts
count_kind (c ∷ k) counts = set_field (c ∷ k) (bump (get (c ∷ k) counts)) counts

unfoldable pub record_counts : List Value → Fields → Fields
unfolding count_kind text_of
record_counts [] counts = counts
record_counts (e ∷ es) counts =
    record_counts es (count_kind (text_of (get (codes "kind") (data_of e))) counts)

-- What the pack is about: its instant, the locker's product and support period, the path of the ledger, and the names
-- of the two files.
pub record Packing : Type 0 where
  pub generated_utc : Text
  pub product_id : Text
  pub product_version : Text
  pub support_period_end : Option Text
  pub ledger_path : Text
  pub ledger_file : Text
  pub pack_file : Text

abbrev text_or_null : Option Text → Value
text_or_null none = null
text_or_null (some s) = str s

unfoldable pub retention : Option Text → Fields
retention support_period_end = field (name (codes "minimum_years")) (int (pos 10)) (
    field (name (codes "support_period_end_utc")) (text_or_null support_period_end) (
      field (name (codes "rule"))
        (str (
          codes
            "10 years after placing on the market or the support period, whichever is longer (Art. 13(13))"))
        end))

unfoldable pub snapshot : LockerVerdict → Fields
snapshot v = field (name (codes "chain_ok")) (bool v.chain_ok) (
    field (name (codes "entries")) (int (pos v.chain.count)) (
      field (name (codes "records_checked")) (int (pos v.records_checked))
        (field (name (codes "record_digests_bound")) (bool v.record_digests_bound) end)))

unfoldable pub pack_body : Packing → LockerVerdict → List Value → Fields
unfolding retention snapshot record_counts
pack_body p v es = field (name (codes "kind")) (str (codes "cra_evidence_pack/1")) (
    field (name (codes "generated_utc")) (str p.generated_utc) (
      field (name (codes "legal_basis")) (str legal_basis) (
        field (name (codes "honest_scope")) (str honest_scope) (
          field (name (codes "product_id")) (str p.product_id) (
            field (name (codes "product_version")) (str p.product_version) (
              field (name (codes "retention_years")) (int (pos 10)) (
                field (name (codes "retention")) (obj (retention p.support_period_end)) (
                  field (name (codes "ledger_file")) (str p.ledger_file) (
                    field (name (codes "ledger_entries")) (int (pos v.chain.count)) (
                      field (name (codes "ledger_last_self_hash")) (str v.chain.last_self_hash) (
                        field (name (codes "record_counts")) (obj (record_counts es end))
                          (field (name (codes "verification")) (obj (snapshot v)) end))))))))))))

-- The pack and its digest.
unfoldable pub make_pack : Runtime → Packing → LockerVerdict → List Value → Result (Fields × Text)
unfolding sha3_hex pack_body
make_pack rt p v es = do
  h ← sha3_hex rt (obj (pack_body p v es))
  ok (set_field (codes "pack_sha3") (str h) (pack_body p v es), h)

unfoldable pub anchor_of : Packing → Text → Fields
anchor_of p h = field (name (codes "kind")) (str (codes "cra_pack_anchor")) (
    field (name (codes "anchored_pack_sha3")) (str h)
      (field (name (codes "pack_file")) (str p.pack_file) end))

-- The ledger with its tip, and the other files, that a pack is written with.
pub record Store : Type 0 where
  pub ledger : State
  pub files : Files

unfoldable pub tip_path : Text → Text
tip_path ledger_path = ledger_path ++ codes ".tip.json"

-- What was at the temporary name is the ledger now.
unfoldable pub replace_ledger : Option Bytes → State → State
replace_ledger none s = s
replace_ledger (some b) s = record s { present = true; file = b }

-- os.replace over a path that may name the ledger, which it then replaces, or the ledger's tip, of which nothing is left.
unfoldable pub move_pack : Text → Text → Text → Store → Store
unfolding tip_path replace_ledger rename remove
move_pack ledger_path tmp path s =
    if text_eq path ledger_path
    then record { ledger = replace_ledger (s.files tmp) s.ledger; files = remove tmp s.files }
    else if text_eq path (tip_path ledger_path)
    then record { ledger = record s.ledger { tip = none }; files = remove tmp s.files }
    else record s { files = rename tmp path s.files }

-- The rename behind the append of the anchor. A tip that was not written leaves the anchor in the chain, so the
-- pack appears all the same; behind any other exception the temporary file is removed.
unfoldable pub place_pack :
    Output → Text → Text → Text → Fields → Files → Result Fields × State → Result Fields × Store
unfolding move_pack
place_pack o ledger_path tmp path pack fs (ok e, s) =
    let left : Store = record { ledger = s; files = fs } in
    if o.replaced
    then (ok pack, move_pack ledger_path tmp path left)
    else (raised output_not_written, left)
place_pack o ledger_path tmp path pack fs (raised tip_not_written, s) =
    let left : Store = record { ledger = s; files = fs } in
    (raised output_not_written, if o.replaced then move_pack ledger_path tmp path left else left)
place_pack o ledger_path tmp path pack fs (raised e, s) = (
  raised (if o.removed then e else os_error),
  record { ledger = s; files = unlink_quietly o tmp fs },
)

module _ (rt : Runtime) (c : Config) (host : Host) (o : Output) (encode : Text → Option Bytes)
    (render : Value → Text) (p : Packing) (tmp path ts : Text) where
  unfoldable pub write_pack : Fields × Text → Store → Result Fields × Store
  unfolding anchor_of place_pack
  write_pack (pack, h) s =
      let (w, fs) = write_tmp encode o tmp (of_str (render (obj pack))) s.files in
      elim w [
        | raised e ↦ (raised e, record { ledger = s.ledger; files = fs })
        | ok u ↦
            place_pack o p.ledger_path tmp path pack fs
              (append_bound rt c host s.ledger (anchor_of p h) ts)
      ]

  unfoldable pub pack_verified : LockerVerdict → List Value → Store → Result Fields × Store
  unfolding make_pack write_pack
  pack_verified v es s =
      if (v.chain.count == 0) || not v.chain_ok
      then (raised value_error, s)
      else elim (make_pack rt p v es) [ raised e ↦ (raised e, s) | ok k ↦ write_pack k s ]

  -- The constant text of the scope has its NOT, so that check does not fail.
  unfoldable pub evidence_pack : (Text → Bool) → Store → Result Fields × Store
  unfolding refuse_directory verify_records pack_verified
  evidence_pack is_dir s =
      let es = entries rt (reads s.ledger.file) in
      elim (refuse_directory is_dir path >> verify_records rt es) [
        | raised e ↦ (raised e, s)
        | ok v ↦ pack_verified v es.0 s
      ]
