-- ===== src/Locker.antt =====
-- CRAEvidenceLocker of cra_evidence/locker.py: records that are bound to their content, verify, and the pack that
-- appears once its anchor is in the ledger.
pub mod Bound
pub mod Packing
pub mod Anchored
pub mod Sealing
pub mod Sealed
use cra_evidence.Prelude.{
  ℕ, suc, ◌+◌, Text, Bytes, Bool, true, false, not, ◌&&◌, ◌||◌, ltb, ◌==◌, if◌then◌else◌, List, [],
  ◌∷◌, ◌++◌, Option, none, some, any, is_empty, codes, text_eq, Result, ok, raised, Error,
  type_error, value_error, recursion_error, output_not_written, tip_not_written, guard, ◌>>=◌, ◌>>◌,
}
use cra_evidence.Json.{
  pos, name, Value, null, bool, int, str, obj, Fields, end, field, get, without, set_field,
}
use cra_evidence.Runtime.{Runtime}
use cra_evidence.Canonical.{floatfree_fields}
use cra_evidence.Ledger.{Stream, Verdict, is_str, entries, reads, verify}
use cra_evidence.Ledger.Append.{State, Host, Config, append}
use cra_evidence.Pack.Signature.{sha3_hex}
use cra_evidence.Pack.Sources.{data_of}
use cra_evidence.Pack.Anchor.{record_kinds}
use cra_evidence.Outputs.{Files, Output, write_tmp, rename, unlink_quietly, refuse_directory}

-- `_bind`: the digest of the record without floats goes into it.
unfoldable pub bind_record : Runtime → Fields → Result Fields
unfolding sha3_hex
bind_record rt d = do
  e ← floatfree_fields d
  h ← sha3_hex rt (obj e)
  ok (set_field (codes "record_sha3") (str h) e)

-- `except RecursionError: raise ValueError`
unfoldable pub as_value_error : Error → Error
as_value_error recursion_error = value_error
as_value_error e = e

abbrev recast : Result Fields × State → Result Fields × State
recast (raised e, s) = (raised (as_value_error e), s)
recast (ok d, s) = (ok d, s)

unfoldable pub append_bound :
    Runtime → Config → Host → State → Fields → Text → Result Fields × State
unfolding bind_record
append_bound rt c host s d ts = elim (bind_record rt d) [
  | raised e ↦ (raised e, s)
  | ok r ↦ append rt c host s (obj r) ts
]

-- `_append`
unfoldable pub append_record :
    Runtime → Config → Host → State → Fields → Text → Result Fields × State
unfolding append_bound as_value_error
append_record rt c host s d ts = recast (append_bound rt c host s d ts)

-- What the scan of `verify` found: the records, those whose digest differs, and what ended it.
pub record Scan : Type 0 where
  pub checked : ℕ
  pub mismatched : ℕ
  pub aborted : Option Error

unfoldable pub is_record : Fields → Bool
is_record d = any (is_str (get (codes "kind") d)) record_kinds

unfoldable pub count_record : Bool → Scan → Scan
count_record good s = record {
  checked = s.checked + 1;
  mismatched = if good then s.mismatched else s.mismatched + 1;
  aborted = s.aborted;
}

-- An entry that is no dict, or whose data is none, has no record.
unfoldable pub scan : Runtime → List Value → Option Error → Scan
unfolding sha3_hex is_record count_record
scan rt [] x = record { checked = 0; mismatched = 0; aborted = x }
scan rt (e ∷ es) x =
    let rest = scan rt es x in
    let d = data_of e in
    if is_record d
    then elim (sha3_hex rt (obj (without (codes "record_sha3") d))) [
      | raised z ↦ record { checked = 1; mismatched = 0; aborted = some z }
      | ok h ↦ count_record (is_str (get (codes "record_sha3") d) h) rest
    ]
    else rest

-- The exceptions that `verify` turns into a verdict; an OSError goes on.
unfoldable pub is_caught : Error → Bool
is_caught type_error = true
is_caught value_error = true
is_caught recursion_error = true
is_caught _ = false

pub record LockerVerdict : Type 0 where
  pub chain_ok : Bool
  pub chain : Verdict
  pub records_checked : ℕ
  pub record_digests_bound : Bool

abbrev pub is_whole : Option Error → Bool
is_whole none = true
is_whole (some e) = false

unfoldable pub conclude_scan : Verdict → Scan → LockerVerdict
conclude_scan v s =
    let whole = is_whole s.aborted in
    record {
      chain_ok = v.chain_ok && (whole && (s.mismatched == 0));
      chain = v;
      records_checked = s.checked;
      record_digests_bound = (s.mismatched == 0) && whole;
    }

unfoldable pub uncaught : Option Error → Option Error
uncaught none = none
uncaught (some e) = if is_caught e then none else some e

-- `verify`, of a ledger that does not change between its two readings
unfoldable pub verify_records : Runtime → Stream → Result LockerVerdict
unfolding scan conclude_scan uncaught is_caught
verify_records rt s =
    let found = scan rt s.0 s.1 in
    elim (uncaught found.aborted) [
      | some e ↦ raised e
      | none ↦ ok (conclude_scan (verify rt s) found)
    ]
