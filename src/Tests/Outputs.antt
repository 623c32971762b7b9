-- ===== src/Tests/Outputs.antt =====
-- Files of cra_evidence/outputs.py that are written in two writes, and a pack of cra_evidence/locker.py.
use cra_evidence.Prelude.{
  Text, true, false, [], ◌∷◌, none, some, codes, text_eq, Option, ◌≡◌, refl, ◌↔◌, Result, ok, Error,
}
use cra_evidence.Json.{
  int, pos, name, Value, str, obj, Fields, end, field, get, without, set_field, is_name,
}
use cra_evidence.Runtime.{Runtime}
use cra_evidence.Canonical.{floatfree, floatfree_fields, refuse_floats}
use cra_evidence.Canonical.Encode.{canonical_bytes}
use cra_evidence.Canonical.Encode.{escape_char}
use cra_evidence.Canonical.Depth.{nesting_depth}
use cra_evidence.Ledger.{
  genesis, is_str, entries, reads, read_entry, oversized, is_blank_line, decode, entry_hash, verify,
  verify_loop,
}
use cra_evidence.Ledger.Parse.{parse_line}
use cra_evidence.Ledger.Append.{
  Host, Config, append, prepare, commit, tail_state, tail_step, chained_hash, count_entry,
  entry_body, with_hash, payload, write_all,
}
use cra_evidence.Pack.Signature.{sha3_hex, text_of}
use cra_evidence.Pack.Sources.{data_of, dict_of}
use cra_evidence.Pack.Anchor.{is_bound, all_bound}
use cra_evidence.Outputs.{
  of_str, content_bytes, is_bad_path, Files, Output, write_loop, write_bytes, write_tmp, write_file,
  refuse_directory,
}
use cra_evidence.Outputs.Whole.{IsWhole, write_file-IsWhole}
use cra_evidence.Locker.{
  conclude_scan, append_bound, bind_record, is_record, scan, count_record, uncaught, LockerVerdict,
  verify_records,
}
use cra_evidence.Locker.Packing.{
  Packing, Store, bump, count_kind, record_counts, retention, snapshot, pack_body, make_pack,
  anchor_of, tip_path, move_pack, place_pack, write_pack, pack_verified, evidence_pack,
}
use cra_evidence.Locker.Bound.{bind_record-bound, verify_records_iff}

abbrev host : Output
host = record {
  name_encoded = true;
  opened = true;
  taken = 2 ∷ 9 ∷ [];
  synced = true;
  replaced = true;
  removed = true;
}

abbrev empty : Files
empty = λ q. none

write_file-IsWhole_example :
    IsWhole some host
      (codes "0f")
      (codes "/p")
      (of_str (codes "whole"))
      empty
      (write_file some host (codes "0f") (codes "/p") (of_str (codes "whole")) empty).0
      (write_file some host (codes "0f") (codes "/p") (of_str (codes "whole")) empty).1
write_file-IsWhole_example =
    write_file-IsWhole some host (codes "0f") (codes "/p") (of_str (codes "whole")) empty

abbrev toy : Runtime
toy = record {
  sha256 = λ b. codes "h";
  sha3_256 = λ b. codes "d";
  decode_utf8 = λ b. some b;
  scan_json = λ t. none;
}

abbrev event : Fields
event = field (name (codes "kind")) (str (codes "cra_vuln")) end

bound_event : (r : Fields) × (bind_record toy event ≡ ok r)
unfolding bind_record sha3_hex canonical_bytes refuse_floats floatfree floatfree_fields set_field
bound_event = (_, refl)

bind_record-bound_example : is_bound toy bound_event.0 ≡ ok true
unfolding get text_eq
bind_record-bound_example = bind_record-bound toy event bound_event.0 refl bound_event.1

-- A chain of one entry with that record; its own hash is the constant one.
entry : Value
entry = obj (
    field (name (codes "idx")) (int (pos 0)) (
      field (name (codes "ts")) (str (codes "t")) (
        field (name (codes "prev_hash")) (str (codes "g")) (
          field (name (codes "data")) (obj bound_event.0)
            (field (name (codes "self_hash")) (str (codes "h")) end)))))

scanned : (v : LockerVerdict) × (verify_records toy (entry ∷ [], none) ≡ ok v)
unfolding verify_records scan is_record count_record uncaught entry bound_event data_of dict_of
    sha3_hex canonical_bytes refuse_floats floatfree floatfree_fields set_field get without is_name
    is_str text_eq
scanned = (_, refl)

verify_records_iff_example : (scanned.0.chain_ok ≡ true) ↔ (
    ((verify toy (entry ∷ [], none)).chain_ok ≡ true)
    × ((◌≡◌ {A = Option Error} none none) × (all_bound toy (entry ∷ []) ≡ ok true)))
verify_records_iff_example = verify_records_iff toy (entry ∷ [], none) scanned.0 scanned.1

abbrev ledger_host : Host
ledger_host = record {
  opens = true;
  locked = true;
  writes = 999 ∷ [];
  synced = true;
  truncates = true;
  tip_replaced = true;
}

abbrev config : Config
config = record { allow_unlocked = false; has_tip_key = true }

abbrev packing : Packing
packing = record {
  generated_utc = codes "2026-02-28T10:00:00+00:00";
  product_id = codes "P1";
  product_version = codes "1";
  support_period_end = none;
  ledger_path = codes "/l";
  ledger_file = codes "l";
  pack_file = codes "p";
}

abbrev digest : Text
digest = codes "1111111111111111111111111111111111111111111111111111111111111111"

-- The one entry of the ledger: a note, which is no record with a digest.
abbrev note : Value
note = obj (
    field (name (codes "data")) (obj (field (name (codes "kind")) (str (codes "note")) end)) (
      field (name (codes "idx")) (int (pos 0)) (
        field (name (codes "prev_hash")) (str genesis)
          (field (name (codes "self_hash")) (str digest) end))))

abbrev runtime : Runtime
runtime = record {
  sha256 = λ b. digest;
  sha3_256 = λ b. digest;
  decode_utf8 = λ b. some b;
  scan_json = λ t. some note;
}

abbrev store : Store
store = record {
  ledger = record { present = true; file = codes "{}\n"; tip = none };
  files = empty;
}

abbrev written : Result Fields × Store
written =
    evidence_pack runtime config ledger_host host some (λ v. codes "{}") packing (codes "/p.0f.tmp")
      (codes "/p") (codes "t") (λ q. false) store

-- The call gets to its end.
packed : (pack : Fields) × (written.0 ≡ ok pack)
unfolding evidence_pack refuse_directory verify_records conclude_scan scan is_record uncaught
    pack_verified make_pack pack_body retention snapshot record_counts count_kind bump text_of
    write_pack write_tmp content_bytes is_bad_path write_bytes write_loop place_pack move_pack
    tip_path anchor_of append_bound bind_record sha3_hex canonical_bytes refuse_floats floatfree
    floatfree_fields set_field append prepare tail_state chained_hash count_entry entries reads
    entry_hash nesting_depth parse_line entry_body with_hash commit payload write_all verify
    verify_loop data_of dict_of get without is_name is_str text_eq escape_char read_entry oversized
    is_blank_line decode tail_step
packed = (_, refl)
