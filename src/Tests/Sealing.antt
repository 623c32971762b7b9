-- ===== src/Tests/Sealing.antt =====
-- A seal by cra_evidence/locker.py of a digest that the one entry of the ledger anchors.
use cra_evidence.Prelude.{Text, true, false, [], ◌∷◌, none, some, codes, text_eq, ◌≡◌, refl, ok}
use cra_evidence.Json.{
  pos, name, Value, int, str, obj, end, field, finite, Fields, get, without, set_field, is_name,
}
use cra_evidence.Runtime.{Runtime}
use cra_evidence.Canonical.{names_only, refuse_floats, floatfree, floatfree_fields}
use cra_evidence.Canonical.Encode.{canonical_bytes, escape_char}
use cra_evidence.Canonical.Depth.{nesting_depth}
use cra_evidence.Ledger.{
  genesis, is_str, entries, reads, read_entry, oversized, is_blank_line, decode, entry_hash,
}
use cra_evidence.Ledger.Parse.{parse_line}
use cra_evidence.Pack.Sources.{data_of, dict_of}
use cra_evidence.Ledger.Append.{
  State, Host, Config, append, prepare, commit, tail_state, tail_step, chained_hash, count_entry,
  entry_body, with_hash, payload, write_all,
}
use cra_evidence.Pack.Signature.{sha3_hex}
use cra_evidence.Pack.Hex.{is_hex, is_hex_digit, from_hex}
use cra_evidence.Longterm.{
  signer, seal, message, digest_with, sign_with, new_record, with_sig, append_fields, token_fields,
  items_of,
}
use cra_evidence.Tests.Longterm.{toy, registry}
use cra_evidence.Locker.{bind_record, append_bound, append_record}
use cra_evidence.Locker.Sealing.{
  Sealing, anchors, is_anchored, chain_of, key_of, check_anchored, seal_entry, to_dict, make_seal,
  seal_longterm,
}

abbrev digest : Text
digest = codes "1111111111111111111111111111111111111111111111111111111111111111"

abbrev anchor : Value
anchor = obj (
    field (name (codes "data"))
      (obj (
        field (name (codes "kind")) (str (codes "cra_pack_anchor"))
          (field (name (codes "anchored_pack_sha3")) (str digest) end)))
      (field (name (codes "idx")) (int (pos 0)) (
        field (name (codes "prev_hash")) (str genesis)
          (field (name (codes "self_hash")) (str digest) end))))

abbrev runtime : Runtime
runtime = record {
  sha256 = λ b. digest;
  sha3_256 = λ b. digest;
  decode_utf8 = λ b. some b;
  scan_json = λ t. some anchor;
}

abbrev host : Host
host = record {
  opens = true;
  locked = true;
  writes = 99999 ∷ [];
  synced = true;
  truncates = true;
  tip_replaced = true;
}

abbrev config : Config
config = record { allow_unlocked = false; has_tip_key = false }

abbrev anchored : State
anchored = record { present = true; file = codes "{}\n"; tip = none }

abbrev sealing : Sealing
sealing = record {
  pack_sha3 = digest;
  alg = codes "ed25519";
  ts_source = codes "asserted";
  time = finite (codes "1");
  previous = none;
  key = some (codes "k", codes "p");
  fresh = (codes "x", codes "y");
  token_b64 = none;
  external_digest = false;
}

sealed :
    (d : Fields) × ((seal_longterm toy registry runtime config host none anchored sealing
        (codes "t")).0
      ≡ ok d)
unfolding seal_longterm make_seal check_anchored chain_of key_of signer seal message digest_with
    sign_with new_record with_sig append_fields token_fields from_hex is_hex is_hex_digit seal_entry
    to_dict items_of append_record append_bound bind_record sha3_hex canonical_bytes refuse_floats
    floatfree floatfree_fields set_field append prepare tail_state reads entry_hash nesting_depth
    entry_body with_hash commit payload write_all is_anchored anchors data_of dict_of tail_step
    chained_hash count_entry entries read_entry oversized is_blank_line decode parse_line is_str get
    without is_name text_eq escape_char names_only
sealed = (_, refl)
