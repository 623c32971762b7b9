-- ===== src/Tests/Ledger.antt =====
-- ledger.py on a toy runtime: one digest for all bytes, and a scanner that knows one line.
use cra_evidence.Prelude.{
  ◌<◌, ◌≡◌, ◌↔◌, refl, Text, Bool, true, false, List, [], ◌∷◌, ◌++◌, Option, none, some, length,
  codes, text_eq, ok, raised, inl, arith, if◌then◌else◌, output_not_written, Error,
}
use cra_evidence.Json.{
  pos, name, Value, null, int, str, obj, Fields, end, field, get, without, is_name,
}
use cra_evidence.Runtime.{Runtime}
use cra_evidence.Canonical.{has_surrogate}
use cra_evidence.Canonical.Depth.{nesting_depth}
use cra_evidence.Canonical.Encode.{canonical_bytes, dumps, escape_char}
use cra_evidence.Ledger.{genesis, reads, entries, entry_hash, verify, verify_loop}
use cra_evidence.Ledger.Parse.{parse_line}
use cra_evidence.Ledger.Hashable.{ScansJson, json_only, canonical_bytes-parse_line}
use cra_evidence.Canonical.Accept.{height, height_fields, clean, clean_fields, clean_key}
use cra_evidence.Ledger.Chain.{Chain}
use cra_evidence.Ledger.Verify.{verify_iff, verify-prefix, entry_hash-replace}
use cra_evidence.Ledger.Append.{
  State, Host, Config, prepare, append, tail_state, entry_body, with_hash, payload, write_all,
}
use cra_evidence.Ledger.Append.Atomic.{append-atomic, IsKept}
use cra_evidence.Ledger.Append.Scanned.{
  ReadsBack, is_last, has_unique_keys, unique_items, unique_fields,
}
use cra_evidence.Ledger.Append.Appended.{IsAppended, append-IsAppended}
use cra_evidence.Ledger.Append.Readback.{append-verify}

abbrev digest : Text
digest = codes "aaaaaaaaaaaaaaaaaaaaaaaaaaaaaaaaaaaaaaaaaaaaaaaaaaaaaaaaaaaaaaaa"

-- The first entry, as it is written and as json.loads gives it back.
abbrev first_entry : Fields
first_entry = field (name (codes "idx")) (int (pos 0)) (
    field (name (codes "ts")) (str (codes "t")) (
      field (name (codes "prev_hash")) (str genesis)
        (field (name (codes "data")) null (field (name (codes "self_hash")) (str digest) end))))

abbrev sorted_entry : Fields
sorted_entry = field (name (codes "data")) null (
    field (name (codes "idx")) (int (pos 0)) (
      field (name (codes "prev_hash")) (str genesis) (
        field (name (codes "self_hash")) (str digest)
          (field (name (codes "ts")) (str (codes "t")) end))))

abbrev second_entry : Fields
second_entry = field (name (codes "idx")) (int (pos 1)) (
    field (name (codes "prev_hash")) (str digest)
      (field (name (codes "self_hash")) (str digest) end))

abbrev toy : Runtime
toy = record {
  sha256 = λ b. digest;
  sha3_256 = λ b. digest;
  decode_utf8 = λ b. some b;
  scan_json = λ t. some (obj sorted_entry);
}

abbrev two : List Value
two = obj first_entry ∷ obj second_entry ∷ []

two-verify : (verify toy (two, none)).chain_ok ≡ true
unfolding verify verify_loop entry_hash get without text_eq
two-verify = refl

verify_iff_example : ((verify toy (two, none)).chain_ok ≡ true) ↔ (
    (◌≡◌ {A = Option Error} none none)
    × (0 < length two)
    × Chain toy 0 genesis two (verify toy (two, none)).last_self_hash)
verify_iff_example = verify_iff toy (two, none)

verify-prefix_example : (verify toy (obj first_entry ∷ [], none)).chain_ok ≡ true
verify-prefix_example =
    verify-prefix toy (obj first_entry ∷ []) (obj second_entry ∷ []) (omega arith) two-verify

entry_hash-replace_example : entry_hash toy first_entry ≡ entry_hash toy sorted_entry
unfolding verify verify_loop entry_hash get without text_eq
entry_hash-replace_example =
    entry_hash-replace toy [] (obj second_entry ∷ []) first_entry sorted_entry refl refl refl

abbrev config : Config
config = record { allow_unlocked = false; has_tip_key = false }

abbrev host : Host
host = record {
  opens = true;
  locked = true;
  writes = 10 ∷ 1000 ∷ [];
  synced = true;
  truncates = true;
  tip_replaced = true;
}

-- A disk that takes ten bytes and no more.
abbrev full_disk : Host
full_disk = record host { writes = 10 ∷ [] }

abbrev fresh : State
fresh = record { present = false; file = []; tip = none }

append_run : (append toy config host fresh null (codes "t")).0 ≡ ok first_entry
unfolding append prepare tail_state reads entry_hash canonical_bytes nesting_depth entry_body
    with_hash payload write_all without text_eq escape_char
append_run = refl

full_run : (append toy config full_disk fresh null (codes "t")).0 ≡ raised output_not_written
unfolding append prepare tail_state reads entry_hash canonical_bytes nesting_depth entry_body
    with_hash payload write_all without text_eq escape_char
full_run = refl

append-atomic_example : IsKept fresh (append toy config full_disk fresh null (codes "t")).1
append-atomic_example =
    append-atomic toy config full_disk fresh null (codes "t") output_not_written refl (λ e. cc)
      full_run

first_text : Text
first_text = dumps (obj first_entry)

first_bytes : canonical_bytes (obj first_entry) ≡ ok first_text
unfolding canonical_bytes first_text
first_bytes = refl

first_back : ReadsBack toy first_entry sorted_entry first_text
unfolding first_text dumps get without text_eq escape_char is_name is_last has_unique_keys
    unique_items unique_fields height height_fields clean clean_fields clean_key has_surrogate
first_back = record {
  decoded = refl;
  scanned = refl;
  unique = refl;
  deep = refl;
  unspoiled = refl;
  idx = refl;
  prev_hash = refl;
  self_hash = refl;
  dumped = refl;
}

first_reads :
    (text : Text)
    → canonical_bytes (obj first_entry) ≡ ok text
    → ReadsBack toy first_entry sorted_entry text
first_reads text h = let e : first_text ≡ text = cc (first_bytes) in rw e at first_back

empty-Chain : Chain toy 0 genesis (entries toy (reads [])).0 genesis
unfolding entries reads
empty-Chain = refl

abbrev keyed : Config
keyed = record config { has_tip_key = true }

keyed_run : (append toy keyed host fresh null (codes "t")).0 ≡ ok first_entry
unfolding append prepare tail_state reads entry_hash canonical_bytes nesting_depth entry_body
    with_hash payload write_all without text_eq escape_char
keyed_run = refl

append-IsAppended_example :
    IsAppended toy keyed
      (entries toy (reads [])).0
      genesis
      (codes "t")
      null
      fresh
      (append toy keyed host fresh null (codes "t")).1
      first_entry
append-IsAppended_example =
    append-IsAppended toy keyed host fresh null (codes "t") first_entry genesis empty-Chain
      keyed_run

append-verify_example :
    (entries toy (reads (append toy config host fresh null (codes "t")).1.file)
      ≡ ((entries toy (reads [])).0 ++ obj sorted_entry ∷ [], none))
    × ((verify toy
          (entries toy (reads (append toy config host fresh null (codes "t")).1.file))).chain_ok
        ≡ true)
    × (get (codes "self_hash") sorted_entry
        ≡ some (
            str
              (verify toy (
                entries toy
                  (reads (append toy config host fresh null (codes "t")).1.file))).last_self_hash))
append-verify_example =
    append-verify toy config host fresh null (codes "t") first_entry sorted_entry genesis (inl refl)
      empty-Chain append_run first_reads

-- A scanner that knows the empty object only.
abbrev bare : Runtime
bare = record toy { scan_json = λ t. if text_eq t (codes "{}") then some (obj end) else none }

bare_value : (b : Bool) (v : Value) → (if b then some (obj end) else none) ≡ some v → obj end ≡ v
bare_value true v h = cc
bare_value false v h = cc

bare_scans : ScansJson bare
unfolding json_only height
bare_scans = record {
  values = λ t v h. rw (← bare_value (text_eq t (codes "{}")) v h);
  levels = λ t v h. rw (← bare_value (text_eq t (codes "{}")) v h) (omega arith);
}

bare_parse : parse_line bare (codes "{}") false ≡ ok (obj end)
unfolding parse_line text_eq
bare_parse = refl

canonical_bytes-parse_line_example : canonical_bytes (obj end) ≡ ok (dumps (obj end))
canonical_bytes-parse_line_example =
    canonical_bytes-parse_line bare (codes "{}") (obj end) bare_scans bare_parse
