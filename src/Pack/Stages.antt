-- ===== src/Pack/Stages.antt =====
-- `_verify` of cra_evidence/verify_pack.py: the ledger next to the pack.
use cra_evidence.Prelude.{
  ◌==◌, Text, Bool, true, false, not, ◌&&◌, ◌||◌, if◌then◌else◌, List, [], ◌∷◌, ◌++◌, Option, none,
  some, any, is_empty, codes, text_eq, Result, ok, ◌>>=◌,
}
use cra_evidence.Json.{Value, null, str, Fields, get}
use cra_evidence.Runtime.{Runtime}
use cra_evidence.Disk.{Disk, present}
use cra_evidence.Pack.{
  chain_broken, not_present, ledger_not_verified, Element, contradicted, not_evaluated, fail, skip,
  ledger_chain, layer_of, ledger_required, ledger_anchor, signed_tip_subject, source_subject, Part,
  both, finding,
}
use cra_evidence.Pack.Signature.{Ed25519, TrustStore}
use cra_evidence.Pack.Sources.{source_elements}
use cra_evidence.Pack.Anchor.{
  Snapshot, unread, broken, chained, read_ledger, schema_part, all_bound, last_anchor,
  is_some_anchor, state_ok, anchor_part, state_part, source_part, tip_part,
}

-- The arguments of `verify_pack` behind the path.
pub record Request : Type 0 where
  pub ledger_path : Option Text
  pub trust_store : Option TrustStore
  pub log_pubkey : Option Text
  pub require_sources : Bool

-- `ledger_file_name_ok`, of a member that is there
unfoldable pub ledger_file_name_ok : Value → Bool
ledger_file_name_ok (str s) =
    not (is_empty s || (text_eq s (codes ".") || text_eq s (codes "..")))
    && not (any (λ c. (c == b'/') || ((c == 92) || (c == 0))) s)
ledger_file_name_ok _ = false

pub data LedgerFile : Type 0 where
  unnamed bad_name : LedgerFile
  named : Text → LedgerFile

unfoldable pub ledger_file : Option Value → LedgerFile
unfolding ledger_file_name_ok
ledger_file none = unnamed
ledger_file (some null) = unnamed
ledger_file (some (str s)) = if ledger_file_name_ok (str s) then named s else bad_name
ledger_file (some _) = bad_name

-- `lp`: an explicit path, or the name next to the pack; the empty text is no path.
unfoldable pub ledger_location : Disk → Text → Option Text → LedgerFile → Text
ledger_location disk path (some p) f = p
ledger_location disk path none (named n) = disk.beside path n
ledger_location disk path none _ = []

abbrev is_given : Option Text → Bool
is_given none = false
is_given (some t) = not (is_empty t)

unfoldable pub required : Request → Bool
required q = is_given q.ledger_path || (is_given q.log_pubkey || q.require_sources)

-- What the ledger says: refusals, the findings, and `anchored`.
pub record Reading : Type 0 where
  pub part : Part
  pub anchored : Bool

-- Both subjects that are looked at only behind a verified chain.
abbrev pub unchecked : Part
unchecked = record {
  layers = [];
  log =
      (signed_tip_subject, not_evaluated ledger_not_verified)
      ∷ (source_subject, not_evaluated ledger_not_verified)
      ∷ [];
  unmet = [];
}

abbrev failed_chain : Element → Part
failed_chain e = finding ledger_chain fail ledger_anchor e

abbrev pub tip_path : Text → Text
tip_path lp = lp ++ codes ".tip.json"

unfoldable pub chained_reading :
    Runtime → Ed25519 → Disk → Request → Fields → Text → List Value → Bool → Reading
chained_reading rt ed disk q pack lp es bound =
    let anchor = last_anchor pack es in
    record {
      part = both (schema_part es) (
          both (anchor_part bound (is_some_anchor anchor)) (
            both (state_part (state_ok pack es anchor)) (
              both (source_part q.require_sources (source_elements rt disk lp es))
                (tip_part rt ed disk (tip_path lp) q.log_pubkey es))));
      anchored = bound && is_some_anchor anchor;
    }

unfoldable pub snapshot_reading :
    Runtime → Ed25519 → Disk → Request → Fields → Text → Snapshot → Result Reading
unfolding chained_reading
snapshot_reading rt ed disk q pack lp (unread e) =
    ok (record {
      part = both (finding ledger_chain fail ledger_anchor e) unchecked;
      anchored = false;
    })
snapshot_reading rt ed disk q pack lp (broken es) = ok (record {
  part =
      both (schema_part es)
        (both (finding ledger_chain fail ledger_anchor (contradicted chain_broken)) unchecked);
  anchored = false;
})
snapshot_reading rt ed disk q pack lp (chained es) = do
  bound ← all_bound rt es
  ok (chained_reading rt ed disk q pack lp es bound)

unfoldable pub missing_reading : Bool → Reading
missing_reading needed =
    if needed
    then record {
      part =
          both
            (record {
              layers = layer_of ledger_chain fail ∷ [];
              log = (ledger_anchor, not_evaluated not_present) ∷ [];
              unmet = ledger_required ∷ [];
            })
            unchecked;
      anchored = false;
    }
    else record {
      part =
          both (record { layers = layer_of ledger_chain skip ∷ []; log = []; unmet = [] })
            unchecked;
      anchored = false;
    }

unfoldable pub is_bad_name : LedgerFile → Bool
is_bad_name bad_name = true
is_bad_name _ = false

-- A name that is no plain file name is a failing layer.
abbrev pub bad_name_reading : Reading
bad_name_reading = record {
  part = both (record { layers = layer_of ledger_chain fail ∷ []; log = []; unmet = [] }) unchecked;
  anchored = false;
}

unfoldable pub reading_at : Runtime → Ed25519 → Disk → Request → Fields → Text → Result Reading
unfolding snapshot_reading missing_reading required
reading_at rt ed disk q pack lp =
    if not (is_empty lp) && present disk lp
    then snapshot_reading rt ed disk q pack lp (read_ledger rt (disk.at lp))
    else ok (missing_reading (required q))

abbrev pub ledger_file_of : Fields → LedgerFile
ledger_file_of pack = ledger_file (get (codes "ledger_file") pack)

unfoldable pub ledger_reading : Runtime → Ed25519 → Disk → Text → Request → Fields → Result Reading
unfolding reading_at
ledger_reading rt ed disk path q pack =
    if is_bad_name (ledger_file_of pack)
    then ok bad_name_reading
    else reading_at rt ed disk q pack
        (ledger_location disk path q.ledger_path (ledger_file_of pack))
