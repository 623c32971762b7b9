-- ===== src/Pack/TipCheck.antt =====
-- `verify_tip` of cra_evidence/signing.py: the signed tip against the ledger that it should seal.
use cra_evidence.Prelude.{
  ℕ, Text, Bool, true, false, not, ◌&&◌, ◌||◌, ltb, ◌==◌, if◌then◌else◌, Option, none, some,
  is_empty, codes, text_eq,
}
use cra_evidence.Json.{pos, name, Value, null, int, str, obj, Fields, end, field, get}
use cra_evidence.Canonical.Encode.{dumps}
use cra_evidence.Ledger.{is_str}
use cra_evidence.Pack.Hex.{is_hex, is_instant, weak_ed25519_key}
use cra_evidence.Pack.Signature.{Ed25519, text_of}

-- `tip_untrusted` is none of these: a caller passes a key.
pub data TipVerdict : Type 0 where
  tip_ok tip_unchecked tip_refused : TipVerdict
  tail_truncated unsealed_tail tip_of_another_ledger tail_rewritten : TipVerdict

abbrev pub tip_kind : Text
tip_kind = codes "cryptovalid_tip/1"

unfoldable pub tip_payload : ℕ → Text → Text → Text → Text
unfolding dumps
tip_payload count ledger_id tip_sha256 ts = dumps (
    obj (
      field (name (codes "entries")) (int (pos count)) (
        field (name (codes "kind")) (str tip_kind) (
          field (name (codes "ledger_id")) (str ledger_id) (
            field (name (codes "tip_sha256")) (str tip_sha256)
              (field (name (codes "ts")) (str ts) end))))))

abbrev is_text : Option Value → Bool
is_text (some (str s)) = true
is_text _ = false

-- `lk in (None, "") or lk == trusted_pubkey_hex`
unfoldable pub log_key_ok : Option Value → Text → Bool
log_key_ok none key = true
log_key_ok (some null) key = true
log_key_ok (some (str s)) key = is_empty s || text_eq s key
log_key_ok (some _) key = false

unfoldable pub tip_fields_ok : Fields → Text → Bool
unfolding text_of log_key_ok
tip_fields_ok tip key =
    is_text (get (codes "ledger_id") tip)
    && (is_text (get (codes "tip_sha256") tip)
        && (is_text (get (codes "ts") tip)
            && (is_text (get (codes "signature_hex") tip)
                && (is_hex 64 (text_of (get (codes "ledger_id") tip))
                    && (is_hex 64 (text_of (get (codes "tip_sha256") tip))
                        && (is_instant (text_of (get (codes "ts") tip))
                            && (is_hex 128 (text_of (get (codes "signature_hex") tip))
                                && (is_hex 64 key
                                    && (log_key_ok (get (codes "log_pubkey_hex") tip) key
                                        && not (weak_ed25519_key key))))))))))

unfoldable pub compare_tip : Fields → ℕ → ℕ → Option Value → Option Value → TipVerdict
unfolding text_of
compare_tip tip n count ledger_id tip_sha256 =
    if not (n == count)
    then (if ltb count n then tail_truncated else unsealed_tail)
    else if not (is_str ledger_id (text_of (get (codes "ledger_id") tip)))
    then tip_of_another_ledger
    else if not (is_str tip_sha256 (text_of (get (codes "tip_sha256") tip)))
    then tail_rewritten
    else tip_ok

unfoldable pub check_tip :
    Ed25519 → Fields → Text → ℕ → ℕ → Option Value → Option Value → TipVerdict
unfolding text_of compare_tip
check_tip none tip key n count ledger_id tip_sha256 = tip_unchecked
check_tip (some check) tip key n count ledger_id tip_sha256 =
    if check key (text_of (get (codes "signature_hex") tip)) (
      tip_payload n (text_of (get (codes "ledger_id") tip)) (text_of (get (codes "tip_sha256") tip))
        (text_of (get (codes "ts") tip)))
    then compare_tip tip n count ledger_id tip_sha256
    else tip_refused

abbrev pub entry_count : Option Value → Option ℕ
entry_count (some (int (pos n))) = some n
entry_count _ = none

unfoldable pub check_count :
    Ed25519 → Fields → Text → Option ℕ → ℕ → Option Value → Option Value → TipVerdict
unfolding tip_fields_ok check_tip
check_count ed tip key none count ledger_id tip_sha256 = tip_refused
check_count ed tip key (some n) count ledger_id tip_sha256 =
    if tip_fields_ok tip key then check_tip ed tip key n count ledger_id tip_sha256 else tip_refused

-- `count`, `ledger_id` and `tip_sha256` are the ledger's: its number of entries, its first and its last
-- hash.
unfoldable pub verify_tip : Ed25519 → Value → Text → ℕ → Option Value → Option Value → TipVerdict
unfolding check_count
verify_tip ed (obj tip) key count ledger_id tip_sha256 =
    if is_str (get (codes "kind") tip) tip_kind
    then check_count ed tip key (entry_count (get (codes "entries") tip)) count ledger_id tip_sha256
    else tip_refused
verify_tip ed _ key count ledger_id tip_sha256 = tip_refused
