-- ===== src/Pack/Signature.antt =====
-- cra_evidence/signing.py: the producer's signature next to a pack, and the signed tip of a ledger.
-- Ed25519 is the package `cryptography`: a check of a key, a signature and a message, where it is installed.
use cra_evidence.Prelude.{
  Text, Bytes, Bool, true, false, not, ◌&&◌, ◌||◌, if◌then◌else◌, List, [], ◌∷◌, ◌++◌, Option, none,
  some, take, all, any, is_empty, codes, text_eq, Result, ok, raised, ◌>>=◌,
}
use cra_evidence.Json.{name, nonstr, Value, str, obj, Fields, end, field, get, without}
use cra_evidence.Runtime.{Runtime}
use cra_evidence.Canonical.Encode.{canonical_bytes}
use cra_evidence.Ledger.{decode, is_str, max_line_bytes}
use cra_evidence.Ledger.Parse.{parse_line}
use cra_evidence.Disk.{
  Node, below_file, absent, Disk, content, not_regular_file, file_too_large, os_failure,
  read_regular,
}
use cra_evidence.Pack.{
  Reason, digest_mismatch, sidecar_malformed, signature_invalid, unreadable, instrument_failure,
}
use cra_evidence.Pack.Hex.{from_hex, hex_ok, is_instant, weak_ed25519_key}

-- Public key and signature in hexadecimal, and the message; none where the package is not installed.
abbrev pub Ed25519 : Type 0
Ed25519 = Option (Text → Text → Text → Bool)

-- `parse_line(read_regular(p).decode("utf-8"))`: `unusable` is an UnreadableFile, `failed` any other
-- OSError, `ill_formed` what the decoder and the parser raise (a ValueError or a RecursionError).
pub data Loaded : Type 0 where
  document : Value → Loaded
  unusable failed ill_formed : Loaded

unfoldable pub parse_file : Runtime → Bytes → Loaded
parse_file rt b = elim (do t ← decode rt b; parse_line rt t false) [
  | raised e ↦ ill_formed
  | ok v ↦ document v
]

unfoldable pub load : Runtime → Disk → Text → Loaded
unfolding parse_file
load rt disk path = elim (read_regular disk max_line_bytes path) [
  | content b ↦ parse_file rt b
  | not_regular_file ↦ unusable
  | file_too_large ↦ unusable
  | os_failure ↦ failed
]

unfoldable pub sha3_hex : Runtime → Value → Result Text
unfolding canonical_bytes
sha3_hex rt v = do t ← canonical_bytes v; ok (rt.sha3_256 t)

unfoldable pub pack_digest : Runtime → Fields → Result Text
unfolding sha3_hex
pack_digest rt pack = sha3_hex rt (obj (without (codes "pack_sha3") pack))

-- `any(k not in known for k in d)`
unfoldable pub unknown_fields : List Text → Fields → Bool
unknown_fields known end = false
unknown_fields known (field (name k) v fs) = not (any (text_eq k) known) || unknown_fields known fs
unknown_fields known (field (nonstr k) v fs) = true

abbrev sidecar_keys : List Text
sidecar_keys =
    codes "signed_pack_sha3"
    ∷ codes "signer_id"
    ∷ codes "signed_utc"
    ∷ codes "public_key_hex"
    ∷ codes "signature_hex"
    ∷ codes "alg"
    ∷ codes "fingerprint"
    ∷ []

-- `d.get(k)` where it is a string, and the empty text elsewhere
unfoldable pub text_of : Option Value → Text
text_of (some (str s)) = s
text_of _ = []

abbrev has_text : Fields → Text → Bool
has_text d k = not (is_empty (text_of (get k d)))

abbrev absent_or_text : Option Value → Bool
absent_or_text none = true
absent_or_text (some (str s)) = true
absent_or_text _ = false

unfoldable pub sidecar_fields_ok : Fields → Bool
unfolding text_of
sidecar_fields_ok side =
    all (has_text side) (
      codes "signed_pack_sha3"
      ∷ codes "signer_id"
      ∷ codes "signed_utc"
      ∷ codes "public_key_hex"
      ∷ codes "signature_hex"
      ∷ [])
    && (is_instant (text_of (get (codes "signed_utc") side))
        && absent_or_text (get (codes "alg") side))

-- `side.get("alg", "Ed25519")`
abbrev alg_of : Option Value → Value
alg_of none = str (codes "Ed25519")
alg_of (some v) = v

-- `signed_payload`: its members in the order of the source; canonical_bytes sorts them.
unfoldable pub signed_payload : Fields → Result Text
unfolding text_of
signed_payload side = canonical_bytes (
    obj (
      field (name (codes "kind")) (str (codes "cra_pack_sig/1")) (
        field (name (codes "signed_pack_sha3"))
          (str (text_of (get (codes "signed_pack_sha3") side)))
          (field (name (codes "signer_id")) (str (text_of (get (codes "signer_id") side))) (
            field (name (codes "signed_utc")) (str (text_of (get (codes "signed_utc") side))) (
              field (name (codes "public_key_hex"))
                (str (text_of (get (codes "public_key_hex") side)))
                (field (name (codes "alg")) (alg_of (get (codes "alg") side)) end)))))))

-- What `verify_pack_signature` returns; `assessed` is false for instrument_failure and no other.
pub data Signature : Type 0 where
  unsigned : Signature
  failing : Reason → Signature
  passing : Bool → Signature

-- Signer to public key.
abbrev pub TrustStore : Type 0
TrustStore = Text → Option Text

-- `bool(expected) and expected == side.get("public_key_hex")`
unfoldable pub is_trusted : Option TrustStore → Text → Text → Bool
is_trusted none signer key = false
is_trusted (some store) signer key = elim (store signer) [
  | none ↦ false
  | some e ↦ not (is_empty e) && text_eq e key
]

-- Absent is not declared; what is present must be the fingerprint.
abbrev fingerprint_ok : Option Value → Text → Bool
fingerprint_ok none fp = true
fingerprint_ok (some v) fp = is_str (some v) fp

-- The checks behind the import of the package. An exception of `verify` or of `signed_payload` is a
-- signature that does not hold.
-- What follows a text that is computed, or the exception.
unfoldable pub unless_raised : Signature → (Text → Signature) → Result Text → Signature
unless_raised s f (raised e) = s
unless_raised s f (ok t) = f t

-- The signature over the payload, and the fingerprint of its key.
unfoldable pub check_message :
    Runtime → (Text → Text → Text → Bool) → Option TrustStore → Fields → Text → Signature
unfolding text_of is_trusted
check_message rt check store side message =
    let key = text_of (get (codes "public_key_hex") side) in
    if not (check key (text_of (get (codes "signature_hex") side)) message)
    then failing signature_invalid
    else if not
        (fingerprint_ok (get (codes "fingerprint") side) (take 16 (rt.sha256 (from_hex key))))
    then failing signature_invalid
    else passing (is_trusted store (text_of (get (codes "signer_id") side)) key)

unfoldable pub check_signature : Runtime → Ed25519 → Option TrustStore → Fields → Signature
unfolding unless_raised
check_signature rt none store side = failing instrument_failure
check_signature rt (some check) store side =
    unless_raised (failing signature_invalid) (check_message rt check store side)
      (signed_payload side)

-- The sidecar against the digest of the pack's content.
unfoldable pub check_digest :
    Runtime → Ed25519 → Option TrustStore → Fields → Fields → Text → Signature
unfolding text_of
check_digest rt ed store pack side digest =
    if not (is_str (get (codes "pack_sha3") pack) digest)
      || not (is_str (get (codes "signed_pack_sha3") side) digest)
    then failing digest_mismatch
    else if not (sidecar_fields_ok side)
    then failing sidecar_malformed
    else if not (
          hex_ok (get (codes "public_key_hex") side) 64
          && hex_ok (get (codes "signature_hex") side) 128)
        || weak_ed25519_key (text_of (get (codes "public_key_hex") side))
    then failing signature_invalid
    else check_signature rt ed store side

unfoldable pub check_sidecar : Runtime → Ed25519 → Option TrustStore → Fields → Fields → Signature
unfolding unless_raised
check_sidecar rt ed store pack side =
    if unknown_fields sidecar_keys side
    then failing sidecar_malformed
    else unless_raised (failing digest_mismatch) (check_digest rt ed store pack side)
        (pack_digest rt pack)

unfoldable pub judge_sidecar : Runtime → Ed25519 → Option TrustStore → Fields → Loaded → Signature
judge_sidecar rt ed store pack unusable = failing sidecar_malformed
judge_sidecar rt ed store pack ill_formed = failing sidecar_malformed
judge_sidecar rt ed store pack failed = failing unreadable
judge_sidecar rt ed store pack (document (obj side)) = check_sidecar rt ed store pack side
judge_sidecar rt ed store pack (document _) = failing sidecar_malformed

abbrev pub sidecar_path : Text → Text
sidecar_path path = path ++ codes ".sig.json"

-- A path with nothing there is an unsigned pack.
unfoldable pub unsigned_if_absent : Node → Signature → Signature
unsigned_if_absent absent s = unsigned
unsigned_if_absent below_file s = unsigned
unsigned_if_absent _ s = s

unfoldable pub verify_pack_signature :
    Runtime → Ed25519 → Disk → Text → Option TrustStore → Fields → Signature
unfolding judge_sidecar unsigned_if_absent
verify_pack_signature rt ed disk path store pack =
    unsigned_if_absent (disk.at (sidecar_path path))
      (judge_sidecar rt ed store pack (load rt disk (sidecar_path path)))
