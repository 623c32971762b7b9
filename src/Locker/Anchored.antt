-- ===== src/Locker/Anchored.antt =====
-- A pack of cra_evidence/locker.py appears only once its anchor is in the ledger.
use cra_evidence.Prelude.{
  Text, Bytes, Option, codes, true, false, some, text_eq, ◌≡◌, ◌⊎◌, Result, ok, raised, Error,
  tip_not_written,
}
use cra_evidence.Json.{Value, str, obj, Fields, get, without}
use cra_evidence.Pack.Signature.{sha3_hex}
use cra_evidence.Runtime.{Runtime}
use cra_evidence.Ledger.{entries, reads}
use cra_evidence.Ledger.Append.{Host, Config}
use cra_evidence.Outputs.{Content, content_bytes, Files, Output}
use cra_evidence.Locker.{LockerVerdict, verify_records, append_bound}
use cra_evidence.Locker.Packing.{Packing, Store, tip_path}

-- What `write_tmp` leaves at the other paths, and at its own.
record IsWritten (encode : Text → Option Bytes) (tmp : Text) (content : Content) (fs : Files)
    (r : Result (Unit {0}) × Files) : Type 0 where
  others : (q : Text) → text_eq q tmp ≡ false → r.1 q ≡ fs q
  whole : r.0 ≡ ok tt → (b : Bytes) × (content_bytes encode content ≡ some b) × (r.1 tmp ≡ some b)

-- What a digest of a pack is: the one that the pack states, and that of the pack without it.
pub record IsDigest (rt : Runtime) (pack : Fields) (digest : Text) : Type 0 where
  pub stated : get (codes "pack_sha3") pack ≡ some (str digest)
  pub computed : sha3_hex rt (obj (without (codes "pack_sha3") pack)) ≡ ok digest

-- What an anchor of a pack is: a record of its kind, with the pack's digest.
pub record IsAnchor (anchor : Fields) (digest : Text) : Type 0 where
  pub kind : get (codes "kind") anchor ≡ some (str (codes "cra_pack_anchor"))
  pub of_pack : get (codes "anchored_pack_sha3") anchor ≡ some (str digest)

-- The pack is at its path, and an anchor with its digest was appended to the ledger, which had verified.
pub record IsAnchored (rt : Runtime) (c : Config) (host : Host) (encode : Text → Option Bytes)
    (render : Value → Text) (path ts : Text) (before after : Store) : Type 0 where
  pub pack : Fields
  pub bytes : Bytes
  pub digest : Text
  pub anchor : Fields
  pub verdict : LockerVerdict
  pub verified : verify_records rt (entries rt (reads before.ledger.file)) ≡ ok verdict
  pub good : verdict.chain_ok ≡ true
  pub hashed : IsDigest rt pack digest
  pub encoded : encode (render (obj pack)) ≡ some bytes
  pub written : after.files path ≡ some bytes
  pub names_pack : IsAnchor anchor digest
  pub anchored :
      ((e : Fields) × ((append_bound rt c host before.ledger anchor ts).0 ≡ ok e))
      ⊎ ((append_bound rt c host before.ledger anchor ts).0 ≡ raised tip_not_written)
  pub ledger : after.ledger ≡ (append_bound rt c host before.ledger anchor ts).1

module _ (rt : Runtime) (c : Config) (host : Host) (o : Output) (encode : Text → Option Bytes)
    (render : Value → Text) (p : Packing) (tmp path ts : Text) (apart : text_eq path tmp ≡ false)
    (no_ledger : text_eq path p.ledger_path ≡ false)
    (no_tip : text_eq path (tip_path p.ledger_path) ≡ false) where
  -- Either the call raised and the path is as it was, or the pack is there and anchored.
  IsSafe : Store → Result Fields × Store → Type 0
  IsSafe s r =
      ((r.1.files path ≡ s.files path) × ((z : Error) × (r.0 ≡ raised z)))
      ⊎ IsAnchored rt c host encode render path ts s r.1
