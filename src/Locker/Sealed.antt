-- ===== src/Locker/Sealed.antt =====
-- `seal_longterm` of cra_evidence/locker.py: what was sealed, and what the ledger says of it.
use cra_evidence.Prelude.{
  Text, Bool, true, false, List, [], ◌∷◌, ◌++◌, Option, none, some, codes, length, any, ◌≡◌, ◌⊎◌,
  ok,
}
use cra_evidence.Json.{pos, Value, bool, int, str, arr, obj, Fields, get}
use cra_evidence.Runtime.{Runtime}
use cra_evidence.Ledger.{Stream, entries, reads}
use cra_evidence.Ledger.Append.{State, Host, Config}
use cra_evidence.Pack.Hex.{is_hex}
use cra_evidence.Pack.Sources.{data_of}
use cra_evidence.Longterm.{
  Floats, Registry, default_hash, Signer, signer, LongTermEvidence, items_of, seal,
}
use cra_evidence.Longterm.Sealed.{IsSealed}
use cra_evidence.Locker.{append_record}
use cra_evidence.Locker.Sealing.{anchors, Sealing, chain_of, key_of}

-- What `make_seal` found and made.
record IsMade (fl : Floats) (reg : Registry) (rt : Runtime) (tip_key : Option (Text × Text))
    (s : Stream) (a : Sealing) (k : Signer) (e : LongTermEvidence) : Type 0 where
  hexadecimal : is_hex 64 a.pack_sha3 ≡ true
  anchored : a.external_digest ≡ false → any (anchors a.pack_sha3) s.0 ≡ true
  same_digest : (chain_of a).evidence_digest ≡ a.pack_sha3
  signs : signer reg a.alg (key_of tip_key a) a.fresh ≡ ok k
  sealed :
      seal fl rt.sha3_256 reg (chain_of a) k a.time a.ts_source none default_hash a.token_b64 ≡ ok e

-- An anchor of a digest is among some entries.
pub record HasAnchor (h : Text) (es : List Value) : Type 0 where
  pub before : List Value
  pub anchor : Value
  pub after : List Value
  pub there : es ≡ before ++ anchor ∷ after
  pub kind : get (codes "kind") (data_of anchor) ≡ some (str (codes "cra_pack_anchor"))
  pub of_pack : get (codes "anchored_pack_sha3") (data_of anchor) ≡ some (str h)

-- The records that a seal continues, over the same digest, and whether it renews them.
abbrev pub IsHistory : Option LongTermEvidence → Text → List Value → Bool → Type 0
IsHistory none digest old renewal = (old ≡ []) × (renewal ≡ false)
IsHistory (some e) digest old renewal =
    (e.evidence_digest ≡ digest) × (old ≡ e.records) × (renewal ≡ true)

-- What the ledger says of a seal: the whole chain, its length, whether it renews one, the declared source of the time,
-- which is not verified here, and the signer.
pub record IsSealEntry (a : Sealing) (k : Signer) (new : LongTermEvidence) (renewal : Bool)
    (d entry : Fields) : Type 0 where
  pub kind : get (codes "kind") entry ≡ some (str (codes "cra_longterm_seal"))
  pub whole : get (codes "lte") entry ≡ some (obj d)
  pub size : get (codes "chain_len") entry ≡ some (int (pos (length new.records)))
  pub renews : get (codes "renewal") entry ≡ some (bool renewal)
  pub source : get (codes "time_anchor") entry ≡ some (str a.ts_source)
  pub unverified : get (codes "time_anchor_verified_here") entry ≡ some (bool false)
  pub ephemeral : get (codes "signer_ephemeral") entry ≡ some (bool k.ephemeral)
  pub key : get (codes "signer_pub") entry ≡ some (str k.public_key)

-- A seal that was made over a ledger: its digest is foreign by declaration or anchored in the ledger, its chain is the
-- old one with one signed record more, it is what is returned, and its entry was appended.
pub record IsSealing (fl : Floats) (reg : Registry) (rt : Runtime) (c : Config) (host : Host)
    (a : Sealing) (ts : Text) (s t : State) (d : Fields) : Type 0 where
  pub signer_of : Signer
  pub new : LongTermEvidence
  pub old : List Value
  pub renewal : Bool
  pub entry : Fields
  pub line : Fields
  pub anchored : (a.external_digest ≡ true) ⊎ HasAnchor a.pack_sha3 (entries rt (reads s.file)).0
  pub history : IsHistory a.previous a.pack_sha3 old renewal
  pub sealed :
      IsSealed fl reg
        (record { evidence_digest = a.pack_sha3; records = old })
        signer_of
        a.time
        default_hash
        new
  pub digest : get (codes "evidence_digest") d ≡ some (str a.pack_sha3)
  pub records_of : get (codes "records") d ≡ some (arr (items_of new.records))
  pub stated : IsSealEntry a signer_of new renewal d entry
  pub appended : append_record rt c host s entry ts ≡ (ok line, t)

over : List Value → Text → LongTermEvidence
over r x = record { evidence_digest = x; records = r }
