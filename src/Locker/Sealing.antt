-- ===== src/Locker/Sealing.antt =====
-- `seal_longterm` of cra_evidence/locker.py: only a digest that is anchored in the ledger is sealed, or one that is declared
-- to be foreign.
use cra_evidence.Prelude.{
  Text, Bool, true, false, ◌&&◌, if◌then◌else◌, List, [], ◌∷◌, Option, none, some, codes, text_eq,
  length, Result, ok, raised, Error, value_error, guard, ◌>>=◌, ◌>>◌,
}
use cra_evidence.Json.{Float, pos, name, Value, bool, int, str, arr, obj, Fields, end, field, get}
use cra_evidence.Runtime.{Runtime}
use cra_evidence.Ledger.{Stream, is_str, entries, reads}
use cra_evidence.Ledger.Append.{State, Host, Config}
use cra_evidence.Pack.Hex.{is_hex}
use cra_evidence.Pack.Sources.{data_of}
use cra_evidence.Longterm.{
  Floats, Registry, default_hash, Signer, signer, LongTermEvidence, items_of, seal,
}
use cra_evidence.Locker.{append_record}

-- `to_dict`
unfoldable pub to_dict : LongTermEvidence → Fields
unfolding items_of
to_dict e = field (name (codes "evidence_digest")) (str e.evidence_digest) (
    field (name (codes "records")) (arr (items_of e.records)) (
      field (name (codes "format")) (str (codes "CRA-LTA-1")) (
        field (name (codes "spec_ref"))
          (str (codes "RFC 4998 ERS / eIDAS LTA (open implementation, not a certified ERS)")) end)))

-- An entry that anchors a digest.
unfoldable pub anchors : Text → Value → Bool
anchors h e =
    is_str (get (codes "kind") (data_of e)) (codes "cra_pack_anchor")
    && is_str (get (codes "anchored_pack_sha3") (data_of e)) h

-- `any(...)` over the entries, which are read until one is found.
unfoldable pub is_anchored : Text → List Value → Option Error → Result Bool
unfolding anchors
is_anchored h [] none = ok false
is_anchored h [] (some e) = raised e
is_anchored h (e ∷ es) x = let rest = is_anchored h es x in if anchors h e then ok true else rest

-- The arguments of a call; `previous` is what from_dict reads of the last seal, `fresh` the pair that a new key would be.
pub record Sealing : Type 0 where
  pub pack_sha3 : Text
  pub alg : Text
  pub ts_source : Text
  pub time : Float
  pub previous : Option LongTermEvidence
  pub key : Option (Text × Text)
  pub fresh : Text × Text
  pub token_b64 : Option Text
  pub external_digest : Bool

unfoldable pub chain_of : Sealing → LongTermEvidence
chain_of a = elim a.previous [
  | none ↦ record { evidence_digest = a.pack_sha3; records = [] }
  | some e ↦ e
]

-- The locker's log key, where no other is given and it fits.
unfoldable pub key_of : Option (Text × Text) → Sealing → Option (Text × Text)
key_of tip_key a = elim a.key [
  | some k ↦ some k
  | none ↦ if text_eq a.alg (codes "ed25519") then tip_key else none
]

unfoldable pub check_anchored : Stream → Sealing → Result (Unit {0})
unfolding is_anchored
check_anchored s a =
    if a.external_digest
    then ok tt
    else do found ← is_anchored a.pack_sha3 s.0 s.1; guard found value_error

abbrev pub is_renewal : Option LongTermEvidence → Bool
is_renewal none = false
is_renewal (some e) = true

unfoldable pub seal_entry : Sealing → Signer → LongTermEvidence → Fields
unfolding to_dict
seal_entry a k e = field (name (codes "kind")) (str (codes "cra_longterm_seal")) (
    field (name (codes "lte")) (obj (to_dict e)) (
      field (name (codes "chain_len")) (int (pos (length e.records))) (
        field (name (codes "renewal")) (bool (is_renewal a.previous)) (
          field (name (codes "time_anchor")) (str a.ts_source) (
            field (name (codes "time_anchor_verified_here")) (bool false) (
              field (name (codes "signer_ephemeral")) (bool k.ephemeral)
                (field (name (codes "signer_pub")) (str k.public_key) end)))))))

-- The part that writes nothing.
unfoldable pub make_seal :
    Floats
    → Registry
    → Runtime
    → Option (Text × Text)
    → Stream
    → Sealing
    → Result (Signer × LongTermEvidence)
unfolding check_anchored chain_of key_of seal
make_seal fl reg rt tip_key s a = do
  guard (is_hex 64 a.pack_sha3) value_error
  check_anchored s a
  guard (text_eq (chain_of a).evidence_digest a.pack_sha3) value_error
  k ← signer reg a.alg (key_of tip_key a) a.fresh
  e ← seal fl rt.sha3_256 reg (chain_of a) k a.time a.ts_source none default_hash a.token_b64
  ok (k, e)

unfoldable pub seal_longterm :
    Floats
    → Registry
    → Runtime
    → Config
    → Host
    → Option (Text × Text)
    → State
    → Sealing
    → Text
    → Result Fields × State
unfolding make_seal seal_entry
seal_longterm fl reg rt c host tip_key s a ts =
    elim (make_seal fl reg rt tip_key (entries rt (reads s.file)) a) [
      | raised e ↦ (raised e, s)
      | ok k ↦
          let (r, t) = append_record rt c host s (seal_entry a k.0 k.1) ts in
          elim r [ raised e ↦ (raised e, t) | ok x ↦ (ok (to_dict k.1), t) ]
    ]
