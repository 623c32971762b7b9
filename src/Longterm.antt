-- ===== src/Longterm.antt =====
-- cra_evidence/longterm.py: the registries, the signer, the policy, and a chain of seals that grows by `seal`.
pub mod Check
pub mod Spec
pub mod Trusted
pub mod Sealed
pub mod Renewal
use cra_evidence.Prelude.{
  ℕ, ◌+◌, ◌-◌, Text, Bytes, Bool, true, false, not, ◌&&◌, ◌||◌, leb, ◌==◌, if◌then◌else◌, List, [],
  ◌∷◌, ◌++◌, Option, none, some, length, map, is_empty, codes, text_eq, Result, ok, raised,
  value_error, key_error, guard, ◌>>=◌, ◌>>◌,
}
use cra_evidence.Json.{
  Float, finite, name, Value, bool, str, arr, obj, Items, nil, cons, Fields, end, field, get,
  without,
}
use cra_evidence.Canonical.Encode.{dumps}
use cra_evidence.Pack.Hex.{from_hex, is_hex, weak_ed25519_key}
use cra_evidence.Pack.Signature.{Ed25519}

-- Python's floats: `float(s)` of a text that is numeric, `repr(x)`, `x < y` and `x + y`.
pub record Floats : Type 0 where
  pub float_of : Text → Option Float
  pub repr : Float → Text
  pub less : Float → Float → Bool
  pub add : Float → Float → Float

-- Of an algorithm, what a private key signs, and the check of a public key, a signature and a message.
pub record Algorithm : Type 0 where
  pub sign : Text → Bytes → Text
  pub verify : Text → Text → Bytes → Bool

-- HASHES, each as its `hexdigest`, and REGISTRY.
pub record Registry : Type 0 where
  pub hashes : Text → Option (Bytes → Text)
  pub algorithms : Text → Option Algorithm

abbrev pub default_hash : Text
default_hash = codes "sha3-256"

unfoldable pub register_hash : Text → (Bytes → Text) → Registry → Registry
register_hash added ctor reg = record reg {
  hashes = λ n. if text_eq n added then some ctor else reg.hashes n;
}

unfoldable pub register_algorithm : Text → Algorithm → Registry → Registry
register_algorithm added a reg = record reg {
  algorithms = λ n. if text_eq n added then some a else reg.algorithms n;
}

-- `pub_hex.lower()`; of the capitals only A to F matter, since no other leads to a hexadecimal digit.
unfoldable pub lower : Text → Text
lower [] = []
lower (c ∷ s) = (if leb b'A' c && leb c b'F' then c + 32 else c) ∷ lower s

-- `_ed_verify`: bytes.fromhex and the package refuse what is not 64 hexadecimal digits.
unfoldable pub ed_verify : Ed25519 → Text → Text → Bytes → Bool
unfolding lower
ed_verify none key sig msg = false
ed_verify (some check) key sig msg =
    if not (length key == 64) || (not (is_hex 64 (lower key)) || weak_ed25519_key (lower key))
    then false
    else check key sig msg

unfoldable pub digest_with : Registry → Text → Bytes → Result Text
digest_with reg hash_alg b = elim (reg.hashes hash_alg) [
  | none ↦ raised value_error
  | some f ↦ ok (f b)
]

-- A key pair of an identity that exists, or one that was just generated.
pub record Signer : Type 0 where
  pub alg : Text
  pub ephemeral : Bool
  pub private_key : Text
  pub public_key : Text

-- `Signer(alg, key)`; `fresh` is the pair that the algorithm's `gen` would return.
unfoldable pub signer : Registry → Text → Option (Text × Text) → Text × Text → Result Signer
signer reg alg key fresh = elim (reg.algorithms alg) [
  | none ↦ raised value_error
  | some a ↦ ok (elim key [
    | none ↦ record { alg = alg; ephemeral = true; private_key = fresh.0; public_key = fresh.1 }
    | some k ↦ record { alg = alg; ephemeral = false; private_key = k.0; public_key = k.1 }
  ])
]

unfoldable pub sign_with : Registry → Signer → Bytes → Result Text
sign_with reg s msg = elim (reg.algorithms s.alg) [
  | none ↦ raised key_error
  | some a ↦ ok (a.sign s.private_key msg)
]

-- A name of a signature or a hash, and after when it is broken (none: not broken).
abbrev pub AlgorithmPolicy : Type 0
AlgorithmPolicy = List (Text × Option Float)

unfoldable pub broken_after : AlgorithmPolicy → Text → Option (Option Float)
broken_after [] alg = none
broken_after (p ∷ ps) alg = if text_eq p.0 alg then some p.1 else broken_after ps alg

unfoldable pub trusted_at : Floats → AlgorithmPolicy → Text → Float → Bool
unfolding broken_after
trusted_at fl policy alg t = elim (broken_after policy alg) [
  | none ↦ true
  | some b ↦ elim b [ none ↦ true | some b ↦ fl.less t b ]
]

abbrev pub nist_ir_8547 : AlgorithmPolicy
nist_ir_8547 = (codes "ed25519", some (finite (codes "2051222400.0"))) ∷ []

-- The records are whatever the chain was read from.
pub record LongTermEvidence : Type 0 where
  pub evidence_digest : Text
  pub records : List Value

unfoldable pub items_of : List Value → Items
items_of [] = nil
items_of (v ∷ vs) = cons v (items_of vs)

-- What `_msg` digests: the digest of the evidence, every record before, and the record less its signature.
unfoldable pub signed_value : Text → List Value → Fields → Value
unfolding items_of
signed_value digest before own =
    arr (
      cons (str digest) (cons (arr (items_of before)) (cons (obj (without (codes "sig") own)) nil)))

unfoldable pub message : Registry → Text → List Value → Fields → Text → Result Bytes
unfolding digest_with signed_value
message reg digest before own hash_alg = do
  h ← digest_with reg hash_alg (dumps (signed_value digest before own))
  ok (from_hex h)

abbrev pub given : Option Text → Text
given none = []
given (some s) = s

-- Fields at the end of a dict that does not have them.
unfoldable pub append_fields : Fields → Fields → Fields
append_fields end gs = gs
append_fields (field k v fs) gs = field k v (append_fields fs gs)

-- The token is base64, so its code points are its bytes.
unfoldable pub token_fields : (Bytes → Text) → Text → Fields
token_fields sha3_256 [] = end
token_fields sha3_256 (c ∷ s) =
    field (name (codes "token_b64")) (str (c ∷ s))
      (field (name (codes "token_sha3")) (str (sha3_256 (c ∷ s))) end)

-- The record that `seal` builds, without its signature.
unfoldable pub new_record :
    Floats → (Bytes → Text) → Signer → Float → Text → Text → Text → Text → Fields
unfolding append_fields token_fields
new_record fl sha3_256 s t ts_source rehash hash_alg token =
    append_fields
      (field (name (codes "alg")) (str s.alg) (
        field (name (codes "hash")) (str hash_alg) (
          field (name (codes "t")) (str (fl.repr t)) (
            field (name (codes "pub")) (str s.public_key) (
              field (name (codes "ts_source")) (str ts_source) (
                field (name (codes "rehash")) (str rehash)
                  (field (name (codes "ephemeral_key")) (bool s.ephemeral) end)))))))
      (token_fields sha3_256 token)

unfoldable pub with_sig : Fields → Text → Fields
unfolding append_fields
with_sig fs sig = append_fields fs (field (name (codes "sig")) (str sig) end)

unfoldable pub seal :
    Floats
    → (Bytes → Text)
    → Registry
    → LongTermEvidence
    → Signer
    → Float
    → Text
    → Option Text
    → Text
    → Option Text
    → Result LongTermEvidence
unfolding message sign_with new_record with_sig
seal fl sha3_256 reg e s t ts_source stronger_digest hash_alg token = do
  guard (text_eq ts_source (codes "asserted") || not (is_empty (given token))) value_error
  let rec = new_record fl sha3_256 s t ts_source (given stronger_digest) hash_alg (given token)
  msg ← message reg e.evidence_digest e.records rec hash_alg
  sig ← sign_with reg s msg
  ok (record e { records = e.records ++ obj (with_sig rec sig) ∷ [] })
