-- ===== src/Longterm/Spec.antt =====
-- What a chain of seals promises, apart from cra_evidence/longterm.py's way of finding its problems.
use cra_evidence.Prelude.{
  Text, Bool, true, false, List, [], ◌∷◌, ◌++◌, Option, none, some, codes, ◌≡◌, ◌≢◌, ok, All,
  length, ◌≤◌,
}
use cra_evidence.Json.{Float, Value, get}
use cra_evidence.Longterm.{
  Floats, Algorithm, Registry, AlgorithmPolicy, trusted_at, LongTermEvidence, message,
}
use cra_evidence.Longterm.Check.{
  text_field, fields_of, hash_of, hash_name, has_texts, is_hashable, is_true, hash_trusted_at,
  time_of,
}

-- A record with its texts, a numeric time and a hash that can be looked up.
pub record IsRecord (fl : Floats) (r : Value) : Type 0 where
  pub texts : has_texts r ≡ true
  pub time : Float
  pub numeric : fl.float_of (text_field (codes "t") r) ≡ some time
  pub hashable : is_hashable (hash_of r) ≡ true

-- A signature over the digest of the evidence, every record before and the record itself.
pub record IsSigned (reg : Registry) (digest : Text) (before : List Value) (r : Value)
    : Type 0 where
  pub algorithm : Algorithm
  pub known : reg.algorithms (text_field (codes "alg") r) ≡ some algorithm
  pub hash : Text
  pub named : hash_name reg (hash_of r) ≡ some hash
  pub signed : Text
  pub computed : message reg digest before (fields_of r) hash ≡ ok signed
  pub holds :
      algorithm.verify (text_field (codes "pub") r) (text_field (codes "sig") r) signed ≡ true

unfoldable pub IsSignedChain : Registry → Text → List Value → List Value → Type 0
IsSignedChain reg digest before [] = Unit
IsSignedChain reg digest before (r ∷ rs) =
    IsSigned reg digest before r × IsSignedChain reg digest (before ++ r ∷ []) rs

-- Both primitives of a record are trusted at an instant.
unfoldable pub IsTrustedAt : Floats → AlgorithmPolicy → Value → Float → Type 0
IsTrustedAt fl policy r t =
    (trusted_at fl policy (text_field (codes "alg") r) t ≡ true)
    × (hash_trusted_at fl policy (hash_of r) t ≡ true)

-- No time lies before that of the record before; each record was renewed while it was trusted; the last one is
-- trusted now.
unfoldable pub IsRenewed : Floats → AlgorithmPolicy → Float → List Value → Type 0
IsRenewed fl policy now [] = Unit
IsRenewed fl policy now (r ∷ []) = IsTrustedAt fl policy r now
IsRenewed fl policy now (r ∷ s ∷ rs) =
    (fl.less (time_of fl s) (time_of fl r) ≡ false)
    × IsTrustedAt fl policy r (time_of fl s)
    × IsRenewed fl policy now (s ∷ rs)

-- A signer that is pinned, with keys of its own.
unfoldable pub IsPinned : Option (Text → Bool) → List Value → Type 0
IsPinned none rs = Unit
IsPinned (some trusted) [] = Unit
IsPinned (some trusted) (r ∷ rs) =
    (trusted (text_field (codes "pub") r) ≡ true)
    × All (λ v. is_true (get (codes "ephemeral_key") (fields_of v)) ≡ false) (r ∷ rs)

-- Every time is attested, or there is one only.
unfoldable pub IsAttested : Option (Value → Bool) → List Value → Type 0
IsAttested (some oracle) rs = All (λ r. oracle r ≡ true) rs
IsAttested none rs = length rs ≤ 1

pub record IsTrustedChain (fl : Floats) (reg : Registry) (e : LongTermEvidence) (now : Float)
    (policy : AlgorithmPolicy) (oracle : Option (Value → Bool)) (trusted : Option (Text → Bool))
    : Type 0 where
  pub nonempty : e.records ≢ []
  pub shaped : All (IsRecord fl) e.records
  pub pinned : IsPinned trusted e.records
  pub signed : IsSignedChain reg e.evidence_digest [] e.records
  pub attested : IsAttested oracle e.records
  pub renewed : IsRenewed fl policy now e.records
