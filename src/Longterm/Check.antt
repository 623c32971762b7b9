-- ===== src/Longterm/Check.antt =====
-- `LongTermEvidence.verify` and `renewal_due` of cra_evidence/longterm.py.
use cra_evidence.Prelude.{
  ℕ, zero, suc, Text, Bool, true, false, not, ◌&&◌, ◌||◌, if◌then◌else◌, List, [], ◌∷◌, ◌++◌,
  Option, none, some, all, any, is_empty, codes, text_eq, Result, ok, raised, type_error, key_error,
  guard, ◌>>=◌, ◌>>◌,
}
use cra_evidence.Json.{
  Float, nan, infinite, finite, pos, negsuc, Value, null, bool, int, float, str, arr, tuple, obj,
  nil, cons, Fields, end, field, get,
}
use cra_evidence.Pack.Signature.{text_of}
use cra_evidence.Longterm.{
  Floats, Algorithm, Registry, default_hash, AlgorithmPolicy, broken_after, trusted_at,
  nist_ir_8547, LongTermEvidence, message,
}

-- The texts of `reasons`, with the record that each one names.
pub data Problem : Type 0 where
  empty_chain key_not_trusted ephemeral_key_used unverified_renewals outer_algorithm_broken
        outer_hash_broken :
      Problem
  malformed not_numeric unknown_algorithm unknown_hash invalid_signature not_attested not_monotonic
        late_algorithm late_hash :
      ℕ → Problem

-- The fields of a record that is a dict.
unfoldable pub fields_of : Value → Fields
fields_of (obj fs) = fs
fields_of _ = end

abbrev is_text : Option Value → Bool
is_text (some (str s)) = true
is_text _ = false

unfoldable pub text_field : Text → Value → Text
unfolding fields_of text_of
text_field k v = text_of (get k (fields_of v))

unfoldable pub has_texts : Value → Bool
has_texts (obj fs) =
    is_text (get (codes "alg") fs)
    && (is_text (get (codes "pub") fs)
        && (is_text (get (codes "sig") fs) && is_text (get (codes "t") fs)))
has_texts _ = false

-- `rec.get("hash", DEFAULT_HASH)`
unfoldable pub hash_of : Value → Value
unfolding fields_of
hash_of v = elim (get (codes "hash") (fields_of v)) [ none ↦ str default_hash | some h ↦ h ]

-- `bool(v)` of what `get` returns
unfoldable pub is_true : Option Value → Bool
is_true none = false
is_true (some null) = false
is_true (some (bool b)) = b
is_true (some (int (pos zero))) = false
is_true (some (int (pos (suc n)))) = true
is_true (some (int (negsuc n))) = true
is_true (some (float (finite r))) = not (text_eq r (codes "0.0") || text_eq r (codes "-0.0"))
is_true (some (float nan)) = true
is_true (some (float infinite)) = true
is_true (some (str s)) = not (is_empty s)
is_true (some (arr nil)) = false
is_true (some (arr (cons v vs))) = true
is_true (some (tuple nil)) = false
is_true (some (tuple (cons v vs))) = true
is_true (some (obj end)) = false
is_true (some (obj (field k v fs))) = true

-- The keys of a dict are hashable: looking up a list or a dict is a TypeError.
unfoldable pub is_hashable : Value → Bool
is_hashable (arr vs) = false
is_hashable (obj fs) = false
is_hashable _ = true

-- The first record that is malformed, or whose time is no number.
unfoldable pub first_malformed : Floats → ℕ → List Value → Option Problem
unfolding has_texts text_field
first_malformed fl i [] = none
first_malformed fl i (r ∷ rs) =
    let rest = first_malformed fl (suc i) rs in
    if not (has_texts r)
    then some (malformed i)
    else elim (fl.float_of (text_field (codes "t") r)) [
      | none ↦ some (not_numeric i)
      | some t ↦ rest
    ]

-- The pin of the first signer, and no ephemeral key beside a pin.
unfoldable pub identity_problems : Option (Text → Bool) → List Value → List Problem
unfolding text_field fields_of is_true
identity_problems none rs = []
identity_problems (some trusted) [] = []
identity_problems (some trusted) (r ∷ rs) =
    (if trusted (text_field (codes "pub") r) then [] else key_not_trusted ∷ [])
    ++ (if any (λ v. is_true (get (codes "ephemeral_key") (fields_of v))) (r ∷ rs)
        then ephemeral_key_used ∷ []
        else [])

-- A signature with an algorithm and a hash that are registered.
unfoldable pub signature_holds : Registry → Algorithm → Text → Text → List Value → Value → Bool
unfolding text_field fields_of
signature_holds reg a hash_alg digest before r =
    elim (message reg digest before (fields_of r) hash_alg) [
      | raised e ↦ false
      | ok msg ↦ a.verify (text_field (codes "pub") r) (text_field (codes "sig") r) msg
    ]

unfoldable pub hash_name : Registry → Value → Option Text
hash_name reg (str h) = elim (reg.hashes h) [ none ↦ none | some f ↦ some h ]
hash_name reg _ = none

unfoldable pub signature_problem : Registry → Text → List Value → ℕ → Value → List Problem
unfolding text_field hash_of hash_name signature_holds
signature_problem reg digest before i r = elim (reg.algorithms (text_field (codes "alg") r)) [
  | none ↦ unknown_algorithm i ∷ []
  | some a ↦ elim (hash_name reg (hash_of r)) [
    | none ↦ unknown_hash i ∷ []
    | some h ↦ if signature_holds reg a h digest before r then [] else invalid_signature i ∷ []
  ]
]

unfoldable pub signature_problems : Registry → Text → List Value → ℕ → List Value → List Problem
unfolding signature_problem
signature_problems reg digest before i [] = []
signature_problems reg digest before i (r ∷ rs) =
    signature_problem reg digest before i r
    ++ signature_problems reg digest (before ++ r ∷ []) (suc i) rs

-- The temporal oracle on each record; without one, a chain of renewals rests on what it asserts.
unfoldable pub attestation_problems : (Value → Bool) → ℕ → List Value → List Problem
attestation_problems oracle i [] = []
attestation_problems oracle i (r ∷ rs) =
    (if oracle r then [] else not_attested i ∷ []) ++ attestation_problems oracle (suc i) rs

unfoldable pub temporal_problems : Option (Value → Bool) → List Value → List Problem
unfolding attestation_problems
temporal_problems (some oracle) rs = attestation_problems oracle 0 rs
temporal_problems none (r ∷ s ∷ rs) = unverified_renewals ∷ []
temporal_problems none _ = []

-- `float(r["t"])`, of a record that was found to have it
unfoldable pub time_of : Floats → Value → Float
unfolding text_field
time_of fl r = elim (fl.float_of (text_field (codes "t") r)) [ none ↦ nan | some t ↦ t ]

unfoldable pub order_problems : Floats → ℕ → List Value → List Problem
unfolding time_of
order_problems fl i [] = []
order_problems fl i (r ∷ []) = []
order_problems fl i (r ∷ s ∷ rs) =
    (if fl.less (time_of fl s) (time_of fl r) then not_monotonic (suc i) ∷ [] else [])
    ++ order_problems fl (suc i) (s ∷ rs)

-- `policy.trusted_at(hash, t)`: a hash that is no text is no key of the policy.
unfoldable pub hash_trusted_at : Floats → AlgorithmPolicy → Value → Float → Bool
unfolding trusted_at
hash_trusted_at fl policy (str h) t = trusted_at fl policy h t
hash_trusted_at fl policy _ t = true

-- Of the last record, that it holds now; of every other, that it held when the next was made.
unfoldable pub outer_problems : Floats → AlgorithmPolicy → Float → Value → List Problem
unfolding trusted_at hash_trusted_at text_field hash_of
outer_problems fl policy now r =
    (if trusted_at fl policy (text_field (codes "alg") r) now
      then []
      else outer_algorithm_broken ∷ [])
    ++ (if hash_trusted_at fl policy (hash_of r) now then [] else outer_hash_broken ∷ [])

unfoldable pub last_problems : Floats → AlgorithmPolicy → Float → List Value → List Problem
unfolding outer_problems
last_problems fl policy now [] = []
last_problems fl policy now (r ∷ []) = outer_problems fl policy now r
last_problems fl policy now (r ∷ s ∷ rs) = last_problems fl policy now (s ∷ rs)

unfoldable pub renewal_problems : Floats → AlgorithmPolicy → ℕ → List Value → List Problem
unfolding trusted_at hash_trusted_at text_field hash_of time_of
renewal_problems fl policy i [] = []
renewal_problems fl policy i (r ∷ []) = []
renewal_problems fl policy i (r ∷ s ∷ rs) =
    (if trusted_at fl policy (text_field (codes "alg") r) (time_of fl s)
      then []
      else late_algorithm i ∷ [])
    ++ ((if hash_trusted_at fl policy (hash_of r) (time_of fl s) then [] else late_hash i ∷ [])
        ++ renewal_problems fl policy (suc i) (s ∷ rs))

-- `temporal_trust`
pub data TemporalTrust : Type 0 where
  not_applicable verified not_verified assumed : TemporalTrust

pub record Judgement : Type 0 where
  pub is_ok : Bool
  pub problems : List Problem
  pub temporal_trust : TemporalTrust

abbrev refused : Problem → Judgement
refused p = record { is_ok = false; problems = p ∷ []; temporal_trust = not_applicable }

unfoldable pub temporal_trust : Option (Value → Bool) → List Value → TemporalTrust
temporal_trust none rs = assumed
temporal_trust (some oracle) rs = if all oracle rs then verified else not_verified

unfoldable pub problems_of :
    Floats
    → Registry
    → LongTermEvidence
    → Float
    → AlgorithmPolicy
    → Option (Value → Bool)
    → Option (Text → Bool)
    → List Problem
unfolding identity_problems signature_problems temporal_problems order_problems last_problems
    renewal_problems
problems_of fl reg e now policy oracle trusted =
    identity_problems trusted e.records
    ++ (signature_problems reg e.evidence_digest [] 0 e.records
        ++ (temporal_problems oracle e.records
            ++ (order_problems fl 0 e.records
                ++ (last_problems fl policy now e.records
                    ++ renewal_problems fl policy 0 e.records))))

abbrev pub policy_of : Option AlgorithmPolicy → AlgorithmPolicy
policy_of none = nist_ir_8547
policy_of (some p) = p

-- `verify`. Every record's hash is looked up, in HASHES or in the policy, so one that is not hashable raises.
unfoldable pub verify :
    Floats
    → Registry
    → LongTermEvidence
    → Float
    → Option AlgorithmPolicy
    → Option (Value → Bool)
    → Option (Text → Bool)
    → Result Judgement
unfolding first_malformed is_hashable hash_of problems_of temporal_trust
verify fl reg e now policy oracle trusted =
    if is_empty e.records then ok (refused empty_chain) else elim (first_malformed fl 0 e.records) [
      | some p ↦ ok (refused p)
      | none ↦ do
        guard (all (λ r. is_hashable (hash_of r)) e.records) type_error
        let problems = problems_of fl reg e now (policy_of policy) oracle trusted
        ok (record {
          is_ok = is_empty problems;
          problems = problems;
          temporal_trust = temporal_trust oracle e.records;
        })
    ]

-- `renewal_due`: whether it is due, and when the first of the outer seal's two primitives breaks; none where
-- the policy knows neither.
unfoldable pub last_of : List Value → Option Value
last_of [] = none
last_of (r ∷ []) = some r
last_of (r ∷ s ∷ rs) = last_of (s ∷ rs)

abbrev join : Option (Option Float) → Option Float
join none = none
join (some o) = o

-- `policy.broken_after.get(k) if k else None`
unfoldable pub expiry : AlgorithmPolicy → Value → Result (Option Float)
unfolding is_hashable is_true
expiry policy (str h) = ok (if is_empty h then none else join (broken_after policy h))
expiry policy v = if is_true (some v) && not (is_hashable v) then raised type_error else ok none

-- `self.records[-1]["alg"]`
unfoldable pub outer_alg : Value → Result Value
outer_alg (obj fs) = elim (get (codes "alg") fs) [ none ↦ raised key_error | some v ↦ ok v ]
outer_alg _ = raised type_error

-- `min(bs)`, which keeps the first of two that are equal
unfoldable pub earliest : Floats → Option Float → Option Float → Option Float
earliest fl none b = b
earliest fl (some a) none = some a
earliest fl (some a) (some b) = if fl.less b a then some b else some a

unfoldable pub breaks_at : Floats → AlgorithmPolicy → Value → Result (Option Float)
unfolding hash_of earliest expiry outer_alg
breaks_at fl policy r = do
  alg ← outer_alg r
  a ← expiry policy alg
  h ← expiry policy (hash_of r)
  ok (earliest fl a h)

pub record Renewal : Type 0 where
  pub is_due : Bool
  pub breaks : Option Float

unfoldable pub due_at : (Float → Bool) → Option Float → Renewal
due_at reached none = record { is_due = false; breaks = none }
due_at reached (some b) = record { is_due = reached b; breaks = some b }

-- `(now + margin) >= b`
unfoldable pub renewal_due :
    Floats
    → (Float → Float → Bool)
    → LongTermEvidence
    → Float
    → Option AlgorithmPolicy
    → Float
    → Result Renewal
unfolding last_of breaks_at due_at
renewal_due fl at_least e now policy margin = elim (last_of e.records) [
  | none ↦ ok (record { is_due = false; breaks = none })
  | some r ↦ do b ← breaks_at fl (policy_of policy) r; ok (due_at (at_least (fl.add now margin)) b)
]
