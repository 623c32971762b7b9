-- ===== src/Longterm/Trusted.antt =====
-- `LongTermEvidence.verify` of cra_evidence/longterm.py accepts exactly the trusted chains.
use cra_evidence.Prelude.{
  ℕ, suc, Text, Bool, true, false, if◌then◌else◌, List, [], ◌∷◌, ◌++◌, Option, none, some,
  Option-cases, Result-cases, Bool-cases, codes, ◌≡◌, ◌↔◌, refl, inl, inr, arith, ok, All, all, any,
  is_empty, is_empty→eq, append-eq-nil, &&_iff,
}
use cra_evidence.Json.{Float, Value, get}
use cra_evidence.Longterm.{Floats, Registry, AlgorithmPolicy, trusted_at, LongTermEvidence, message}
use cra_evidence.Longterm.Check.{
  Problem, empty_chain, Judgement, text_field, fields_of, hash_of, hash_name, has_texts,
  is_hashable, is_true, hash_trusted_at, time_of, first_malformed, identity_problems,
  signature_holds, signature_problem, signature_problems, attestation_problems, temporal_problems,
  order_problems, outer_problems, last_problems, renewal_problems, problems_of, policy_of,
  TemporalTrust, not_applicable, temporal_trust, verify,
}
use cra_evidence.Longterm.Spec.{
  IsRecord, IsSigned, IsSignedChain, IsTrustedAt, IsRenewed, IsPinned, IsAttested, IsTrustedChain,
}

append-nil_iff : (xs ys : List Problem) → ((xs ++ ys) ≡ []) ↔ ((xs ≡ []) × (ys ≡ []))
append-nil_iff xs ys = (append-eq-nil xs ys, λ (a, b). rw (a, b) refl)

both_iff :
    {P Q : Type 0} (xs ys : List Problem)
    → (xs ≡ []) ↔ P
    → (ys ≡ []) ↔ Q
    → ((xs ++ ys) ≡ []) ↔ (P × Q)
both_iff xs ys p q =
    let a = append-nil_iff xs ys in
    (λ h. (p.0 (a.0 h).0, q.0 (a.0 h).1), λ h. a.1 (p.1 h.0, q.1 h.1))

trans_iff : {P Q R : Type 0} → P ↔ Q → Q ↔ R → P ↔ R
trans_iff p q = (λ h. q.0 (p.0 h), λ h. p.1 (q.1 h))

unless_iff : (b : Bool) (p : Problem) → ((if b then [] else p ∷ []) ≡ []) ↔ (b ≡ true)
unless_iff true p = (λ h. refl, λ h. refl)
unless_iff false p = (λ h. cc, λ h. cc)

when_iff : (b : Bool) (p : Problem) → ((if b then p ∷ [] else []) ≡ []) ↔ (b ≡ false)
when_iff true p = (λ h. cc, λ h. cc)
when_iff false p = (λ h. refl, λ h. refl)

is_empty_iff : (xs : List Problem) → (is_empty xs ≡ true) ↔ (xs ≡ [])
is_empty_iff xs = (is_empty→eq xs, λ h. rw h refl)

any-false_iff :
    (f : Value → Bool) (rs : List Value) → (any f rs ≡ false) ↔ All (λ v. f v ≡ false) rs
any-false_iff f [] = (λ h. tt, λ h. refl)
any-false_iff f (r ∷ rs) = grind (arith, any-false_iff f rs)

all_iff : (f : Value → Bool) (rs : List Value) → (all f rs ≡ true) ↔ All (λ v. f v ≡ true) rs
all_iff f [] = (λ h. tt, λ h. refl)
all_iff f (r ∷ rs) = grind (arith, all_iff f rs)

identity_iff :
    (trusted : Option (Text → Bool)) (rs : List Value)
    → (identity_problems trusted rs ≡ []) ↔ IsPinned trusted rs
unfolding identity_problems IsPinned
identity_iff none rs = (λ h. tt, λ h. refl)
identity_iff (some trusted) [] = (λ h. tt, λ h. refl)
identity_iff (some trusted) (r ∷ rs) =
    let f : Value → Bool = λ v. is_true (get (codes "ephemeral_key") (fields_of v)) in
    both_iff _ _ (unless_iff (trusted (text_field (codes "pub") r)) _)
      (trans_iff (when_iff (any f (r ∷ rs)) _) (any-false_iff f (r ∷ rs)))

signature_iff :
    (reg : Registry) (digest : Text) (before : List Value) (i : ℕ) (r : Value)
    → (signature_problem reg digest before i r ≡ []) ↔ IsSigned reg digest before r
unfolding signature_problem signature_holds
signature_iff reg digest before i r = (
  elim (Option-cases (reg.algorithms (text_field (codes "alg") r))) [
    | inl e ↦ rw (signature_problem, e) (λ h. cc)
    | inr (a, e) ↦ elim (Option-cases (hash_name reg (hash_of r))) [
      | inl f ↦ rw (signature_problem, e, f) (λ h. cc)
      | inr (n, f) ↦ elim (Result-cases (message reg digest before (fields_of r) n)) [
        | inl (m, g) ↦
            rw (signature_problem, signature_holds, e, f, g)
              (λ h. record {
                algorithm = a;
                known = e;
                hash = n;
                named = f;
                signed = m;
                computed = g;
                holds = (unless_iff _ _).0 h;
              })
        | inr (x, g) ↦ rw (signature_problem, signature_holds, e, f, g) (λ h. cc)
      ]
    ]
  ],
  λ s. rw (signature_problem, signature_holds, s.known, s.named, s.computed, s.holds) refl,
)

signatures_iff :
    (reg : Registry) (digest : Text) (before : List Value) (i : ℕ) (rs : List Value)
    → (signature_problems reg digest before i rs ≡ []) ↔ IsSignedChain reg digest before rs
unfolding signature_problems IsSignedChain
signatures_iff reg digest before i [] = (λ h. tt, λ h. refl)
signatures_iff reg digest before i (r ∷ rs) =
    let a =
      append-nil_iff (signature_problem reg digest before i r)
        (signature_problems reg digest (before ++ r ∷ []) (suc i) rs) in
    let s = signature_iff reg digest before i r in
    let t = signatures_iff reg digest (before ++ r ∷ []) (suc i) rs in
    (λ h. let (x, y) = a.0 h in (s.0 x, t.0 y), λ (x, y). a.1 (s.1 x, t.1 y))

attestation_iff :
    (oracle : Value → Bool) (i : ℕ) (rs : List Value)
    → (attestation_problems oracle i rs ≡ []) ↔ All (λ r. oracle r ≡ true) rs
unfolding attestation_problems
attestation_iff oracle i [] = (λ h. tt, λ h. refl)
attestation_iff oracle i (r ∷ rs) =
    both_iff _ _ (unless_iff (oracle r) _) (attestation_iff oracle (suc i) rs)

temporal_iff :
    (oracle : Option (Value → Bool)) (rs : List Value)
    → (temporal_problems oracle rs ≡ []) ↔ IsAttested oracle rs
unfolding temporal_problems IsAttested
temporal_iff (some oracle) rs = attestation_iff oracle 0 rs
temporal_iff none [] = (λ h. omega arith, λ h. refl)
temporal_iff none (r ∷ []) = (λ h. omega arith, λ h. refl)
temporal_iff none (r ∷ s ∷ rs) = ground arith

trusted_iff :
    (fl : Floats) (policy : AlgorithmPolicy) (r : Value) (t : Float) (p q : Problem)
    → (((if trusted_at fl policy (text_field (codes "alg") r) t then [] else p ∷ [])
          ++ (if hash_trusted_at fl policy (hash_of r) t then [] else q ∷ []))
        ≡ [])
      ↔ IsTrustedAt fl policy r t
unfolding IsTrustedAt
trusted_iff fl policy r t p q =
    both_iff _ _ (unless_iff (trusted_at fl policy (text_field (codes "alg") r) t) p)
      (unless_iff (hash_trusted_at fl policy (hash_of r) t) q)

renewed_iff :
    (fl : Floats) (policy : AlgorithmPolicy) (now : Float) (i : ℕ) (r : Value) (rs : List Value)
    → ((order_problems fl i (r ∷ rs) ≡ [])
        × (last_problems fl policy now (r ∷ rs) ≡ [])
        × (renewal_problems fl policy i (r ∷ rs) ≡ []))
      ↔ IsRenewed fl policy now (r ∷ rs)
unfolding order_problems last_problems renewal_problems outer_problems IsRenewed IsTrustedAt
renewed_iff fl policy now i r [] =
    let t = trusted_iff fl policy r now _ _ in (λ h. t.0 h.1, λ h. (refl, t.1 h, refl))
renewed_iff fl policy now i r (s ∷ rs) =
    let n = renewed_iff fl policy now (suc i) s rs in
    let o =
      both_iff _ (order_problems fl (suc i) (s ∷ rs))
        (when_iff (fl.less (time_of fl s) (time_of fl r)) _) (λ x. x, λ x. x) in
    let l =
      both_iff _ (renewal_problems fl policy (suc i) (s ∷ rs))
        (unless_iff (hash_trusted_at fl policy (hash_of r) (time_of fl s)) _) (λ x. x, λ x. x) in
    let k =
      both_iff _ _ (unless_iff (trusted_at fl policy (text_field (codes "alg") r) (time_of fl s)) _)
        l in
    (
      λ h. let (x, y) = o.0 h.0 in let (a, (b, c)) = k.0 h.2 in (x, (a, b), n.0 (y, h.1, c)),
      λ h. let (y, m, c) = n.1 h.2 in (o.1 (h.0, y), m, k.1 (h.1.0, (h.1.1, c))),
    )

-- A record that the first loop and the look-ups of its hash let through.
IsRecord-iff :
    (fl : Floats) (i : ℕ) (r : Value) (rs : List Value)
    → ((first_malformed fl i (r ∷ rs) ≡ none) × (is_hashable (hash_of r) ≡ true))
      ↔ (IsRecord fl r × (first_malformed fl (suc i) rs ≡ none))
unfolding first_malformed
IsRecord-iff fl i r rs = (
  elim (Bool-cases (has_texts r)) [
    | inr e ↦ rw (first_malformed, e) (λ h. cc)
    | inl e ↦ elim (Option-cases (fl.float_of (text_field (codes "t") r))) [
      | inl f ↦ rw (first_malformed, e, f) (λ h. cc)
      | inr (t, f) ↦
          rw (first_malformed, e, f)
            (λ h. (record { texts = e; time = t; numeric = f; hashable = h.1 }, h.0))
    ]
  ],
  λ (x, h). (rw (first_malformed, x.texts, x.numeric) h, x.hashable),
)

records_iff :
    (fl : Floats) (i : ℕ) (rs : List Value)
    → ((first_malformed fl i rs ≡ none) × (all (λ r. is_hashable (hash_of r)) rs ≡ true))
      ↔ All (IsRecord fl) rs
unfolding first_malformed
records_iff fl i [] = (λ h. tt, λ h. (refl, refl))
records_iff fl i (r ∷ rs) =
    let a = IsRecord-iff fl i r rs in
    let n = records_iff fl (suc i) rs in
    let s = &&_iff (is_hashable (hash_of r)) (all (λ r. is_hashable (hash_of r)) rs) in
    (
      λ (h, k). let (x, m) = a.0 (h, (s.0 k).0) in (x, n.0 (m, (s.0 k).1)),
      λ (x, h). let (m, k) = n.1 h in let (y, l) = a.1 (x, m) in (y, s.1 (l, k)),
    )

problems_iff :
    (fl : Floats) (reg : Registry) (digest : Text) (r : Value) (rs : List Value) (now : Float)
    (policy : AlgorithmPolicy) (oracle : Option (Value → Bool)) (trusted : Option (Text → Bool))
    → (problems_of fl reg
          (record { evidence_digest = digest; records = r ∷ rs })
          now
          policy
          oracle
          trusted
        ≡ [])
      ↔ (IsPinned trusted (r ∷ rs)
          × (IsSignedChain reg digest [] (r ∷ rs)
              × (IsAttested oracle (r ∷ rs) × IsRenewed fl policy now (r ∷ rs))))
unfolding problems_of
problems_iff fl reg digest r rs now policy oracle trusted =
    let w = renewed_iff fl policy now 0 r rs in
    let l =
      both_iff (last_problems fl policy now (r ∷ rs)) (renewal_problems fl policy 0 (r ∷ rs))
        (λ x. x, λ x. x) (λ x. x, λ x. x) in
    let o = both_iff (order_problems fl 0 (r ∷ rs)) _ (λ x. x, λ x. x) l in
    both_iff _ _ (identity_iff trusted (r ∷ rs)) (
      both_iff _ _ (signatures_iff reg digest [] 0 (r ∷ rs)) (
        both_iff _ _ (temporal_iff oracle (r ∷ rs)) (
          λ h. let (x, (y, z)) = o.0 h in w.0 (x, y, z),
          λ h. let (x, y, z) = w.1 h in o.1 (x, (y, z)),
        )))

IsAccepted :
    Floats
    → Registry
    → LongTermEvidence
    → Float
    → Option AlgorithmPolicy
    → Option (Value → Bool)
    → Option (Text → Bool)
    → Type 0
IsAccepted fl reg e now policy oracle trusted =
    (j : Judgement) × (verify fl reg e now policy oracle trusted ≡ ok j) × (j.is_ok ≡ true)

is_ok-of :
    (b : Bool) (ps : List Problem) (t : TemporalTrust) (j : Judgement)
    → ok (record { is_ok = b; problems = ps; temporal_trust = t }) ≡ ok j
    → j.is_ok ≡ true
    → b ≡ true
is_ok-of b ps t j h a = cc

module _ (fl : Floats) (reg : Registry) (digest : Text) (now : Float)
    (policy : Option AlgorithmPolicy) (oracle : Option (Value → Bool))
    (trusted : Option (Text → Bool)) where
  abbrev chain : List Value → LongTermEvidence
  chain rs = record { evidence_digest = digest; records = rs }

  accepted-IsTrustedChain :
      (r : Value) (rs : List Value)
      → IsAccepted fl reg (chain (r ∷ rs)) now policy oracle trusted
      → IsTrustedChain fl reg (chain (r ∷ rs)) now (policy_of policy) oracle trusted
  unfolding IsAccepted verify
  accepted-IsTrustedChain r rs (j, h, a) = elim (Option-cases (first_malformed fl 0 (r ∷ rs))) [
    | inr (p, e) ↦ let b = is_ok-of false (p ∷ []) not_applicable j (rw e at h) a in cc
    | inl e ↦ elim (Bool-cases (all (λ v. is_hashable (hash_of v)) (r ∷ rs))) [
      | inr f ↦ let b = (rw (e, f) at h) in cc
      | inl f ↦
          let ps = problems_of fl reg (chain (r ∷ rs)) now (policy_of policy) oracle trusted in
          let shaped = (records_iff fl 0 (r ∷ rs)).0 (e, f) in
          let b = is_ok-of (is_empty ps) ps (temporal_trust oracle (r ∷ rs)) j (rw (e, f) at h) a in
          let (p, (s, (t, w))) =
            (problems_iff fl reg digest r rs now (policy_of policy) oracle trusted).0
              ((is_empty_iff ps).0 b) in
          record {
            nonempty = λ n. cc;
            shaped = shaped;
            pinned = p;
            signed = s;
            attested = t;
            renewed = w;
          }
    ]
  ]

  trusted-IsAccepted :
      (r : Value) (rs : List Value)
      → IsTrustedChain fl reg (chain (r ∷ rs)) now (policy_of policy) oracle trusted
      → IsAccepted fl reg (chain (r ∷ rs)) now policy oracle trusted
  unfolding IsAccepted verify
  trusted-IsAccepted r rs t =
      let (m, k) = (records_iff fl 0 (r ∷ rs)).1 t.shaped in
      let n =
        (problems_iff fl reg digest r rs now (policy_of policy) oracle trusted).1
          (t.pinned, (t.signed, (t.attested, t.renewed))) in
      (
        record { is_ok = true; problems = []; temporal_trust = temporal_trust oracle (r ∷ rs) },
        rw (m, k, n) refl,
        refl,
      )

  by_records :
      (rs : List Value)
      → IsAccepted fl reg (chain rs) now policy oracle trusted
        ↔ IsTrustedChain fl reg (chain rs) now (policy_of policy) oracle trusted
  unfolding IsAccepted verify
  by_records [] = (
    λ (j, h, a). let b = is_ok-of false (empty_chain ∷ []) not_applicable j h a in cc,
    λ t. absurd (t.nonempty refl),
  )
  by_records (r ∷ rs) = (accepted-IsTrustedChain r rs, trusted-IsAccepted r rs)

-- `verify` accepts a chain of seals exactly if it has a record, every record has its texts and a numeric time,
-- the signer is pinned, every record is signed over all before it, the times are attested (or there is one
-- only) and not decreasing, every record was renewed while its primitives were trusted, and the last is trusted now.
pub verify_trusted_iff :
    (fl : Floats) (reg : Registry) (e : LongTermEvidence) (now : Float)
    (policy : Option AlgorithmPolicy) (oracle : Option (Value → Bool))
    (trusted : Option (Text → Bool))
    → ((j : Judgement) × (verify fl reg e now policy oracle trusted ≡ ok j) × (j.is_ok ≡ true))
      ↔ IsTrustedChain fl reg e now (policy_of policy) oracle trusted
unfolding IsAccepted
verify_trusted_iff fl reg e now policy oracle trusted =
    by_records fl reg e.evidence_digest now policy oracle trusted e.records
