-- ===== src/Longterm/Renewal.antt =====
-- `LongTermEvidence.seal` of cra_evidence/longterm.py renews a chain of seals.
use cra_evidence.Prelude.{
  Text, Bytes, Bool, true, false, List, [], ◌∷◌, ◌++◌, Option, none, some, codes, ◌≡◌, ◌≢◌, refl,
  sym, ◌∙◌, subst, append_assoc, append-nil, append-eq-nil, ok, All,
}
use cra_evidence.Json.{Float, Value, get}
use cra_evidence.Longterm.{
  Floats, Algorithm, Registry, Signer, AlgorithmPolicy, trusted_at, LongTermEvidence, seal,
}
use cra_evidence.Longterm.Check.{
  text_field, fields_of, is_hashable, is_true, hash_trusted_at, time_of, last_of,
}
use cra_evidence.Longterm.Spec.{
  IsRecord, IsSigned, IsSignedChain, IsTrustedAt, IsRenewed, IsPinned, IsAttested, IsTrustedChain,
}
use cra_evidence.Longterm.Sealed.{seal-IsSealed, added-IsSigned}

append-IsSignedChain :
    (reg : Registry) (digest : Text) (before rs : List Value) (r : Value)
    → IsSignedChain reg digest before rs
    → IsSigned reg digest (before ++ rs) r
    → IsSignedChain reg digest before (rs ++ r ∷ [])
unfolding IsSignedChain
append-IsSignedChain reg digest before [] r c h =
    (subst (λ x. IsSigned reg digest x r) (append-nil before) h, tt)
append-IsSignedChain reg digest before (q ∷ rs) r c h = (
  c.0,
  append-IsSignedChain reg digest (before ++ q ∷ []) rs r c.1
      (subst (λ x. IsSigned reg digest x r) (sym (append_assoc before (q ∷ []) rs)) h),
)

append-All :
    (P : Value → Type 0) (rs : List Value) (r : Value) → All P rs → P r → All P (rs ++ r ∷ [])
append-All P [] r a h = (h, tt)
append-All P (q ∷ rs) r a h = (a.0, append-All P rs r a.1 h)

append-IsRenewed :
    (fl : Floats) (policy : AlgorithmPolicy) (t now : Float) (rs : List Value) (r : Value)
    → IsRenewed fl policy t rs
    → time_of fl r ≡ t
    → ((q : Value) → last_of rs ≡ some q → fl.less t (time_of fl q) ≡ false)
    → IsTrustedAt fl policy r now
    → IsRenewed fl policy now (rs ++ r ∷ [])
unfolding IsRenewed last_of
append-IsRenewed fl policy t now [] r w e o h = h
append-IsRenewed fl policy t now (q ∷ []) r w e o h = (rw e (o q refl), rw e w, h)
append-IsRenewed fl policy t now (q ∷ p ∷ rs) r w e o h =
    (w.0, w.1, append-IsRenewed fl policy t now (p ∷ rs) r w.2 e o h)

append-IsPinned :
    (trusted : Option (Text → Bool)) (rs : List Value) (r : Value)
    → rs ≢ []
    → IsPinned trusted rs
    → is_true (get (codes "ephemeral_key") (fields_of r)) ≡ false
    → IsPinned trusted (rs ++ r ∷ [])
unfolding IsPinned
append-IsPinned none rs r n p h = tt
append-IsPinned (some trusted) [] r n p h = absurd (n refl)
append-IsPinned (some trusted) (q ∷ rs) r n p h = (p.0, append-All _ (q ∷ rs) r p.1 h)

time_of-some :
    (fl : Floats) (r : Value) (t : Float)
    → fl.float_of (text_field (codes "t") r) ≡ some t
    → time_of fl r ≡ t
unfolding time_of
time_of-some fl r t h = rw (time_of, h) refl

-- A seal made while the chain before it is trusted gives a chain that is trusted for as long as the new record's
-- primitives are: if the algorithm checks what it signs, the text of the new time is read back as that time, the
-- last time is not behind it, the key is no ephemeral one and the oracle attests every time.
pub seal-IsTrustedChain :
    (fl : Floats) (sha3_256 : Bytes → Text) (reg : Registry) (e new : LongTermEvidence) (s : Signer)
    (t now : Float) (src : Text) (stronger : Option Text) (hash_alg : Text) (token : Option Text)
    (policy : AlgorithmPolicy) (oracle : Value → Bool) (trusted : Option (Text → Bool))
    → seal fl sha3_256 reg e s t src stronger hash_alg token ≡ ok new
    → IsTrustedChain fl reg e t policy (some oracle) trusted
    → ((a : Algorithm) (m : Bytes)
        → reg.algorithms s.alg ≡ some a
        → a.verify s.public_key (a.sign s.private_key m) m ≡ true)
    → fl.float_of (fl.repr t) ≡ some t
    → ((q : Value) → last_of e.records ≡ some q → fl.less t (time_of fl q) ≡ false)
    → s.ephemeral ≡ false
    → trusted_at fl policy s.alg now ≡ true
    → trusted_at fl policy hash_alg now ≡ true
    → All (λ r. oracle r ≡ true) new.records
    → IsTrustedChain fl reg new now policy (some oracle) trusted
unfolding time_of IsTrustedAt hash_trusted_at IsAttested is_hashable
seal-IsTrustedChain fl sha3_256 reg e new s t now src stronger hash_alg token policy oracle trusted
      h c checks round last own_key alg_ok hash_ok attested =
    let d = seal-IsSealed fl sha3_256 reg e s t src stronger hash_alg token new h in
    let n = d.is_new in
    let signed = added-IsSigned fl reg e s t hash_alg new d checks in
    let numeric : fl.float_of (text_field (codes "t") d.added) ≡ some t = rw n.time round in
    let shaped : IsRecord fl d.added = record {
      texts = n.texts;
      time = t;
      numeric = numeric;
      hashable = rw n.hash refl;
    } in
    subst (λ x. IsTrustedChain fl reg x now policy (some oracle) trusted) (sym d.is_added)
      (record {
        nonempty = λ x. c.nonempty (append-eq-nil e.records (d.added ∷ []) x).0;
        shaped = append-All (IsRecord fl) e.records d.added c.shaped shaped;
        pinned =
            append-IsPinned trusted e.records d.added c.nonempty c.pinned (n.ephemeral ∙ own_key);
        signed = append-IsSignedChain reg e.evidence_digest [] e.records d.added c.signed signed;
        attested = subst (λ x. All (λ r. oracle r ≡ true) x.records) d.is_added attested;
        renewed =
            append-IsRenewed fl policy t now e.records d.added c.renewed
              (time_of-some fl d.added t numeric) last (rw n.alg alg_ok, rw n.hash hash_ok);
      })
