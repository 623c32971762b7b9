-- ===== src/Longterm/Sealed.antt =====
-- The record that `LongTermEvidence.seal` of cra_evidence/longterm.py adds is signed over the chain before it.
use cra_evidence.Prelude.{
  Text, Bytes, true, not, ◌||◌, List, [], ◌∷◌, ◌++◌, Option, some, Option-cases, codes, text_eq,
  is_empty, ◌≡◌, refl, sym, ◌∙◌, ok, value_error, guard, bind-ok, ◌>>=◌, inl, inr,
}
use cra_evidence.Json.{Float, Value, str, obj, Fields, get, without}
use cra_evidence.Pack.Signature.{text_of}
use cra_evidence.Longterm.{
  Floats, Algorithm, Registry, Signer, LongTermEvidence, digest_with, sign_with, signed_value,
  message, append_fields, token_fields, given, new_record, with_sig, seal,
}
use cra_evidence.Longterm.Check.{text_field, fields_of, hash_of, hash_name, has_texts, is_true}
use cra_evidence.Longterm.Spec.{IsSigned}

-- The record that a call of `seal` adds.
pub record IsNew (fl : Floats) (s : Signer) (t : Float) (hash_alg : Text) (own : Fields)
    (sig : Text) (r : Value) : Type 0 where
  pub alg : text_field (codes "alg") r ≡ s.alg
  pub key : text_field (codes "pub") r ≡ s.public_key
  pub time : text_field (codes "t") r ≡ fl.repr t
  pub sealed : text_field (codes "sig") r ≡ sig
  pub hash : hash_of r ≡ str hash_alg
  pub texts : has_texts r ≡ true
  pub ephemeral : is_true (get (codes "ephemeral_key") (fields_of r)) ≡ s.ephemeral
  pub unsigned : without (codes "sig") (fields_of r) ≡ without (codes "sig") own

with_sig-IsNew :
    (fl : Floats) (sha3_256 : Bytes → Text) (s : Signer) (t : Float)
    (src rehash hash_alg token sig : Text)
    → IsNew fl s t hash_alg
        (new_record fl sha3_256 s t src rehash hash_alg token)
        sig
        (obj (with_sig (new_record fl sha3_256 s t src rehash hash_alg token) sig))
unfolding text_field fields_of hash_of has_texts is_true without get text_of new_record with_sig
    append_fields token_fields text_eq
with_sig-IsNew fl sha3_256 s t src rehash hash_alg [] sig = record {
  alg = refl;
  key = refl;
  time = refl;
  sealed = refl;
  hash = refl;
  texts = refl;
  ephemeral = refl;
  unsigned = refl;
}
with_sig-IsNew fl sha3_256 s t src rehash hash_alg (c ∷ token) sig = record {
  alg = refl;
  key = refl;
  time = refl;
  sealed = refl;
  hash = refl;
  texts = refl;
  ephemeral = refl;
  unsigned = refl;
}

-- The value inside an Option that a call made of it returned.
digest_with-ok :
    (reg : Registry) (h : Text) (b : Bytes) (d : Text)
    → digest_with reg h b ≡ ok d
    → (f : Bytes → Text) × (reg.hashes h ≡ some f)
unfolding digest_with
digest_with-ok reg h b d e = elim (Option-cases (reg.hashes h)) [
  | inl n ↦ let k = (rw (digest_with, n) at e) in cc
  | inr (f, n) ↦ (f, n)
]

sign_with-ok :
    (reg : Registry) (s : Signer) (m : Bytes) (sig : Text)
    → sign_with reg s m ≡ ok sig
    → (a : Algorithm) × (reg.algorithms s.alg ≡ some a) × (a.sign s.private_key m ≡ sig)
unfolding sign_with
sign_with-ok reg s m sig e = elim (Option-cases (reg.algorithms s.alg)) [
  | inl n ↦ let k = (rw (sign_with, n) at e) in cc
  | inr (a, n) ↦ let k = (rw (sign_with, n) at e) in (a, n, cc)
]

message-ok :
    (reg : Registry) (digest : Text) (before : List Value) (own : Fields) (h : Text) (m : Bytes)
    → message reg digest before own h ≡ ok m
    → (f : Bytes → Text) × (reg.hashes h ≡ some f)
unfolding message
message-ok reg digest before own h m e =
    let (d, k, l) = bind-ok (digest_with reg h _) _ e in digest_with-ok reg h _ d k

-- The message of a record does not read its signature.
message-unsigned :
    (reg : Registry) (digest : Text) (before : List Value) (a b : Fields) (h : Text)
    → without (codes "sig") a ≡ without (codes "sig") b
    → message reg digest before a h ≡ message reg digest before b h
unfolding message signed_value
message-unsigned reg digest before a b h e = rw e refl

-- What a call of `seal` did.
pub record IsSealed (fl : Floats) (reg : Registry) (e : LongTermEvidence) (s : Signer) (t : Float)
    (hash_alg : Text) (new : LongTermEvidence) : Type 0 where
  pub own : Fields
  pub sig : Text
  pub added : Value
  pub is_new : IsNew fl s t hash_alg own sig added
  pub signed : Bytes
  pub computed : message reg e.evidence_digest e.records own hash_alg ≡ ok signed
  pub signs : sign_with reg s signed ≡ ok sig
  pub is_added : new ≡ record e { records = e.records ++ added ∷ [] }

pub seal-IsSealed :
    (fl : Floats) (sha3_256 : Bytes → Text) (reg : Registry) (e : LongTermEvidence) (s : Signer)
    (t : Float) (src : Text) (stronger : Option Text) (hash_alg : Text) (token : Option Text)
    (new : LongTermEvidence)
    → seal fl sha3_256 reg e s t src stronger hash_alg token ≡ ok new
    → IsSealed fl reg e s t hash_alg new
unfolding seal
seal-IsSealed fl sha3_256 reg e s t src stronger hash_alg token new h =
    let own = new_record fl sha3_256 s t src (given stronger) hash_alg (given token) in
    let (u, g, k) =
      bind-ok (guard (text_eq src (codes "asserted") || not (is_empty (given token))) value_error)
        (λ u. do
          msg ← message reg e.evidence_digest e.records own hash_alg
          sig ← sign_with reg s msg
          ok (record e { records = e.records ++ obj (with_sig own sig) ∷ [] }))
        h in
    let (m, c, l) =
      bind-ok (message reg e.evidence_digest e.records own hash_alg)
        (λ msg. do
          sig ← sign_with reg s msg
          ok (record e { records = e.records ++ obj (with_sig own sig) ∷ [] }))
        k in
    let (sig, d, x) =
      bind-ok (sign_with reg s m)
        (λ sig. ok (record e { records = e.records ++ obj (with_sig own sig) ∷ [] })) l in
    record {
      own = own;
      sig = sig;
      added = obj (with_sig own sig);
      is_new = with_sig-IsNew fl sha3_256 s t src (given stronger) hash_alg (given token) sig;
      signed = m;
      computed = c;
      signs = d;
      is_added = cc;
    }

hash_name-of :
    (reg : Registry) (h : Text) (f : Bytes → Text) (v : Value)
    → v ≡ str h
    → reg.hashes h ≡ some f
    → hash_name reg v ≡ some h
unfolding hash_name
hash_name-of reg h f v e k = rw (e, hash_name, k) refl

-- The added record is signed over the chain before, if the algorithm checks what it signs.
pub added-IsSigned :
    (fl : Floats) (reg : Registry) (e : LongTermEvidence) (s : Signer) (t : Float) (hash_alg : Text)
    (new : LongTermEvidence)
    → (c : IsSealed fl reg e s t hash_alg new)
    → ((a : Algorithm) (m : Bytes)
        → reg.algorithms s.alg ≡ some a
        → a.verify s.public_key (a.sign s.private_key m) m ≡ true)
    → IsSigned reg e.evidence_digest e.records c.added
added-IsSigned fl reg e s t hash_alg new c checks =
    let (a, known, made) = sign_with-ok reg s c.signed c.sig c.signs in
    let (f, registered) =
      message-ok reg e.evidence_digest e.records c.own hash_alg c.signed c.computed in
    record {
      algorithm = a;
      known = rw c.is_new.alg known;
      hash = hash_alg;
      named = hash_name-of reg hash_alg f (hash_of c.added) c.is_new.hash registered;
      signed = c.signed;
      computed =
          message-unsigned reg e.evidence_digest e.records (fields_of c.added) c.own hash_alg
            c.is_new.unsigned
          ∙ c.computed;
      holds = rw (c.is_new.key, c.is_new.sealed, sym made) (checks a c.signed known);
    }
