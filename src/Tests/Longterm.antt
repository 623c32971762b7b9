-- ===== src/Tests/Longterm.antt =====
-- Chains of seals of cra_evidence/longterm.py, with a toy algorithm whose signature is the message.
use cra_evidence.Prelude.{
  Text, Bytes, Bool, true, false, List, [], ◌∷◌, none, some, codes, text_eq, ◌≡◌, refl, ok,
  text_eq_refl, subst, ◌↔◌, ltb, length,
}
use cra_evidence.Json.{Float, finite, Value, obj, end, get}
use cra_evidence.Pack.Signature.{text_of}
use cra_evidence.Pack.Hex.{from_hex}
use cra_evidence.Longterm.{
  Floats, Algorithm, Registry, Signer, default_hash, broken_after, trusted_at, nist_ir_8547,
  LongTermEvidence, digest_with, sign_with, signed_value, message, append_fields, token_fields,
  new_record, with_sig, seal,
}
use cra_evidence.Longterm.Check.{
  Judgement, verify, first_malformed, has_texts, text_field, fields_of, is_hashable, hash_of,
  is_true, problems_of, identity_problems, signature_problems, signature_problem, signature_holds,
  hash_name, temporal_problems, attestation_problems, order_problems, last_problems, outer_problems,
  renewal_problems, hash_trusted_at, time_of, temporal_trust, last_of,
}
use cra_evidence.Longterm.Spec.{IsTrustedChain}
use cra_evidence.Longterm.Trusted.{verify_trusted_iff}
use cra_evidence.Longterm.Renewal.{seal-IsTrustedChain}

-- A float is its text, and a shorter text is less.
abbrev shorter : Float → Float → Bool
shorter (finite a) (finite b) = ltb (length a) (length b)
shorter a b = false

abbrev pub toy : Floats
toy = record {
  float_of = λ s. some (finite s);
  repr = λ x. elim x [ finite s ↦ s | _ ↦ [] ];
  less = shorter;
  add = λ a b. a;
}

abbrev echo : Algorithm
echo = record { sign = λ k m. m; verify = λ k s m. text_eq s m }

abbrev pub registry : Registry
registry = record { hashes = λ n. some (λ b. codes "00"); algorithms = λ n. some echo }

abbrev held : Signer
held = record {
  alg = codes "ed25519";
  ephemeral = false;
  private_key = codes "k";
  public_key = codes "p";
}

abbrev empty : LongTermEvidence
empty = record { evidence_digest = codes "d"; records = [] }

-- One seal at the time "1", renewed at "2".
sealed :
    (e : LongTermEvidence) × (seal toy
        (λ b. codes "00")
        registry
        empty
        held
        (finite (codes "1"))
        (codes "asserted")
        none
        default_hash
        none
      ≡ ok e)
unfolding seal message digest_with signed_value sign_with new_record with_sig append_fields
    token_fields from_hex text_eq
sealed = (_, refl)

renewed :
    (e : LongTermEvidence) × (seal toy
        (λ b. codes "00")
        registry
        sealed.0
        held
        (finite (codes "2"))
        (codes "asserted")
        none
        default_hash
        none
      ≡ ok e)
unfolding seal message digest_with signed_value sign_with new_record with_sig append_fields
    token_fields from_hex text_eq
renewed = (_, refl)

attest : Value → Bool
attest v = true

pinned : Text → Bool
pinned k = text_eq k (codes "p")

-- The first chain verifies at the time "2".
judged :
    (j : Judgement) × (verify toy registry sealed.0
        (finite (codes "2"))
        none
        (some attest)
        (some pinned)
      ≡ ok j)
    × (j.is_ok ≡ true)
unfolding sealed verify first_malformed has_texts text_field fields_of is_hashable hash_of is_true
    problems_of identity_problems signature_problems signature_problem signature_holds hash_name
    temporal_problems attestation_problems order_problems last_problems outer_problems
    renewal_problems hash_trusted_at trusted_at broken_after time_of temporal_trust message
    digest_with from_hex get text_of text_eq attest pinned
judged = (_, refl, refl)

is_trusted :
    IsTrustedChain toy registry sealed.0
      (finite (codes "2"))
      nist_ir_8547
      (some attest)
      (some pinned)
is_trusted =
    (verify_trusted_iff toy registry sealed.0 (finite (codes "2")) none (some attest)
        (some pinned)).0
      judged

verify_trusted_iff_example :
    ((j : Judgement) × (verify toy registry sealed.0
          (finite (codes "2"))
          none
          (some attest)
          (some pinned)
        ≡ ok j)
      × (j.is_ok ≡ true))
    ↔ IsTrustedChain toy registry sealed.0
        (finite (codes "2"))
        nist_ir_8547
        (some attest)
        (some pinned)
verify_trusted_iff_example =
    verify_trusted_iff toy registry sealed.0 (finite (codes "2")) none (some attest) (some pinned)

echo_checks :
    (a : Algorithm) (m : Bytes)
    → registry.algorithms held.alg ≡ some a
    → a.verify held.public_key (a.sign held.private_key m) m ≡ true
echo_checks a m h =
    let e : echo ≡ a = cc in
    subst (λ a. a.verify held.public_key (a.sign held.private_key m) m ≡ true) e (text_eq_refl m)

abbrev first_of : List Value → Value
first_of [] = obj end
first_of (r ∷ rs) = r

not_later :
    (q : Value)
    → last_of sealed.0.records ≡ some q
    → shorter (finite (codes "2")) (time_of toy q) ≡ false
unfolding sealed last_of time_of text_field fields_of text_of get text_eq
not_later q h =
    let e : first_of sealed.0.records ≡ q = cc in
    subst (λ q. shorter (finite (codes "2")) (time_of toy q) ≡ false) e refl

seal-IsTrustedChain_example :
    IsTrustedChain toy registry renewed.0
      (finite (codes "3"))
      nist_ir_8547
      (some attest)
      (some pinned)
unfolding renewed trusted_at broken_after text_eq attest sealed
seal-IsTrustedChain_example =
    seal-IsTrustedChain toy (λ b. codes "00") registry sealed.0 renewed.0 held (finite (codes "2"))
      (finite (codes "3")) (codes "asserted") none default_hash none nist_ir_8547 attest
      (some pinned) renewed.1 is_trusted echo_checks refl not_later refl refl refl
      (refl, (refl, tt))
