-- ===== src/Pack/Conclude.antt =====
-- The end of `_verify` of cra_evidence/verify_pack.py: from parts to the verdict.
use cra_evidence.Prelude.{
  Text, Bool, true, false, not, ◌&&◌, ◌||◌, if◌then◌else◌, List, [], ◌∷◌, Option, none, some, any,
  is_empty, ◌≡◌, refl, sym, ap, ◌∙◌, arith, ok, codes,
}
use cra_evidence.Json.{Value, Fields, get}
use cra_evidence.Ledger.{is_str}
use cra_evidence.Runtime.{Runtime}
use cra_evidence.Pack.{
  pack_sha3, sealed_content, digest_mismatch, finding, verified, contradicted, is_fail,
  is_fail_closed, RefusalClass, Requirement, trusted_signer_unmet, ledger_required, tip_required,
  sources_required, authenticity_basis, Part, both, pass_if,
}
use cra_evidence.Pack.Signature.{TrustStore, Signature, unsigned, failing, passing}
use cra_evidence.Pack.Producer.{
  signature_part, authenticity_of, is_authentic, is_passing, is_untrusted, signature_element,
  signature_layer, signer_layers, failed_element,
}
use cra_evidence.Pack.Shape.{digest_part, shape_part, snapshot_part}
use cra_evidence.Pack.Receipt.{
  Receipt, States, basis_part, conclude, listed, policy_unmet, same_requirement, admit,
}
use cra_evidence.Pack.Folds.{
  is_culprit_subject, any_state, any_state-states_of, is_culprit_at, is_culprit,
}
use cra_evidence.Pack.Reasons.{IsFound, is_found}
use cra_evidence.Pack.Sound.{IsSound, is_adverse, is_failing, is_adverse-both, is_failing-both}

pub shape_part-IsSound : IsSound (shape_part true true true)
unfolding IsSound shape_part is_fail
shape_part-IsSound = refl

pub snapshot_part-IsSound : (good : Bool) → IsSound (snapshot_part good)
unfolding IsSound snapshot_part is_fail is_culprit
snapshot_part-IsSound true = refl
snapshot_part-IsSound false = refl

-- The signature's part with the basis of the authenticity: a verdict that rests on no failing layer is
-- withheld exactly where something adverse was recorded.
pub signature_lem :
    (store : Option TrustStore) (sig : Signature) (anchored : Bool)
    → IsFound sig
    → (is_authentic (authenticity_of store sig anchored)
        && not (
            is_failing (both (signature_part store sig) (basis_part (is_passing sig || anchored)))))
      ≡ not (is_adverse (both (signature_part store sig) (basis_part (is_passing sig || anchored))))
unfolding is_authentic authenticity_of is_failing is_adverse signature_part is_passing both is_fail
    is_culprit signature_element signature_layer signer_layers is_untrusted failed_element
    is_fail_closed is_culprit_at IsFound is_found
signature_lem none unsigned true h = refl
signature_lem none unsigned false h = refl
signature_lem (some s) unsigned anchored h = refl
signature_lem none (passing true) anchored h = refl
signature_lem none (passing false) anchored h = refl
signature_lem (some s) (passing true) anchored h = refl
signature_lem (some s) (passing false) anchored h = refl
signature_lem none (failing r) anchored h = rw h
signature_lem (some s) (failing r) anchored h = rw h

not_or : (a b c d : Bool) → (a && not b) ≡ not c → (a && not (d || b)) ≡ not (d || c)
not_or true b c true h = refl
not_or false b c true h = refl
not_or a b c false h = h

pub in_front :
    (a : Bool) (p q : Part)
    → IsSound p
    → (a && not (is_failing q)) ≡ not (is_adverse q)
    → (a && not (is_failing (both p q))) ≡ not (is_adverse (both p q))
unfolding IsSound
in_front a p q h k =
    ap (λ b. a && not b) (is_failing-both p q ∙ ap (λ b. b || is_failing q) h)
    ∙ (not_or a (is_failing q) (is_adverse q) (is_adverse p) k ∙ ap not (sym (is_adverse-both p q)))

-- The equation of §4.
pub spec_ok : States → List Requirement → Bool
spec_ok s u = not (any_state is_culprit_subject s) && is_empty u

unfoldable pub spec_verdict : Receipt → Bool
unfolding spec_ok
spec_verdict r = elim r.states [
  | none ↦ false
  | some s ↦ elim r.policy [ none ↦ false | some u ↦ spec_ok s u ]
]

is_empty-listed : (u : List Requirement) → is_empty (listed policy_unmet u) ≡ is_empty u
unfolding listed same_requirement
is_empty-listed [] = refl
is_empty-listed (trusted_signer_unmet ∷ us) = refl
is_empty-listed (ledger_required ∷ us) = ground arith
is_empty-listed (tip_required ∷ us) = ground arith
is_empty-listed (sources_required ∷ us) = ground arith
is_empty-listed (authenticity_basis ∷ us) = ground arith

not_or-and : (a b : Bool) → not (a || not b) ≡ (not a && b)
not_or-and true b = refl
not_or-and false true = refl
not_or-and false false = refl

pub conclude-admitted :
    (store : Option TrustStore) (sig : Signature) (anchored : Bool) (digest : Option Value)
    (p : Part)
    → (is_authentic (authenticity_of store sig anchored) && not (is_failing p)) ≡ not (is_adverse p)
    → (conclude store sig anchored digest [] p).accepted
      ≡ spec_verdict (conclude store sig anchored digest [] p)
unfolding conclude admit spec_verdict is_failing is_adverse
conclude-admitted store sig anchored digest p h =
    h
    ∙ (not_or-and (any is_culprit_at p.log) (is_empty p.unmet)
        ∙ rw (any_state-states_of p.log, is_empty-listed p.unmet))

&&_false : (b : Bool) → (b && false) ≡ false
&&_false true = refl
&&_false false = refl

pub conclude-refused :
    (store : Option TrustStore) (sig : Signature) (anchored : Bool) (digest : Option Value)
    (c : RefusalClass) (cs : List RefusalClass) (p : Part)
    → is_failing p ≡ true
    → (conclude store sig anchored digest (c ∷ cs) p).accepted
      ≡ spec_verdict (conclude store sig anchored digest (c ∷ cs) p)
unfolding conclude admit spec_verdict is_failing
conclude-refused store sig anchored digest c cs p h =
    rw (h, &&_false (is_authentic (authenticity_of store sig anchored)))

||_true : (b : Bool) → (b || true) ≡ true
||_true true = refl
||_true false = refl

pub fails_here : (p q : Part) → is_failing p ≡ true → is_failing (both p q) ≡ true
fails_here p q h = is_failing-both p q ∙ ap (λ b. b || is_failing q) h

pub fails_behind : (p q : Part) → is_failing q ≡ true → is_failing (both p q) ≡ true
fails_behind p q h = is_failing-both p q ∙ (ap (λ b. is_failing p || b) h ∙ ||_true (is_failing p))

finding_if-IsSound :
    (good : Bool)
    → IsSound (
        finding pack_sha3
          (pass_if good)
          sealed_content
          (if good then verified else contradicted digest_mismatch))
unfolding IsSound is_adverse is_failing is_fail is_culprit is_culprit_at
finding_if-IsSound true = refl
finding_if-IsSound false = refl

pub shape_fails :
    (kind schema scope : Bool)
    → (kind && (schema && scope)) ≡ false
    → is_failing (shape_part kind schema scope) ≡ true
unfolding is_failing shape_part is_fail
shape_fails false schema scope h = refl
shape_fails true false scope h = refl
shape_fails true true false h = refl
shape_fails true true true h = cc

pub digest_part-IsSound :
    (rt : Runtime) (pack : Fields) (h : Text) → IsSound (digest_part rt pack (ok h)).1
unfolding digest_part
digest_part-IsSound rt pack h = finding_if-IsSound (is_str (get (codes "pack_sha3") pack) h)
