-- ===== src/Pack/Equation.antt =====
-- The verdict of `verify_pack` of cra_evidence/verify_pack.py against its states and its policy, the equation of
-- spec/RECEIPT.md §4.
use cra_evidence.Prelude.{
  Text, Bool, true, false, not, ◌&&◌, ◌||◌, List, ◌++◌, Option, ◌≡◌, refl, sym, ◌∙◌, Error, Result,
  ok, raised, Bool-cases, inl, inr, codes, bind-ok,
}
use cra_evidence.Json.{null, bool, int, float, str, arr, tuple, obj, Value, Fields, get}
use cra_evidence.Ledger.{is_str}
use cra_evidence.Runtime.{Runtime}
use cra_evidence.Disk.{Disk}
use cra_evidence.Pack.{
  is_fail, RefusalClass, Part, both, malformed, format_unsupported, unknown_member,
}
use cra_evidence.Pack.Signature.{
  unknown_fields, verify_pack_signature, Loaded, document, unusable, failed, ill_formed, load,
  Ed25519, TrustStore, Signature, pack_digest,
}
use cra_evidence.Pack.Producer.{signature_part, authenticity_of, is_authentic, is_passing}
use cra_evidence.Pack.Shape.{
  pack_keys, scope_ok, snapshot_ok, digest_part, shape_part, snapshot_part, refuse_unless,
}
use cra_evidence.Pack.Sources.{dict_of}
use cra_evidence.Pack.Stages.{ledger_file_of, is_bad_name, Request, Reading, ledger_reading}
use cra_evidence.Pack.Receipt.{
  verify_loaded, guarded, verify_pack, log_key_shape, Receipt, basis_part, conclude,
  verify_document,
}
use cra_evidence.Pack.Reasons.{IsFound, verify_pack_signature-IsFound}
use cra_evidence.Pack.Sound.{IsSound, is_adverse, is_failing}
use cra_evidence.Pack.Readings.{if-true, if-false, ledger_reading-IsSound, ledger_reading-bad}
use cra_evidence.Pack.Conclude.{
  shape_part-IsSound, snapshot_part-IsSound, signature_lem, in_front, spec_verdict,
  conclude-admitted, conclude-refused, fails_here, fails_behind, shape_fails, digest_part-IsSound,
}

-- All parts behind that of the pack's shape.
abbrev inner : Part → Bool → Reading → Option TrustStore → Signature → Part
inner digest snapshot reading store sig = both digest (
    both (snapshot_part snapshot) (
      both reading.part
        (both (signature_part store sig) (basis_part (is_passing sig || reading.anchored)))))

inner_lem :
    (digest : Part) (snapshot : Bool) (reading : Reading) (store : Option TrustStore)
    (sig : Signature)
    → IsSound digest
    → IsSound reading.part
    → IsFound sig
    → (is_authentic (authenticity_of store sig reading.anchored)
        && not (
            is_failing
              (both (shape_part true true true) (inner digest snapshot reading store sig))))
      ≡ not
          (is_adverse (both (shape_part true true true) (inner digest snapshot reading store sig)))
inner_lem digest snapshot reading store sig hd hr hs = in_front _ _ _ shape_part-IsSound (
    in_front _ _ _ hd (
      in_front _ _ _ (snapshot_part-IsSound snapshot)
        (in_front _ _ _ hr (signature_lem store sig reading.anchored hs))))

-- The receipt of a pack, by what its checks found.
abbrev receipt_of :
    Bool
    → Bool
    → Bool
    → List RefusalClass × Part
    → Bool
    → Bool
    → Reading
    → Option TrustStore
    → Signature
    → Option Value
    → Receipt
receipt_of kind schema scope digest bad snapshot reading store sig shown =
    conclude store sig reading.anchored shown
      (refuse_unless kind format_unsupported
        ++ refuse_unless schema unknown_member
        ++ refuse_unless scope malformed
        ++ digest.0
        ++ refuse_unless (not bad) malformed)
      (both (shape_part kind schema scope) (inner digest.1 snapshot reading store sig))

receipt_of_lem :
    (rt : Runtime) (pack : Fields) (kind schema scope : Bool) (d : Result Text)
    (bad snapshot : Bool) (reading : Reading) (store : Option TrustStore) (sig : Signature)
    (shown : Option Value)
    → (bad ≡ false → IsSound reading.part)
    → (bad ≡ true → is_failing reading.part ≡ true)
    → IsFound sig
    → (receipt_of kind schema scope
        (digest_part rt pack d)
        bad
        snapshot
        reading
        store
        sig
        shown).accepted
      ≡ spec_verdict (
          receipt_of kind schema scope (digest_part rt pack d) bad snapshot reading store sig shown)
unfolding digest_part is_failing is_fail
receipt_of_lem rt pack false schema scope d bad snapshot reading store sig shown g f h =
    conclude-refused store sig reading.anchored shown _ _ _
      (fails_here _ _ (shape_fails false schema scope refl))
receipt_of_lem rt pack true false scope d bad snapshot reading store sig shown g f h =
    conclude-refused store sig reading.anchored shown _ _ _
      (fails_here _ _ (shape_fails true false scope refl))
receipt_of_lem rt pack true true false d bad snapshot reading store sig shown g f h =
    conclude-refused store sig reading.anchored shown _ _ _
      (fails_here _ _ (shape_fails true true false refl))
receipt_of_lem rt pack true true true (raised e) bad snapshot reading store sig shown g f h =
    conclude-refused store sig reading.anchored shown _ _ _ (fails_behind _ _ (fails_here _ _ refl))
receipt_of_lem rt pack true true true (ok t) true snapshot reading store sig shown g f h =
    conclude-refused store sig reading.anchored shown _ _ _
      (fails_behind _ _ (fails_behind _ _ (fails_behind _ _ (fails_here _ _ (f refl)))))
receipt_of_lem rt pack true true true (ok t) false snapshot reading store sig shown g f h =
    conclude-admitted store sig reading.anchored shown _ (
      inner_lem (digest_part rt pack (ok t)).1 snapshot reading store sig
        (digest_part-IsSound rt pack t) (g refl) h)

receipt-injective : (r s : Receipt) → ok r ≡ ok s → r ≡ s
receipt-injective r s h = cc

document_lem :
    (rt : Runtime) (ed : Ed25519) (disk : Disk) (path : Text) (q : Request) (pack : Fields)
    (r : Receipt)
    → verify_document rt ed disk path q pack ≡ ok r
    → r.accepted ≡ spec_verdict r
unfolding verify_document
document_lem rt ed disk path q pack r h =
    let (reading, e, f) =
      bind-ok (ledger_reading rt ed disk path q pack)
        (λ x. ok (
          receipt_of (is_str (get (codes "kind") pack) (codes "cra_evidence_pack/1"))
            (not (unknown_fields pack_keys pack)) (scope_ok (get (codes "honest_scope") pack))
            (digest_part rt pack (pack_digest rt pack)) (is_bad_name (ledger_file_of pack))
            (snapshot_ok (dict_of (get (codes "verification") pack))) x q.trust_store
            (verify_pack_signature rt ed disk path q.trust_store pack)
            (get (codes "pack_sha3") pack)))
        h in
    rw (sym (receipt-injective _ r f)) (
      receipt_of_lem rt pack _ _ _ (pack_digest rt pack) (is_bad_name (ledger_file_of pack)) _
        reading q.trust_store (verify_pack_signature rt ed disk path q.trust_store pack) _
        (λ b. ledger_reading-IsSound rt ed disk path q pack reading b e)
        (λ b. ledger_reading-bad rt ed disk path q pack reading b e)
        (verify_pack_signature-IsFound rt ed disk path q.trust_store pack))

loaded_lem :
    (rt : Runtime) (ed : Ed25519) (disk : Disk) (path : Text) (q : Request) (l : Loaded)
    (r : Receipt)
    → verify_loaded rt ed disk path q l ≡ ok r
    → r.accepted ≡ spec_verdict r
unfolding verify_loaded spec_verdict
loaded_lem rt ed disk path q (document (obj pack)) r h = document_lem rt ed disk path q pack r h
loaded_lem rt ed disk path q unusable r h = rw (sym (receipt-injective _ r h))
loaded_lem rt ed disk path q failed r h = rw (sym (receipt-injective _ r h))
loaded_lem rt ed disk path q ill_formed r h = rw (sym (receipt-injective _ r h))
loaded_lem rt ed disk path q (document null) r h = rw (sym (receipt-injective _ r h))
loaded_lem rt ed disk path q (document (bool b)) r h = rw (sym (receipt-injective _ r h))
loaded_lem rt ed disk path q (document (int z)) r h = rw (sym (receipt-injective _ r h))
loaded_lem rt ed disk path q (document (float x)) r h = rw (sym (receipt-injective _ r h))
loaded_lem rt ed disk path q (document (str s)) r h = rw (sym (receipt-injective _ r h))
loaded_lem rt ed disk path q (document (arr vs)) r h = rw (sym (receipt-injective _ r h))
loaded_lem rt ed disk path q (document (tuple vs)) r h = rw (sym (receipt-injective _ r h))

guarded_lem :
    (fault : Bool) (m : Result Receipt)
    → ((r : Receipt) → m ≡ ok r → r.accepted ≡ spec_verdict r)
    → (guarded fault m).accepted ≡ spec_verdict (guarded fault m)
unfolding guarded spec_verdict
guarded_lem false (ok r) h = h r refl
guarded_lem false (raised e) h = refl
guarded_lem true m h = refl

not_raised : (e : Error) (r : Receipt) {P : Type 0} → raised e ≡ ok r → P
not_raised e r h = cc

-- A receipt that verify_pack gives is accepted exactly if it has states and a policy, no subject is
-- contradicted, no reason is one that fails closed, and no requirement of the policy is unmet; so a
-- refused receipt and one of an exception is never accepted.
pub verify_pack-equation :
    (fault : Bool) (rt : Runtime) (ed : Ed25519) (disk : Disk) (path : Text) (q : Request)
    (r : Receipt)
    → verify_pack fault rt ed disk path q ≡ ok r
    → r.accepted ≡ spec_verdict r
unfolding verify_pack
verify_pack-equation fault rt ed disk path q r h = elim (Bool-cases (log_key_shape q.log_pubkey)) [
  | inl k ↦ rw (sym (receipt-injective _ r (sym (if-true _ _ _ k) ∙ h))) (
      guarded_lem fault (verify_loaded rt ed disk path q (load rt disk path))
        (λ s e. loaded_lem rt ed disk path q (load rt disk path) s e))
  | inr k ↦ not_raised _ r (sym (if-false _ _ _ k) ∙ h)
]
