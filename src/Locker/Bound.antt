-- ===== src/Locker/Bound.antt =====
-- The records that cra_evidence/locker.py writes are bound to their content, and its `verify` finds those that are.
use cra_evidence.Prelude.{
  ℕ, ◌+◌, Text, Bool, true, false, ◌&&◌, ◌==◌, if◌then◌else◌, List, [], ◌∷◌, Option, none, some,
  codes, text_eq_refl, ◌≡◌, refl, sym, ◌∙◌, ap, ◌↔◌, inl, inr, arith, Bool-cases, Option-cases,
  Result-cases, subst, Result, ok, raised, Error, bind-ok, ◌>>=◌,
}
use cra_evidence.Json.{Value, str, obj, Fields, end, field, get, is_name, without, set_field}
use cra_evidence.Json.Assign.{get-set_field, without-set_field}
use cra_evidence.Runtime.{Runtime}
use cra_evidence.Canonical.{floatfree, floatfree_fields}
use cra_evidence.Ledger.{Stream, Verdict, is_str, verify}
use cra_evidence.Pack.Signature.{sha3_hex}
use cra_evidence.Pack.Sources.{data_of}
use cra_evidence.Pack.Anchor.{is_bound, all_bound}
use cra_evidence.Locker.{
  bind_record, Scan, is_record, count_record, scan, LockerVerdict, is_whole, conclude_scan,
  uncaught, verify_records,
}

floatfree_fields-absent :
    (k : Text) (fs gs : Fields) → floatfree_fields fs ≡ ok gs → get k fs ≡ none → get k gs ≡ none
unfolding floatfree_fields get
floatfree_fields-absent k end gs h n = let e : end ≡ gs = cc in rw (sym e) refl
floatfree_fields-absent k (field j v fs) gs h n =
    let (w, e, l) =
      bind-ok (floatfree v) (λ w. floatfree_fields fs >>= λ gs. ok (field j w gs)) h in
    let (hs, f, m) = bind-ok (floatfree_fields fs) (λ gs. ok (field j w gs)) l in
    let g : field j w hs ≡ gs = cc in
    elim (Bool-cases (is_name k j)) [
      | inl b ↦ let q = (rw (get, b) at n) in cc
      | inr b ↦ rw (sym g, get, b) (floatfree_fields-absent k fs hs f (rw (get, b) at n))
    ]

abbrev digest_key : Text
digest_key = codes "record_sha3"

abbrev digest_of : Runtime → Fields → Result Text
digest_of rt d = sha3_hex rt (obj (without digest_key d))

-- One record.
is_bound-other : (rt : Runtime) (d : Fields) → is_record d ≡ false → is_bound rt d ≡ ok true
unfolding is_bound is_record
is_bound-other rt d e = rw (is_bound, e) refl

is_bound-ok :
    (rt : Runtime) (d : Fields) (h : Text)
    → is_record d ≡ true
    → digest_of rt d ≡ ok h
    → is_bound rt d ≡ ok (is_str (get digest_key d) h)
unfolding is_bound is_record
is_bound-ok rt d h e g = rw (is_bound, e, g) refl

is_bound-raised :
    (rt : Runtime) (d : Fields) (z : Error)
    → is_record d ≡ true
    → digest_of rt d ≡ raised z
    → is_bound rt d ≡ raised z
unfolding is_bound is_record
is_bound-raised rt d z e g = rw (is_bound, e, g) refl

scan-other :
    (rt : Runtime) (e : Value) (es : List Value) (x : Option Error)
    → is_record (data_of e) ≡ false
    → scan rt (e ∷ es) x ≡ scan rt es x
unfolding scan
scan-other rt e es x h = rw (scan, h) refl

scan-ok :
    (rt : Runtime) (e : Value) (es : List Value) (x : Option Error) (h : Text)
    → is_record (data_of e) ≡ true
    → digest_of rt (data_of e) ≡ ok h
    → scan rt (e ∷ es) x ≡ count_record (is_str (get digest_key (data_of e)) h) (scan rt es x)
unfolding scan
scan-ok rt e es x h k g = rw (scan, k, g) refl

scan-raised :
    (rt : Runtime) (e : Value) (es : List Value) (x : Option Error) (z : Error)
    → is_record (data_of e) ≡ true
    → digest_of rt (data_of e) ≡ raised z
    → scan rt (e ∷ es) x ≡ record { checked = 1; mismatched = 0; aborted = some z }
unfolding scan
scan-raised rt e es x z k g = rw (scan, k, g) refl

-- A record that is bound and appended is one that the verifiers find bound, if it did not have a digest before.
pub bind_record-bound :
    (rt : Runtime) (d r : Fields)
    → get (codes "record_sha3") d ≡ none
    → bind_record rt d ≡ ok r
    → is_bound rt r ≡ ok true
unfolding bind_record is_str
bind_record-bound rt d r n h =
    let (e, f, k) =
      bind-ok (floatfree_fields d)
        (λ e. do h ← sha3_hex rt (obj e); ok (set_field digest_key (str h) e)) h in
    let (s, g, l) = bind-ok (sha3_hex rt (obj e)) (λ h. ok (set_field digest_key (str h) e)) k in
    let r_is : set_field digest_key (str s) e ≡ r = cc in
    let absent = floatfree_fields-absent digest_key d e f n in
    let c : digest_of rt (set_field digest_key (str s) e) ≡ ok s =
      ap (λ x. sha3_hex rt (obj x)) (without-set_field digest_key (str s) e absent) ∙ g in
    let t : is_str (get digest_key (set_field digest_key (str s) e)) s ≡ true =
      rw (get-set_field digest_key (str s) e) (text_eq_refl s) in
    subst (λ x. is_bound rt x ≡ ok true) r_is
      (elim (Bool-cases (is_record (set_field digest_key (str s) e))) [
        | inr a ↦ is_bound-other rt (set_field digest_key (str s) e) a
        | inl a ↦ is_bound-ok rt (set_field digest_key (str s) e) s a c ∙ ap ok t
      ])

and_bound :
    (b : Bool) (r : Result Bool)
    → ((r >>= λ rest. ok (b && rest)) ≡ ok true) ↔ ((b ≡ true) × (r ≡ ok true))
and_bound true (raised z) = (λ h. cc, λ h. cc)
and_bound false (raised z) = (λ h. cc, λ h. cc)
and_bound true (ok true) = (λ h. (refl, refl), λ h. refl)
and_bound true (ok false) = (λ h. cc, λ h. cc)
and_bound false (ok b) = (λ h. cc, λ h. cc)

none_mismatched : (b : Bool) (m : ℕ) → ((if b then m else m + 1) ≡ 0) ↔ ((b ≡ true) × (m ≡ 0))
none_mismatched true m = (λ h. (refl, h), λ h. h.1)
none_mismatched false m = ground arith

scan_iff :
    (rt : Runtime) (es : List Value) (x : Option Error)
    → (((scan rt es x).aborted ≡ none) × ((scan rt es x).mismatched ≡ 0))
      ↔ ((x ≡ none) × (all_bound rt es ≡ ok true))
unfolding scan all_bound count_record
scan_iff rt [] x = (λ h. (h.0, refl), λ h. (h.0, refl))
scan_iff rt (e ∷ es) x =
    let n = scan_iff rt es x in
    elim (Bool-cases (is_record (data_of e))) [
      | inr a ↦
          rw (scan-other rt e es x a, all_bound, is_bound-other rt (data_of e) a)
            (
              λ h. let (y, b) = n.0 h in (y, (and_bound true (all_bound rt es)).1 (refl, b)),
              λ h. n.1 (h.0, ((and_bound true (all_bound rt es)).0 h.1).1),
            )
      | inl a ↦ elim (Result-cases (digest_of rt (data_of e))) [
        | inr (z, g) ↦
            rw (scan-raised rt e es x z a g, all_bound, is_bound-raised rt (data_of e) z a g)
              (λ h. let k = h.0 in cc, λ h. let k = h.1 in cc)
        | inl (h, g) ↦
            rw (scan-ok rt e es x h a g, all_bound, is_bound-ok rt (data_of e) h a g)
              (let good = is_str (get digest_key (data_of e)) h in
                let m = none_mismatched good (scan rt es x).mismatched in
                let b = and_bound good (all_bound rt es) in
                (
                  λ h. let (t, z) = m.0 h.1 in let (y, l) = n.0 (h.0, z) in (y, b.1 (t, l)),
                  λ h. let (t, l) = b.0 h.1 in let (y, z) = n.1 (h.0, l) in (y, m.1 (t, z)),
                ))
      ]
    ]

ok-injective : (a b : LockerVerdict) → ok a ≡ ok b → a ≡ b
ok-injective a b h = cc

three_iff :
    (b : Bool) (x : Option Error) (m : ℕ)
    → ((b && (is_whole x && (m == 0))) ≡ true) ↔ ((b ≡ true) × ((x ≡ none) × (m ≡ 0)))
three_iff true none m = ground arith
three_iff false none m = ground arith
three_iff true (some e) m = (λ h. cc, λ h. let k = h.1 in let l = k.0 in cc)
three_iff false (some e) m = (λ h. cc, λ h. cc)

whole_iff :
    (v : Verdict) (s : Scan)
    → ((conclude_scan v s).chain_ok ≡ true)
      ↔ ((v.chain_ok ≡ true) × ((s.aborted ≡ none) × (s.mismatched ≡ 0)))
unfolding conclude_scan
whole_iff v s = three_iff v.chain_ok s.aborted s.mismatched

-- Where the locker's `verify` gives a verdict, it is good exactly if the chain verifies, was read to its end, and every
-- record in it is bound as the pack verifier tests it.
pub verify_records_iff :
    (rt : Runtime) (s : Stream) (v : LockerVerdict)
    → verify_records rt s ≡ ok v
    → (v.chain_ok ≡ true)
      ↔ (((verify rt s).chain_ok ≡ true) × ((s.1 ≡ none) × (all_bound rt s.0 ≡ ok true)))
unfolding verify_records
verify_records_iff rt s v h = elim (Option-cases (uncaught (scan rt s.0 s.1).aborted)) [
  | inr (e, a) ↦ let k = (rw (verify_records, a) at h) in cc
  | inl a ↦
      let k : conclude_scan (verify rt s) (scan rt s.0 s.1) ≡ v =
        ok-injective _ _ (rw (verify_records, a) at h) in
      let w = whole_iff (verify rt s) (scan rt s.0 s.1) in
      let n = scan_iff rt s.0 s.1 in
      subst
        (λ v.
          (v.chain_ok ≡ true)
          ↔ (((verify rt s).chain_ok ≡ true) × ((s.1 ≡ none) × (all_bound rt s.0 ≡ ok true))))
        k (λ g. ((w.0 g).0, n.0 (w.0 g).1), λ g. w.1 (g.0, n.1 g.1))
]
