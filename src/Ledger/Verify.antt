-- ===== src/Ledger/Verify.antt =====
-- `Ledger.verify` of cra_evidence/ledger.py: what its verdict means.
use cra_evidence.Prelude.{
  ℕ, suc, ◌+◌, ◌<◌, ◌≡◌, refl, ◌↔◌, Text, true, List, [], ◌∷◌, ◌++◌, none, some, arith, length,
  is_empty→eq, append-eq-nil, ap, sym, ◌∙◌, ◌==◌, if◌then◌else◌, ok,
}
use native.Mathlib.Nat.{add-zero}
use cra_evidence.Json.{Value, obj, Fields, str}
use cra_evidence.Runtime.{Runtime}
use cra_evidence.Ledger.{genesis, Stream, entry_hash, verify_loop, verify, judge, empty_ledger}
use cra_evidence.Ledger.Chain.{Chain, Accepted, loop-Chain, chain-loop}

count_pos : (n : ℕ) → (if n == 0 then empty_ledger ∷ [] else []) ≡ [] → 0 < n
count_pos n h = ground arith

judge_pos : (n : ℕ) → 0 < n → (if n == 0 then empty_ledger ∷ [] else []) ≡ []
judge_pos n h = ground arith

module _ (rt : Runtime) (s : Stream) where
  verify-Accepted :
      (verify rt s).chain_ok ≡ true
      → Accepted rt 0 genesis s.0 s.1 (verify_loop rt 0 genesis s.0 s.1) × (0 < length s.0)
  unfolding verify judge
  verify-Accepted h =
      let r = verify_loop rt 0 genesis s.0 s.1 in
      let z = append-eq-nil r.failures _ (is_empty→eq _ h) in
      let a = chain-loop rt 0 genesis s.0 s.1 z.0 in (a, omega (arith, count_pos r.count z.1, a.2))

  last-loop : (verify rt s).last_self_hash ≡ (verify_loop rt 0 genesis s.0 s.1).last
  unfolding verify judge
  last-loop = refl

pub Chain-verify :
    (rt : Runtime) (es : List Value) (q : Text)
    → 0 < length es
    → Chain rt 0 genesis es q
    → ((verify rt (es, none)).chain_ok ≡ true) × ((verify rt (es, none)).last_self_hash ≡ q)
unfolding verify judge
Chain-verify rt es q l c =
    rw (loop-Chain rt 0 genesis q es c) (rw (judge_pos (0 + length es) (omega arith)) (refl, refl))

-- The verdict of `verify` is that the chain is sound exactly when the file was read to its end without
-- an exception, holds an entry, and its entries are numbered from 0, each linked to the hash of the
-- one before it (the first to 64 zeros) and each holding its own hash; `last_self_hash` is then the
-- hash of the last entry.
pub verify_iff :
    (rt : Runtime) (s : Stream)
    → ((verify rt s).chain_ok ≡ true)
      ↔ ((s.1 ≡ none) × (0 < length s.0) × Chain rt 0 genesis s.0 (verify rt s).last_self_hash)
verify_iff rt s =
    (λ h. let (a, l) = verify-Accepted rt s h in (a.0, l, rw (last-loop rt s) (a.1)), λ h. back s h)
  where
    back :
        (u : Stream)
        → ((u.1 ≡ none) × (0 < length u.0) × Chain rt 0 genesis u.0 (verify rt u).last_self_hash)
        → (verify rt u).chain_ok ≡ true
    back (es, none) (x, l, c) = (Chain-verify rt es _ l c).0
    back (es, some e) (x, l, c) = cc

-- A chain splits into a chain and the chain that goes on from it.
pub Chain-split :
    (rt : Runtime) (n : ℕ) (p q : Text) (es fs : List Value)
    → Chain rt n p (es ++ fs) q
    → (r : Text) × Chain rt n p es r × Chain rt (n + length es) r fs q
Chain-split rt n p q [] fs c = (p, refl, rw add-zero c)
Chain-split rt n p q (obj e ∷ es) fs (h, l, c) =
    let (r, a, b) = Chain-split rt (n + 1) h q es fs c in
    let k : n + 1 + length es ≡ n + suc (length es) = omega arith in (r, (h, l, a), rw k at b)
Chain-split rt n p q (_ ∷ es) fs c = absurd c

-- A truncated tail is not seen: what remains of a verified ledger, if it holds an entry, verifies too.
pub verify-prefix :
    (rt : Runtime) (es fs : List Value)
    → 0 < length es
    → (verify rt (es ++ fs, none)).chain_ok ≡ true
    → (verify rt (es, none)).chain_ok ≡ true
verify-prefix rt es fs l h =
    let (x, y, c) = (verify_iff rt (es ++ fs, none)).0 h in
    let (r, a, b) = Chain-split rt 0 genesis _ es fs c in (Chain-verify rt es r l a).0

-- The hash that a chain goes on from is the one that its first entry names, or its last hash.
Chain-from :
    (rt : Runtime) (n : ℕ) (p r q : Text) (fs : List Value)
    → Chain rt n p fs q
    → Chain rt n r fs q
    → p ≡ r
Chain-from rt n p r q [] c d = c ∙ sym d
Chain-from rt n p r q (obj f ∷ fs) (h, l, c) (k, m, d) =
    str-injective (sym l.prev_hash ∙ m.prev_hash)
  where
    str-injective : {s t : Text} → some (str s) ≡ some (str t) → s ≡ t
    str-injective e = cc
Chain-from rt n p r q (_ ∷ fs) c d = absurd c

-- Where one entry of a verified ledger is replaced by another, and the ledger still verifies with the
-- same `last_self_hash`, the two entries have the same hash.
pub entry_hash-replace :
    (rt : Runtime) (es fs : List Value) (e e' : Fields)
    → (verify rt (es ++ obj e ∷ fs, none)).chain_ok ≡ true
    → (verify rt (es ++ obj e' ∷ fs, none)).chain_ok ≡ true
    → (verify rt (es ++ obj e ∷ fs, none)).last_self_hash
      ≡ (verify rt (es ++ obj e' ∷ fs, none)).last_self_hash
    → entry_hash rt e ≡ entry_hash rt e'
entry_hash-replace rt es fs e e' h k same =
    let c = ((verify_iff rt (es ++ obj e ∷ fs, none)).0 h).2 in
    let d = rw (← same) at (((verify_iff rt (es ++ obj e' ∷ fs, none)).0 k).2) in
    let (r, a, (u, l, x)) = Chain-split rt 0 genesis _ es (obj e ∷ fs) c in
    let (s, b, (v, m, y)) = Chain-split rt 0 genesis _ es (obj e' ∷ fs) d in
    l.hash ∙ (ap (λ (t : Text). ok t) (Chain-from rt _ u v _ fs x y) ∙ sym m.hash)
