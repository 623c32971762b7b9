-- ===== src/Ledger/Chain.antt =====
-- What `verify` of cra_evidence/ledger.py accepts: the hash chains.
use cra_evidence.Prelude.{
  ℕ, suc, ◌+◌, ◌≡◌, refl, Text, Bool, true, false, List, [], ◌∷◌, ◌++◌, Option, none, some, codes,
  arith, ok, raised, length, inl, inr, text_eq→eq, append-eq-nil, text_eq_refl, Result-cases, ap,
  sym, ◌∙◌, Error,
}
use native.Mathlib.Nat.{add-zero}
use cra_evidence.Json.{pos, Value, int, str, obj, Fields, get}
use cra_evidence.Runtime.{Runtime}
use cra_evidence.Ledger.{
  entry_hash, verify_loop, fields_failures, hash_failures, is_int, is_str, str_or, Round, prepend,
  Failure, ended, note, unparsable, not_sequential, not_linked,
}

-- The entry number `n` of a chain, behind an entry with the hash `p`, with the hash `h` of its own.
pub record IsLink (rt : Runtime) (n : ℕ) (p h : Text) (e : Fields) : Type 0 where
  pub idx : get (codes "idx") e ≡ some (int (pos n))
  pub prev_hash : get (codes "prev_hash") e ≡ some (str p)
  pub self_hash : get (codes "self_hash") e ≡ some (str h)
  pub hash : entry_hash rt e ≡ ok h

-- A list of entries that are links one behind the other, from number `n` and hash `p` to hash `q`.
abbrev pub Chain : Runtime → ℕ → Text → List Value → Text → Type 0
Chain rt n p [] q = p ≡ q
Chain rt n p (obj e ∷ es) q = (h : Text) × IsLink rt n p h e × Chain rt (n + 1) h es q
Chain rt n p (_ ∷ es) q = ⊥

is_int→eq : (v : Option Value) (n : ℕ) → is_int v n ≡ true → v ≡ some (int (pos n))
unfolding is_int
is_int→eq v n h = ground arith

pub is_str→eq : (v : Option Value) (t : Text) → is_str v t ≡ true → v ≡ some (str t)
unfolding is_str
is_str→eq (some (str s)) t h = ap (λ (x : Text). some (str x)) (text_eq→eq s t h)
is_str→eq _ t h = cc

note-nil : (b : Bool) (f : Failure) → note b f ≡ [] → b ≡ true
note-nil true f h = refl
note-nil false f h = cc

-- The failures of one entry are none exactly for a link.
IsLink-of_none :
    (rt : Runtime) (n : ℕ) (p h : Text) (e : Fields)
    → entry_hash rt e ≡ ok h
    → fields_failures n p e ++ hash_failures n e h ≡ []
    → IsLink rt n p h e
unfolding fields_failures hash_failures
IsLink-of_none rt n p h e k z =
    let a = append-eq-nil (fields_failures n p e) (hash_failures n e h) z in
    let b =
      append-eq-nil (note (is_int (get (codes "idx") e) n) (not_sequential n))
        (note (is_str (get (codes "prev_hash") e) p) (not_linked n)) a.0 in
    record {
      idx = is_int→eq _ n (note-nil _ _ b.0);
      prev_hash = is_str→eq _ p (note-nil _ _ b.1);
      self_hash = is_str→eq _ h (note-nil _ _ a.1);
      hash = k;
    }

is_int_self : (n : ℕ) → is_int (some (int (pos n))) n ≡ true
unfolding is_int
is_int_self n = ground arith

is_str_self : (t : Text) → is_str (some (str t)) t ≡ true
unfolding is_str
is_str_self t = text_eq_refl t

none-of_link :
    (rt : Runtime) (n : ℕ) (p h : Text) (e : Fields)
    → IsLink rt n p h e
    → fields_failures n p e ++ hash_failures n e h ≡ []
unfolding fields_failures hash_failures
none-of_link rt n p h e l =
    rw (l.idx, l.prev_hash, l.self_hash) (rw (is_int_self n, is_str_self p, is_str_self h))

str_or-str : (t p : Text) → str_or (some (str t)) p ≡ t
unfolding str_or
str_or-str t p = refl

abbrev pub clean_round : ℕ → Text → Round
clean_round n q = record { failures = []; count = n; last = q }

module _ (rt : Runtime) (n : ℕ) (p : Text) (e : Fields) (es : List Value) (x : Option Error) where
  loop-ok :
      (h : Text)
      → entry_hash rt e ≡ ok h
      → verify_loop rt n p (obj e ∷ es) x
        ≡ prepend
            (fields_failures n p e ++ hash_failures n e h)
            (verify_loop rt (n + 1) (str_or (get (codes "self_hash") e) p) es x)
  unfolding verify_loop
  loop-ok h k = rw (k, verify_loop)

  loop-err :
      (z : Error)
      → entry_hash rt e ≡ raised z
      → (verify_loop rt n p (obj e ∷ es) x).failures ≡ fields_failures n p e ++ unparsable z ∷ []
  unfolding verify_loop
  loop-err z k = rw (k, verify_loop)

-- A chain passes the loop with no failure.
pub loop-Chain :
    (rt : Runtime) (n : ℕ) (p q : Text) (es : List Value)
    → Chain rt n p es q
    → verify_loop rt n p es none ≡ clean_round (n + length es) q
unfolding verify_loop ended
loop-Chain rt n p q [] c = rw c (rw add-zero)
loop-Chain rt n p q (obj e ∷ es) (h, l, c) =
    loop-ok rt n p e es none h l.hash
    ∙ (rw (none-of_link rt n p h e l, l.self_hash, str_or-str h p, loop-Chain rt (n + 1) h q es c)
        (ap (λ (k : ℕ). clean_round k q) (omega arith)))
loop-Chain rt n p q (_ ∷ es) c = absurd c

abbrev pub Accepted : Runtime → ℕ → Text → List Value → Option Error → Round → Type 0
Accepted rt n p es x r = (x ≡ none) × Chain rt n p es r.last × (r.count ≡ n + length es)

chain-step :
    (rt : Runtime) (n : ℕ) (p : Text) (e : Fields) (es : List Value) (x : Option Error)
    → ((m : ℕ) (q : Text)
        → (verify_loop rt m q es x).failures ≡ []
        → Accepted rt m q es x (verify_loop rt m q es x))
    → (verify_loop rt n p (obj e ∷ es) x).failures ≡ []
    → Accepted rt n p (obj e ∷ es) x (verify_loop rt n p (obj e ∷ es) x)
unfolding prepend
chain-step rt n p e es x ih z = elim (Result-cases (entry_hash rt e)) [
  | inl (h, k) ↦
      let s = loop-ok rt n p e es x h k in
      let a =
        append-eq-nil (fields_failures n p e ++ hash_failures n e h) _
          (ap (λ (r : Round). r.failures) (sym s) ∙ z) in
      let l = IsLink-of_none rt n p h e k a.0 in
      let f = rw (l.self_hash, str_or-str h p) at (a.1) in
      let (i, c, m) = ih (n + 1) h f in
      rw s (rw (l.self_hash, str_or-str h p) (i, (h, l, c), (m ∙ omega arith)))
  | inr (y, k) ↦ absurd (
      cc
        (append-eq-nil (fields_failures n p e) (unparsable y ∷ [])
          (sym (loop-err rt n p e es x y k) ∙ z)).1)
]

ended-nil : (x : Option Error) → ended x ≡ [] → x ≡ none
unfolding ended
ended-nil none h = refl
ended-nil (some e) h = cc

pub chain-loop :
    (rt : Runtime) (n : ℕ) (p : Text) (es : List Value) (x : Option Error)
    → (verify_loop rt n p es x).failures ≡ []
    → Accepted rt n p es x (verify_loop rt n p es x)
unfolding verify_loop
chain-loop rt n p [] x h = (ended-nil x h, refl, omega arith)
chain-loop rt n p (obj e ∷ es) x h = chain-step rt n p e es x (λ m q. chain-loop rt m q es x) h
chain-loop rt n p (_ ∷ es) x h = cc

-- A chain, and a chain that goes on from it.
pub Chain-join :
    (rt : Runtime) (n : ℕ) (p r q : Text) (es fs : List Value)
    → Chain rt n p es r
    → Chain rt (n + length es) r fs q
    → Chain rt n p (es ++ fs) q
Chain-join rt n p r q [] fs c d = rw c (rw add-zero at d)
Chain-join rt n p r q (obj e ∷ es) fs (h, l, c) d =
    let k : n + suc (length es) ≡ n + 1 + length es = omega arith in
    (h, l, Chain-join rt (n + 1) h r q es fs c (rw k at d))
Chain-join rt n p r q (_ ∷ es) fs c d = absurd c
