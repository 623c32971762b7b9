-- ===== src/Pack/Folds.antt =====
-- The fold of elements into subjects, of cra_evidence/verify_pack.py, by the elements that make a pack fail.
use cra_evidence.Prelude.{
  Bool, true, false, ◌||◌, ltb, if◌then◌else◌, List, [], ◌∷◌, ◌++◌, any, ◌≡◌, refl, sym, ap, ◌∙◌,
}
use cra_evidence.Pack.{
  Element, verified, contradicted, not_evaluated, is_contradicted, is_fail_closed,
  is_instrument_failure, rank, highest, State, is_contradicted_state, state_of, reasons_of, Subject,
  fold, SubjectName, sealed_content, ledger_anchor, signed_tip_subject, source_subject,
  signature_subject,
}
use cra_evidence.Pack.Receipt.{States, elements_of, states_of, same_subject}

pub ||_assoc : (a b c : Bool) → ((a || b) || c) ≡ (a || (b || c))
||_assoc true b c = refl
||_assoc false b c = refl

pub any-append {ℓ} :
    {A : Type ℓ} (p : A → Bool) (xs ys : List A) → any p (xs ++ ys) ≡ (any p xs || any p ys)
any-append p [] ys = refl
any-append p (x ∷ xs) ys =
    ap (λ b. p x || b) (any-append p xs ys) ∙ sym (||_assoc (p x) (any p xs) (any p ys))

-- Whether the verdict is false for an element, by spec/RECEIPT.md §4.
unfoldable pub is_culprit : Element → Bool
unfolding is_fail_closed
is_culprit verified = false
is_culprit (contradicted r) = true
is_culprit (not_evaluated r) = is_fail_closed r

unfoldable pub is_contradicted_subject : State → Bool
is_contradicted_subject is_contradicted_state = true
is_contradicted_subject _ = false

-- The same of a subject of the receipt.
unfoldable pub is_culprit_subject : Subject → Bool
unfolding is_contradicted_subject
is_culprit_subject s = is_contradicted_subject s.state || any is_fail_closed s.reasons

neither :
    (b : Bool) (e f : Element)
    → is_contradicted e ≡ false
    → is_contradicted f ≡ false
    → is_contradicted (if b then f else e) ≡ false
neither true e f h k = k
neither false e f h k = h

below : (b : Bool) → ltb 3 (if b then 2 else 1) ≡ false
below true = refl
below false = refl

above : (b : Bool) → ltb (if b then 2 else 1) 3 ≡ true
above true = refl
above false = refl

-- Between two elements `max` keeps one that is contradicted.
higher :
    (e f : Element)
    → is_contradicted (if ltb (rank e) (rank f) then f else e)
      ≡ (is_contradicted e || is_contradicted f)
unfolding is_contradicted rank
higher verified verified = refl
higher verified (contradicted r) = refl
higher verified (not_evaluated r) =
    neither (ltb 0 (rank (not_evaluated r))) verified (not_evaluated r) refl refl
higher (contradicted r) verified = refl
higher (contradicted r) (contradicted q) = refl
higher (contradicted r) (not_evaluated q) = rw (below (is_instrument_failure q))
higher (not_evaluated r) verified =
    neither (ltb (rank (not_evaluated r)) 0) (not_evaluated r) verified refl refl
higher (not_evaluated r) (contradicted q) = rw (above (is_instrument_failure r))
higher (not_evaluated r) (not_evaluated q) =
    neither (ltb (rank (not_evaluated r)) (rank (not_evaluated q))) (not_evaluated r)
      (not_evaluated q) refl refl

pub ||_false : (b : Bool) → (b || false) ≡ b
||_false true = refl
||_false false = refl

||_swap : (a b c : Bool) → (a || (b || c)) ≡ (b || (a || c))
||_swap true true c = refl
||_swap true false c = refl
||_swap false b c = refl

is_contradicted-highest :
    (e : Element) (es : List Element)
    → is_contradicted (highest e es) ≡ (is_contradicted e || any is_contradicted es)
unfolding highest
is_contradicted-highest e [] = sym (||_false (is_contradicted e))
is_contradicted-highest e (f ∷ fs) =
    is_contradicted-highest (if ltb (rank e) (rank f) then f else e) fs
    ∙ (ap (λ b. b || any is_contradicted fs) (higher e f)
        ∙ ||_assoc (is_contradicted e) (is_contradicted f) (any is_contradicted fs))

is_contradicted-state_of : (e : Element) → is_contradicted_subject (state_of e) ≡ is_contradicted e
unfolding state_of is_contradicted is_contradicted_subject
is_contradicted-state_of verified = refl
is_contradicted-state_of (contradicted r) = refl
is_contradicted-state_of (not_evaluated r) = refl

-- The culprits are those that are contradicted and those whose reason fails closed.
any-is_culprit :
    (es : List Element)
    → any is_culprit es ≡ (any is_contradicted es || any is_fail_closed (reasons_of es))
unfolding is_culprit is_contradicted reasons_of
any-is_culprit [] = refl
any-is_culprit (verified ∷ es) = any-is_culprit es
any-is_culprit (contradicted r ∷ es) = refl
any-is_culprit (not_evaluated r ∷ es) =
    ap (λ b. is_fail_closed r || b) (any-is_culprit es)
    ∙ ||_swap (is_fail_closed r) (any is_contradicted es) (any is_fail_closed (reasons_of es))

-- The fold of elements is contradicted, or has a reason that fails closed, exactly if one of the elements
-- is contradicted or is not evaluated for such a reason.
pub is_culprit-fold : (es : List Element) → is_culprit_subject (fold es) ≡ any is_culprit es
unfolding is_culprit_subject is_contradicted_subject is_fail_closed fold
is_culprit-fold [] = refl
is_culprit-fold (e ∷ es) =
    ap (λ b. b || any is_fail_closed (reasons_of (e ∷ es)))
      (is_contradicted-state_of (highest e es) ∙ is_contradicted-highest e es)
    ∙ sym (any-is_culprit (e ∷ es))

-- A disjunct comes to the front, from each place.
front_second : (e a b r : Bool) → (a || ((e || b) || r)) ≡ (e || (a || (b || r)))
front_second e a b r = ap (λ x. a || x) (||_assoc e b r) ∙ ||_swap a e (b || r)

front_third : (e a b c r : Bool) → (a || (b || ((e || c) || r))) ≡ (e || (a || (b || (c || r))))
front_third e a b c r = ap (λ x. a || x) (front_second e b c r) ∙ ||_swap a e (b || (c || r))

front_fourth :
    (e a b c d r : Bool)
    → (a || (b || (c || ((e || d) || r)))) ≡ (e || (a || (b || (c || (d || r)))))
front_fourth e a b c d r =
    ap (λ x. a || x) (front_third e b c d r) ∙ ||_swap a e (b || (c || (d || r)))

front_fifth :
    (e a b c d r : Bool)
    → (a || (b || (c || (d || (e || r))))) ≡ (e || (a || (b || (c || (d || r)))))
front_fifth e a b c d r =
    ap (λ x. a || (b || (c || x))) (||_swap d e r)
    ∙ (ap (λ x. a || (b || x)) (||_swap c e (d || r))
        ∙ (ap (λ x. a || x) (||_swap b e (c || (d || r))) ∙ ||_swap a e (b || (c || (d || r)))))

-- The culprits of a log, subject by subject.
unfoldable pub any_subject : (SubjectName → Bool) → Bool
any_subject p =
    p sealed_content
    || (p ledger_anchor || (p signed_tip_subject || (p source_subject || p signature_subject)))

unfoldable pub is_culprit_at : SubjectName × Element → Bool
is_culprit_at x = is_culprit x.1

abbrev culprits : SubjectName → List (SubjectName × Element) → Bool
culprits k log = any is_culprit (elements_of k log)

any-elements_of :
    (log : List (SubjectName × Element)) → any_subject (λ k. culprits k log) ≡ any is_culprit_at log
unfolding any_subject is_culprit_at elements_of same_subject
any-elements_of [] = refl
any-elements_of ((sealed_content, e) ∷ log) =
    ||_assoc (is_culprit e) (culprits sealed_content log) (
      culprits ledger_anchor log
      || (culprits signed_tip_subject log
          || (culprits source_subject log || culprits signature_subject log)))
    ∙ ap (λ b. is_culprit e || b) (any-elements_of log)
any-elements_of ((ledger_anchor, e) ∷ log) =
    front_second (is_culprit e) (culprits sealed_content log) (culprits ledger_anchor log) (
      culprits signed_tip_subject log
      || (culprits source_subject log || culprits signature_subject log))
    ∙ ap (λ b. is_culprit e || b) (any-elements_of log)
any-elements_of ((signed_tip_subject, e) ∷ log) =
    front_third (is_culprit e) (culprits sealed_content log) (culprits ledger_anchor log)
      (culprits signed_tip_subject log)
      (culprits source_subject log || culprits signature_subject log)
    ∙ ap (λ b. is_culprit e || b) (any-elements_of log)
any-elements_of ((source_subject, e) ∷ log) =
    front_fourth (is_culprit e) (culprits sealed_content log) (culprits ledger_anchor log)
      (culprits signed_tip_subject log) (culprits source_subject log)
      (culprits signature_subject log)
    ∙ ap (λ b. is_culprit e || b) (any-elements_of log)
any-elements_of ((signature_subject, e) ∷ log) =
    front_fifth (is_culprit e) (culprits sealed_content log) (culprits ledger_anchor log)
      (culprits signed_tip_subject log) (culprits source_subject log)
      (culprits signature_subject log)
    ∙ ap (λ b. is_culprit e || b) (any-elements_of log)

-- The five states of a receipt.
unfoldable pub any_state : (Subject → Bool) → States → Bool
any_state p s = p s.sealed || (p s.anchor || (p s.tip || (p s.sources || p s.signature)))

pub any_state-states_of :
    (log : List (SubjectName × Element))
    → any_state is_culprit_subject (states_of log) ≡ any is_culprit_at log
unfolding any_state states_of any_subject
any_state-states_of log = rw (
  is_culprit-fold (elements_of sealed_content log),
  is_culprit-fold (elements_of ledger_anchor log),
  is_culprit-fold (elements_of signed_tip_subject log),
  is_culprit-fold (elements_of source_subject log),
  is_culprit-fold (elements_of signature_subject log),
  any-elements_of log,
)
