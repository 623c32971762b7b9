-- ===== src/Canonical/Depth/Members.antt =====
-- The pre-scan over the texts that json.dumps joins: the items of a list, and the sorted members of
-- an object.
use mathlib.Core.List.{foldl-append}
use cra_evidence.Prelude.{
  ℕ, ◌+◌, ◌≡◌, refl, Text, List, [], ◌∷◌, ◌++◌, arith, max, Bool-cases, inl, inr, ◌∙◌,
}
use cra_evidence.Canonical.Encode.{encode_str, insert, sort, member, join_members, join, text_lt}
use cra_evidence.Canonical.Depth.{step}
use cra_evidence.Canonical.Depth.Brackets.{at, Goes, at-eq, encode_str-Goes, step-outside}

-- Two texts one after the other, with a character between that opens and closes nothing.
Goes-append :
    (t u : Text) (c m n : ℕ)
    → ((d b : ℕ) → step (at d b) c ≡ at d b)
    → Goes t m
    → Goes u n
    → Goes (t ++ c ∷ u) (max m n)
Goes-append t u c m n e g k d b h = rw foldl-append (
    rw (g d b h) (
      rw (e d (max b (d + m))) (
        k d (max b (d + m)) (omega arith)
        ∙ at-eq d (max (max b (d + m)) (d + n)) (max b (d + max m n)) (omega arith))))

comma : (d b : ℕ) → step (at d b) b',' ≡ at d b
comma d b =
    step-outside b',' d b (omega arith) (omega arith) (omega arith) (omega arith) (omega arith)

colon : (d b : ℕ) → step (at d b) b':' ≡ at d b
colon d b =
    step-outside b':' d b (omega arith) (omega arith) (omega arith) (omega arith) (omega arith)

Goes-eq : (t : Text) (m n : ℕ) → m ≡ n → Goes t m → Goes t n
Goes-eq t m n e g = rw e at g

pub Goes-nil : Goes [] 0
Goes-nil d b h = at-eq d b (max b (d + 0)) (omega arith)

-- A list of texts with the depths that they reach, and the largest of these.
abbrev pub AllGo : List Text → List ℕ → Type 0
AllGo [] [] = Unit
AllGo (t ∷ ts) (n ∷ ns) = Goes t n × AllGo ts ns
AllGo _ _ = ⊥

abbrev pub peak : List ℕ → ℕ
peak [] = 0
peak (n ∷ ns) = max n (peak ns)

pub join-Goes : (ts : List Text) (ns : List ℕ) → AllGo ts ns → Goes (join ts) (peak ns)
unfolding join
join-Goes [] [] g = Goes-nil
join-Goes [] (n ∷ ns) g = absurd g
join-Goes (t ∷ ts) [] g = absurd g
join-Goes (t ∷ []) (n ∷ []) g = Goes-eq t n (max n 0) (omega arith) g.0
join-Goes (t ∷ []) (n ∷ m ∷ ns) g = absurd g.1
join-Goes (t ∷ u ∷ ts) (n ∷ []) g = absurd g.1
join-Goes (t ∷ u ∷ ts) (n ∷ m ∷ ns) g =
    Goes-append t (join (u ∷ ts)) b',' n (peak (m ∷ ns)) comma g.0 (join-Goes (u ∷ ts) (m ∷ ns) g.1)

-- Members with the depth that each value reaches.
abbrev pub Member : Type 0
Member = Text × Text

abbrev pub MembersGo : List Member → ℕ → Type 0
MembersGo [] h = h ≡ 0
MembersGo (p ∷ ps) h = (m n : ℕ) × Goes p.1 m × MembersGo ps n × (h ≡ max m n)

member-Goes : (p : Member) (m : ℕ) → Goes p.1 m → Goes (member p) m
unfolding member
member-Goes p m g =
    Goes-eq (encode_str p.0 ++ b':' ∷ p.1) (max 0 m) m (omega arith)
      (Goes-append (encode_str p.0) p.1 b':' 0 m colon (encode_str-Goes p.0) g)

join_members-Goes : (ps : List Member) (h : ℕ) → MembersGo ps h → Goes (join_members ps) h
unfolding join_members
join_members-Goes [] h g = Goes-eq [] 0 h (omega arith) Goes-nil
join_members-Goes (p ∷ []) h (m, n, g, e, k) =
    Goes-eq (member p) m h (omega arith) (member-Goes p m g)
join_members-Goes (p ∷ q ∷ ps) h (m, n, g, r, k) =
    Goes-eq (join_members (p ∷ q ∷ ps)) (max m n) h (omega arith) (
      Goes-append (member p) (join_members (q ∷ ps)) b',' m n comma (member-Goes p m g)
        (join_members-Goes (q ∷ ps) n r))

insert-MembersGo :
    (p : Member) (ps : List Member) (m h : ℕ)
    → Goes p.1 m
    → MembersGo ps h
    → MembersGo (insert p ps) (max m h)
unfolding insert
insert-MembersGo p [] m h g r = (m, 0, g, refl, omega arith)
insert-MembersGo p (q ∷ qs) m h g (a, b, k, r, e) = elim (Bool-cases (text_lt q.0 p.0)) [
  | inl before ↦ rw before (a, max m b, k, insert-MembersGo p qs m b g r, omega arith)
  | inr after ↦ rw after (m, h, g, (a, b, k, r, e), refl)
]

sort-MembersGo : (ps : List Member) (h : ℕ) → MembersGo ps h → MembersGo (sort ps) h
unfolding sort
sort-MembersGo [] h g = g
sort-MembersGo (p ∷ ps) h (m, n, g, r, e) =
    rw e (insert-MembersGo p (sort ps) m n g (sort-MembersGo ps n r))

pub members-Goes : (ps : List Member) (h : ℕ) → MembersGo ps h → Goes (join_members (sort ps)) h
members-Goes ps h g = join_members-Goes (sort ps) h (sort-MembersGo ps h g)
