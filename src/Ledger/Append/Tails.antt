-- ===== src/Ledger/Append/Tails.antt =====
-- What `_tail_state` of cra_evidence/ledger.py finds of a file that `entries` reads as a chain.
use cra_evidence.Prelude.{
  ◌+◌, ◌≡◌, refl, Text, Bytes, not, List, [], ◌∷◌, none, some, ok, raised, arith, Result, Option,
  sym, ◌∙◌, ap, length, codes, ◌>>=◌, bind-ok,
}
use cra_evidence.Json.{Value, str, obj, Fields, get}
use cra_evidence.Runtime.{Runtime}
use cra_evidence.Ledger.{newline, ends_with, read_entry, yield_then, entries}
use cra_evidence.Ledger.Chain.{Chain}
use cra_evidence.Ledger.Append.{Tail, chained_hash, count_entry, tail_step, tail_loop}

-- A round of the tail's loop reads what a round of `entries` reads.
unfoldable pub step_of_read : Tail → Bytes → Option Value → Result Tail
step_of_read t raw none = ok (record t { unterminated = not (ends_with newline raw) })
step_of_read t raw (some v) = do
  h ← chained_hash v
  ok (count_entry (record t { unterminated = not (ends_with newline raw) }) h)

pub tail_step-read :
    (rt : Runtime) (t : Tail) (raw : Bytes)
    → tail_step rt t raw ≡ (read_entry rt raw >>= step_of_read t raw)
unfolding tail_step read_entry step_of_read
tail_step-read rt t raw = ground arith

chained_hash-obj :
    (e : Fields) (h k : Text)
    → get (codes "self_hash") e ≡ some (str h)
    → chained_hash (obj e) ≡ ok k
    → k ≡ h
unfolding chained_hash
chained_hash-obj e h k g c = ground arith

abbrev Found : Runtime → List Bytes → Tail → Tail → Text → Type 0
Found rt rs t u q =
    ((entries rt rs).1 ≡ none) × (u.last ≡ q) × (u.count ≡ t.count + length (entries rt rs).0)

-- One read of `tail_loop-Found`, given the claim for the reads behind it.
tail_next :
    (rt : Runtime) (r : Bytes) (rs : List Bytes) (t u v : Tail) (q : Text)
    (x : Result (Option Value))
    → read_entry rt r ≡ x
    → (read_entry rt r >>= step_of_read t r) ≡ ok v
    → Chain rt t.count t.last (yield_then (read_entry rt r) (entries rt rs)).0 q
    → ((w : Text) → Chain rt v.count v.last (entries rt rs).0 w → Found rt rs v u w)
    → ((yield_then (read_entry rt r) (entries rt rs)).1 ≡ none)
      × (u.last ≡ q)
      × (u.count ≡ t.count + length (yield_then (read_entry rt r) (entries rt rs)).0)
unfolding yield_then step_of_read count_entry
tail_next rt r rs t u v q (raised z) e s c ih = absurd (cc (rw e at s))
tail_next rt r rs t u v q (ok none) e s c ih =
    let s' = rw e at s in
    let n : v.count ≡ t.count = cc in
    let l : v.last ≡ t.last = cc in
    let f = ih q (rw (n, l) (rw e at c)) in rw e (f.0, f.1, omega (arith, f.2))
tail_next rt r rs t u v q (ok (some (obj f))) e s c ih =
    let (h, k, g) = bind-ok (chained_hash (obj f)) _ (rw e at s) in
    let (x, l, d) = rw e at c in
    let same = chained_hash-obj f x h l.self_hash k in
    let n : v.count ≡ t.count + 1 = cc in
    let m : v.last ≡ x = cc in let a = ih q (rw (n, m) d) in rw e (a.0, a.1, omega (arith, a.2))
tail_next rt r rs t u v q (ok (some _)) e s c ih = absurd (rw e at c)

-- If the reads hold a chain, the tail's loop goes through them all, and ends with the last hash.
pub tail_loop-Found :
    (rt : Runtime) (rs : List Bytes) (t u : Tail) (q : Text)
    → tail_loop rt t rs ≡ ok u
    → Chain rt t.count t.last (entries rt rs).0 q
    → Found rt rs t u q
unfolding tail_loop entries
tail_loop-Found rt [] t u q h c =
    let e : t ≡ u = cc in
    (refl, ap (λ (z : Tail). z.last) (sym e) ∙ c, ap (λ (z : Tail). z.count) (sym e) ∙ omega arith)
tail_loop-Found rt (r ∷ rs) t u q h c =
    let (v, s, k) = bind-ok (tail_step rt t r) (λ v. tail_loop rt v rs) h in
    tail_next rt r rs t u v q (read_entry rt r) refl (sym (tail_step-read rt t r) ∙ s) c
      (λ w. tail_loop-Found rt rs v u w k)
