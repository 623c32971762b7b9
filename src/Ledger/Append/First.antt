-- ===== src/Ledger/Append/First.antt =====
-- The third result of `_tail_state` of cra_evidence/ledger.py: the hash of the first entry.
use cra_evidence.Prelude.{
  ◌≤◌, ◌≡◌, Text, Bytes, List, [], ◌∷◌, none, some, ok, raised, arith, Result, Option, sym, ◌∙◌,
  codes, bind-ok, ◌>>=◌,
}
use cra_evidence.Json.{Value, null, bool, int, float, str, arr, tuple, obj, get}
use cra_evidence.Runtime.{Runtime}
use cra_evidence.Ledger.{read_entry, yield_then, entries}
use cra_evidence.Ledger.Append.{Tail, chained_hash, count_entry, tail_step, tail_loop}
use cra_evidence.Ledger.Append.Tails.{step_of_read, tail_step-read}

-- The first of some entries, if there is one, is a dict with that hash.
unfoldable pub IsHead : List Value → Text → Type 0
IsHead [] h = Unit {0}
IsHead (obj f ∷ es) h = get (codes "self_hash") f ≡ some (str h)
IsHead (_ ∷ es) h = ⊥

chained_hash-IsHead :
    (v : Value) (k : Text) (es : List Value) → chained_hash v ≡ ok k → IsHead (v ∷ es) k
unfolding chained_hash IsHead
chained_hash-IsHead (obj f) k es h = ground arith
chained_hash-IsHead null k es h = cc
chained_hash-IsHead (bool b) k es h = cc
chained_hash-IsHead (int i) k es h = cc
chained_hash-IsHead (float x) k es h = cc
chained_hash-IsHead (str s) k es h = cc
chained_hash-IsHead (arr xs) k es h = cc
chained_hash-IsHead (tuple xs) k es h = cc

step-first :
    (t v : Tail) (r : Bytes) (x : Result (Option Value))
    → 1 ≤ t.count
    → (x >>= step_of_read t r) ≡ ok v
    → (1 ≤ v.count) × (v.first ≡ t.first)
unfolding step_of_read count_entry
step-first t v r (raised z) n h = cc
step-first t v r (ok none) n h = ground arith
step-first t v r (ok (some w)) n h = let (k, p, q) = bind-ok (chained_hash w) _ h in ground arith

-- Behind the first entry its hash stays.
tail_loop-first_kept :
    (rt : Runtime) (rs : List Bytes) (t u : Tail)
    → 1 ≤ t.count
    → tail_loop rt t rs ≡ ok u
    → u.first ≡ t.first
unfolding tail_loop
tail_loop-first_kept rt [] t u n h = cc
tail_loop-first_kept rt (r ∷ rs) t u n h =
    let (v, s, k) = bind-ok (tail_step rt t r) (λ v. tail_loop rt v rs) h in
    let (m, e) = step-first t v r (read_entry rt r) n (sym (tail_step-read rt t r) ∙ s) in
    tail_loop-first_kept rt rs v u m k ∙ e

first_read :
    (rt : Runtime) (r : Bytes) (rs : List Bytes) (t u v : Tail) (x : Result (Option Value))
    → t.count ≡ 0
    → (x >>= step_of_read t r) ≡ ok v
    → tail_loop rt v rs ≡ ok u
    → (v.count ≡ 0 → IsHead (entries rt rs).0 u.first)
    → IsHead (yield_then x (entries rt rs)).0 u.first
unfolding yield_then step_of_read count_entry
first_read rt r rs t u v (raised z) n s k ih = absurd (cc s)
first_read rt r rs t u v (ok none) n s k ih = ih (cc)
first_read rt r rs t u v (ok (some w)) n s k ih =
    let (h, c, q) = bind-ok (chained_hash w) _ s in
    let one : v.count ≡ 1 = ground arith in
    let f : v.first ≡ h = ground arith in
    let g : u.first ≡ h = tail_loop-first_kept rt rs v u (omega (arith, one)) k ∙ f in
    rw g (chained_hash-IsHead w h (entries rt rs).0 c)

-- From no entry on, the first hash that the loop keeps is that of the first entry.
pub tail_loop-IsHead :
    (rt : Runtime) (rs : List Bytes) (t u : Tail)
    → t.count ≡ 0
    → tail_loop rt t rs ≡ ok u
    → IsHead (entries rt rs).0 u.first
unfolding tail_loop entries IsHead
tail_loop-IsHead rt [] t u n h = tt
tail_loop-IsHead rt (r ∷ rs) t u n h =
    let (v, s, k) = bind-ok (tail_step rt t r) (λ v. tail_loop rt v rs) h in
    first_read rt r rs t u v (read_entry rt r) n (sym (tail_step-read rt t r) ∙ s) k
      (λ m. tail_loop-IsHead rt rs v u m k)
