-- ===== src/Ledger/Append/Open.antt =====
-- The fourth result of `_tail_state` of cra_evidence/ledger.py: whether the file lost its last newline.
use cra_evidence.Prelude.{
  ℕ, ◌+◌, ◌-◌, ◌≡◌, refl, Bytes, Bool, false, not, List, [], ◌∷◌, ok, raised, Bool-cases, inl, inr,
  Result, Option, none, some, sym, ◌∙◌, ap, ◌==◌, ◌>>=◌, bind-ok,
}
use cra_evidence.Json.{Value}
use cra_evidence.Runtime.{Runtime}
use cra_evidence.Ledger.{newline, ends_with, reads_from, reads, push, read_entry, max_line_bytes}
use cra_evidence.Ledger.Append.{
  Tail, no_tail, tail_step, tail_loop, tail_state, chained_hash, count_entry,
}
use cra_evidence.Ledger.Append.Reads.{stops, reads_stop, reads_go, reads_nil}
use cra_evidence.Ledger.Append.Tails.{step_of_read, tail_step-read}

-- What the last read says, and `d` without a read.
last_open : Bool → List Bytes → Bool
last_open d [] = d
last_open d (r ∷ rs) = last_open (not (ends_with newline r)) rs

step-open :
    (rt : Runtime) (t v : Tail) (r : Bytes) (x : Result (Option Value))
    → (x >>= step_of_read t r) ≡ ok v
    → v.unterminated ≡ not (ends_with newline r)
unfolding step_of_read count_entry
step-open rt t v r (raised z) h = cc
step-open rt t v r (ok none) h = cc
step-open rt t v r (ok (some w)) h = let (k, p, q) = bind-ok (chained_hash w) _ h in cc

tail_loop-open :
    (rt : Runtime) (rs : List Bytes) (t u : Tail)
    → tail_loop rt t rs ≡ ok u
    → u.unterminated ≡ last_open t.unterminated rs
unfolding tail_loop last_open
tail_loop-open rt [] t u h = cc
tail_loop-open rt (r ∷ rs) t u h =
    let (v, s, k) = bind-ok (tail_step rt t r) (λ v. tail_loop rt v rs) h in
    tail_loop-open rt rs v u k
    ∙ ap (λ (b : Bool). last_open b rs)
        (step-open rt t v r (read_entry rt r) (sym (tail_step-read rt t r) ∙ s))

-- A list of reads with a first one, which is not empty.
abbrev Starts : List Bytes → Type 0
Starts rs = (b : ℕ) × (r : Bytes) × (ss : List Bytes) × (rs ≡ (b ∷ r) ∷ ss)

push-Starts : (b : ℕ) (rs : List Bytes) → Starts (push b rs)
unfolding push
push-Starts b [] = (b, [], [], refl)
push-Starts b (r ∷ rs) = (b, r, rs, refl)

reads_from-Starts : (l r b : ℕ) (bs : Bytes) → Starts (reads_from l r (b ∷ bs))
reads_from-Starts l r b bs = elim (Bool-cases (stops b r)) [
  | inl stop ↦ (b, [], reads_from l l bs, reads_stop l r b bs stop)
  | inr go ↦ rw (reads_go l r b bs go) (push-Starts b (reads_from l (r - 1) bs))
]

push-open :
    (d : Bool) (b : ℕ) (rs : List Bytes) → Starts rs → last_open d (push b rs) ≡ last_open d rs
unfolding push last_open ends_with
push-open d b rs (c, r, ss, e) = rw e refl

Starts-open : (d e : Bool) (rs : List Bytes) → Starts rs → last_open d rs ≡ last_open e rs
unfolding last_open
Starts-open d e rs (c, r, ss, k) = rw k refl

reads_from-open :
    (l r : ℕ) (d : Bool) (b : ℕ) (bs : Bytes)
    → last_open d (reads_from l r (b ∷ bs)) ≡ not (ends_with newline (b ∷ bs))
unfolding last_open ends_with push
reads_from-open l r d b [] = elim (Bool-cases (stops b r)) [
  | inl stop ↦ rw (reads_stop l r b [] stop, reads_nil l l)
  | inr go ↦ rw (reads_go l r b [] go, reads_nil l (r - 1))
]
reads_from-open l r d b (c ∷ bs) = elim (Bool-cases (stops b r)) [
  | inl stop ↦ rw (reads_stop l r b (c ∷ bs) stop) (reads_from-open l l (not (b == newline)) c bs)
  | inr go ↦ rw (reads_go l r b (c ∷ bs) go) (
      push-open d b (reads_from l (r - 1) (c ∷ bs)) (reads_from-Starts l (r - 1) c bs)
      ∙ reads_from-open l (r - 1) d c bs)
]

-- The tail of a file that is not empty is unterminated exactly when the file does not end in a newline.
pub tail_state-open :
    (rt : Runtime) (b : ℕ) (bs : Bytes) (u : Tail)
    → tail_state rt (b ∷ bs) ≡ ok u
    → u.unterminated ≡ not (ends_with newline (b ∷ bs))
unfolding tail_state reads
tail_state-open rt b bs u h =
    tail_loop-open rt (reads (b ∷ bs)) no_tail u h
    ∙ reads_from-open (max_line_bytes + 2) (max_line_bytes + 2) false b bs
