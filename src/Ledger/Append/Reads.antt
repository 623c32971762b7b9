-- ===== src/Ledger/Append/Reads.antt =====
-- How the file splits into reads, and the reads into entries, when more is written behind it.
use cra_evidence.Prelude.{
  ℕ, ◌+◌, ◌-◌, ◌≤◌, ◌≡◌, ◌≢◌, refl, Bytes, Bool, true, false, ◌||◌, leb, ◌==◌, if◌then◌else◌, List,
  [], ◌∷◌, ◌++◌, none, some, ok, raised, arith, Bool-cases, inl, inr, Result, Option, sym, ◌∙◌, ap,
  All, length,
}
use cra_evidence.Json.{Value}
use cra_evidence.Runtime.{Runtime}
use cra_evidence.Ledger.{
  newline, ends_with, strip_end, reads_from, push, read_entry, yield_then, entries, Stream,
}

push-append : (b : ℕ) (xs ys : List Bytes) → xs ≢ [] → push b (xs ++ ys) ≡ push b xs ++ ys
unfolding push
push-append b [] ys n = absurd (n refl)
push-append b (x ∷ xs) ys n = refl

push-ne : (b : ℕ) (xs : List Bytes) → push b xs ≢ []
unfolding push
push-ne b [] h = cc
push-ne b (x ∷ xs) h = cc

-- Whether the read stops behind the byte `b`.
abbrev pub stops : ℕ → ℕ → Bool
stops b r = (b == newline) || leb r 1

pub reads_stop :
    (l r b : ℕ) (bs : Bytes)
    → stops b r ≡ true
    → reads_from l r (b ∷ bs) ≡ (b ∷ []) ∷ reads_from l l bs
unfolding reads_from
reads_stop l r b bs h = rw h

pub reads_go :
    (l r b : ℕ) (bs : Bytes)
    → stops b r ≡ false
    → reads_from l r (b ∷ bs) ≡ push b (reads_from l (r - 1) bs)
unfolding reads_from
reads_go l r b bs h = rw h

pub reads_nil : (l r : ℕ) → reads_from l r [] ≡ []
unfolding reads_from
reads_nil l r = refl

reads_from-ne : (l r b : ℕ) (bs : Bytes) → reads_from l r (b ∷ bs) ≢ []
reads_from-ne l r b bs h = elim (Bool-cases (stops b r)) [
  | inl stop ↦ cc (reads_stop l r b bs stop)
  | inr go ↦ push-ne b _ (sym (reads_go l r b bs go) ∙ h)
]

stops-newline : (b r : ℕ) → (b == newline) ≡ true → stops b r ≡ true
stops-newline b r h = ground arith

-- Behind a newline the reads start afresh.
pub reads_from-append :
    (l r : ℕ) (file more : Bytes)
    → ends_with newline file ≡ true
    → reads_from l r (file ++ more) ≡ reads_from l r file ++ reads_from l l more
unfolding ends_with
reads_from-append l r [] more h = cc
reads_from-append l r (b ∷ []) more h =
    let s = stops-newline b r h in
    rw (reads_stop l r b more s, reads_stop l r b [] s, reads_nil l l)
reads_from-append l r (b ∷ d ∷ bs) more h = elim (Bool-cases (stops b r)) [
  | inl stop ↦
      rw (reads_stop l r b (d ∷ bs ++ more) stop, reads_stop l r b (d ∷ bs) stop)
        (ap (λ (rs : List Bytes). (b ∷ []) ∷ rs) (reads_from-append l l (d ∷ bs) more h))
  | inr go ↦
      rw (reads_go l r b (d ∷ bs ++ more) go, reads_go l r b (d ∷ bs) go)
        (ap (push b) (reads_from-append l (r - 1) (d ∷ bs) more h)
          ∙ push-append b (reads_from l (r - 1) (d ∷ bs)) (reads_from l l more)
              (reads_from-ne l (r - 1) d bs))
]

stops_inner : (b r : ℕ) → b ≢ newline → 2 ≤ r → stops b r ≡ false
stops_inner b r n h = ground arith

-- A line within the limit is one read.
pub reads_from-line :
    (l r : ℕ) (t : Bytes)
    → All (λ b. b ≢ newline) t
    → length t + 1 ≤ r
    → reads_from l r (t ++ newline ∷ []) ≡ (t ++ newline ∷ []) ∷ []
reads_from-line l r [] a h =
    reads_stop l r newline [] (stops-newline newline r refl)
    ∙ ap (λ (rs : List Bytes). (newline ∷ []) ∷ rs) (reads_nil l l)
reads_from-line l r (b ∷ t) a h =
    reads_go l r b (t ++ newline ∷ []) (stops_inner b r a.0 (omega arith))
    ∙ ap (push b) (reads_from-line l (r - 1) t a.1 (omega arith))
    ∙ push-one (t ++ newline ∷ [])
  where
    push-one : (x : Bytes) → push b (x ∷ []) ≡ (b ∷ x) ∷ []
    push-one x = unfold push in refl

pub ends_with-newline : (t : Bytes) → ends_with newline (t ++ newline ∷ []) ≡ true
unfolding ends_with
ends_with-newline [] = refl
ends_with-newline (b ∷ []) = refl
ends_with-newline (b ∷ d ∷ t) = ends_with-newline (d ∷ t)

pub strip_end-last :
    (c x : ℕ) (t : Bytes) → strip_end c (t ++ x ∷ []) ≡ (if x == c then t else t ++ x ∷ [])
unfolding strip_end
strip_end-last c x [] = refl
strip_end-last c x (b ∷ []) = ground arith
strip_end-last c x (b ∷ d ∷ t) = ground (arith, strip_end-last c x (d ∷ t))

yield-append :
    (x : Result (Option Value)) (s u v : Stream)
    → (yield_then x s).1 ≡ none
    → (s.1 ≡ none → u ≡ (s.0 ++ v.0, v.1))
    → yield_then x u ≡ ((yield_then x s).0 ++ v.0, v.1)
unfolding yield_then
yield-append (ok none) s u v h k = k h
yield-append (ok (some w)) s u v h k = ap (λ (t : Stream). yield_then (ok (some w)) t) (k h)
yield-append (raised e) s u v h k = cc

-- Reads that raise nothing, and more behind them.
pub entries-append :
    (rt : Runtime) (rs ss : List Bytes)
    → (entries rt rs).1 ≡ none
    → entries rt (rs ++ ss) ≡ ((entries rt rs).0 ++ (entries rt ss).0, (entries rt ss).1)
unfolding entries
entries-append rt [] ss h = refl
entries-append rt (r ∷ rs) ss h =
    yield-append (read_entry rt r) (entries rt rs) (entries rt (rs ++ ss)) (entries rt ss) h
      (entries-append rt rs ss)
