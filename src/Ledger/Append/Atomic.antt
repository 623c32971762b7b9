-- ===== src/Ledger/Append/Atomic.antt =====
-- A record is in the file whole, or the file is as it was.
use cra_evidence.Prelude.{
  ℕ, ◌≡◌, ◌≢◌, refl, Text, Bytes, true, List, [], ◌∷◌, ◌++◌, some, take, drop, take-append-drop,
  is_empty→eq, Error, tip_not_written, os_error, false, ◌&&◌, ◌⊎◌, Bool-cases, take-length_append,
  ok, raised, arith, inl, inr, Result-cases, sym, ◌∙◌, ap, if◌then◌else◌,
}
use cra_evidence.Json.{Value, Fields}
use cra_evidence.Canonical.Encode.{canonical_bytes}
use cra_evidence.Runtime.{Runtime}
use cra_evidence.Ledger.Append.{
  State, Host, Config, Prepared, write_all, payload, new_tip, commit, open_ledger, prepare, append,
}

-- When the loop of writes gets to its end, what it wrote is the data.
write_all-whole : (ws : List ℕ) (d : Bytes) → (write_all ws d).1 ≡ true → (write_all ws d).0 ≡ d
unfolding write_all
write_all-whole [] d h = sym (is_empty→eq d h)
write_all-whole (w ∷ ws) [] h = refl
write_all-whole (w ∷ ws) (b ∷ d) h =
    ap (λ (t : Bytes). take w (b ∷ d) ++ t) (write_all-whole ws (drop w (b ∷ d)) h)
    ∙ take-append-drop w (b ∷ d)

module _ (rt : Runtime) (c : Config) (host : Host) (s : State) (d : Value) (ts : Text) where
  append-refused :
      (e : Error) → canonical_bytes d ≡ raised e → append rt c host s d ts ≡ (raised e, s)
  unfolding append
  append-refused e h = rw (append, h) refl

  append-shut :
      (b : Text)
      → canonical_bytes d ≡ ok b
      → host.opens ≡ false
      → append rt c host s d ts ≡ (raised os_error, s)
  unfolding append
  append-shut b h o = rw (append, h, o) refl

  append-err :
      (b : Text) (e : Error)
      → canonical_bytes d ≡ ok b
      → host.opens ≡ true
      → prepare rt c host s.file d ts ≡ raised e
      → append rt c host s d ts ≡ (raised e, open_ledger s)
  unfolding append prepare
  append-err b e h o k = rw (append, h, o, k) refl

  append-ok :
      (b : Text) (p : Prepared)
      → canonical_bytes d ≡ ok b
      → host.opens ≡ true
      → prepare rt c host s.file d ts ≡ ok p
      → append rt c host s d ts ≡ commit c host (open_ledger s) p
  unfolding append prepare write_all
  append-ok b p h o k = rw (append, h, o, k) refl

-- The file and the tip are as they were; a ledger that was absent may be there, empty.
pub record IsKept (s t : State) : Type 0 where
  pub file : t.file ≡ s.file
  pub tip : t.tip ≡ s.tip
  pub present : (t.present ≡ s.present) ⊎ (t.present ≡ true)

same-IsKept : (s : State) → IsKept s s
same-IsKept s = record { file = refl; tip = refl; present = inl refl }

open-IsKept : (s : State) → IsKept s (open_ledger s)
unfolding open_ledger
open-IsKept s = record { file = refl; tip = refl; present = inr refl }

commit-IsKept :
    (c : Config) (host : Host) (s : State) (p : Prepared) (e : Error)
    → host.truncates ≡ true
    → e ≢ tip_not_written
    → (commit c host (open_ledger s) p).0 ≡ raised e
    → IsKept s (commit c host (open_ledger s) p).1
unfolding commit open_ledger
commit-IsKept c host s p e t n h =
    let (w, whole) = write_all host.writes (payload p) in
    elim (Bool-cases (whole && host.synced)) [
      | inr b ↦
          rw (commit, b, t)
            (record { file = take-length_append s.file w; tip = refl; present = inr refl })
      | inl b ↦ elim (Bool-cases c.has_tip_key) [
        | inr k ↦ absurd (cc (rw (commit, b, k) at h))
        | inl k ↦ elim (Bool-cases host.tip_replaced) [
          | inl r ↦ absurd (cc (rw (commit, b, k, r) at h))
          | inr r ↦ let z = (rw (commit, b, k, r) at h) in absurd (n (cc z))
        ]
      ]
    ]

-- An append that raises leaves the ledger's file and its tip as they were, if the host can truncate the file after a
-- failed write; the one exception is TipNotWritten. A ledger that was absent may be left there, empty.
pub append-atomic :
    (rt : Runtime) (c : Config) (host : Host) (s : State) (d : Value) (ts : Text) (e : Error)
    → host.truncates ≡ true
    → e ≢ tip_not_written
    → (append rt c host s d ts).0 ≡ raised e
    → IsKept s (append rt c host s d ts).1
append-atomic rt c host s d ts e t n h = elim (Result-cases (canonical_bytes d)) [
  | inr (z, k) ↦ rw (append-refused rt c host s d ts z k) (same-IsKept s)
  | inl (b, k) ↦ elim (Bool-cases host.opens) [
    | inr o ↦ rw (append-shut rt c host s d ts b k o) (same-IsKept s)
    | inl o ↦ elim (Result-cases (prepare rt c host s.file d ts)) [
      | inr (z, q) ↦ rw (append-err rt c host s d ts b z k o q) (open-IsKept s)
      | inl (p, q) ↦
          let a = append-ok rt c host s d ts b p k o q in
          rw a (commit-IsKept c host s p e t n (rw a at h))
    ]
  ]
]

-- What a completed append leaves: the entry of `p`, its line behind the file, and its tip.
pub record Recorded (c : Config) (s t : State) (e : Fields) (p : Prepared) : Type 0 where
  pub entry : e ≡ p.entry
  pub file : t.file ≡ s.file ++ payload p
  pub tip : t.tip ≡ (if c.has_tip_key then some (new_tip p) else s.tip)

commit-Recorded :
    (c : Config) (host : Host) (s : State) (p : Prepared) (e : Fields)
    → (commit c host (open_ledger s) p).0 ≡ ok e
    → Recorded c s (commit c host (open_ledger s) p).1 e p
unfolding commit open_ledger
commit-Recorded c host s p e h = ground (arith, write_all-whole host.writes (payload p))

-- An append that returns its entry has committed what was prepared.
pub append-Recorded :
    (rt : Runtime) (c : Config) (host : Host) (s : State) (d : Value) (ts : Text) (e : Fields)
    → (append rt c host s d ts).0 ≡ ok e
    → (p : Prepared) × (prepare rt c host s.file d ts ≡ ok p)
      × Recorded c s (append rt c host s d ts).1 e p
append-Recorded rt c host s d ts e h = elim (Result-cases (canonical_bytes d)) [
  | inr (z, k) ↦ absurd (cc (append-refused rt c host s d ts z k))
  | inl (b, k) ↦ elim (Bool-cases host.opens) [
    | inr o ↦ absurd (cc (append-shut rt c host s d ts b k o))
    | inl o ↦ elim (Result-cases (prepare rt c host s.file d ts)) [
      | inr (z, q) ↦ absurd (cc (append-err rt c host s d ts b z k o q))
      | inl (p, q) ↦
          let a = append-ok rt c host s d ts b p k o q in
          (p, q, rw a (commit-Recorded c host s p e (rw a at h)))
    ]
  ]
]
