-- ===== src/Pack/Stored.antt =====
-- What the layer source-documents of cra_evidence/verify_pack.py says when it passes.
use cra_evidence.Prelude.{
  ℕ, ◌≤◌, Text, Bytes, Bool, true, false, if◌then◌else◌, some, codes, subst, Bool-cases, inl, inr,
  text_eq, text_eq_refl, ◌||◌, List, [], ◌∷◌, ◌++◌, any, length, All, ◌≡◌, refl, sym, ◌∙◌, arith,
  text_eq→eq,
}
use cra_evidence.Json.{Value, str, obj, Fields, get}
use cra_evidence.Canonical.Encode.{text_lt}
use cra_evidence.Ledger.{is_str}
use cra_evidence.Pack.Hex.{is_hex}
use cra_evidence.Runtime.{Runtime}
use cra_evidence.Disk.{Node, regular, special, denied, below_file, absent, Disk, read_node}
use cra_evidence.Pack.{Element, pass}
use cra_evidence.Pack.Sources.{
  data_of, Recorded, unrecorded, faulty, hashed, recorded, source_hash, insert_once, note_hash,
  note_faulty, is_bad, is_hash_only, source_status, source_elements, source_file, judge_document,
  judge_documents, judge_read, malformed_records, wanted, max_source_bytes,
}
use cra_evidence.Pack.Folds.{any-append}

-- A regular file of bounded length whose bytes have the digest `h`.
unfoldable pub IsStored : Runtime → Text → Node → Type 0
IsStored rt h n = (b : Bytes) × (n ≡ regular b) × (length b ≤ max_source_bytes) × (rt.sha256 b ≡ h)

||_false-left : (a b : Bool) → (a || b) ≡ false → a ≡ false
||_false-left a b h = ground arith

||_false-right : (a b : Bool) → (a || b) ≡ false → b ≡ false
||_false-right a b h = ground arith

judge_document-IsStored :
    (rt : Runtime) (h : Text) (n : Node)
    → is_bad (judge_document rt h n) ≡ false
    → is_hash_only (judge_document rt h n) ≡ false
    → IsStored rt h n
unfolding judge_document judge_read read_node is_bad is_hash_only IsStored
judge_document-IsStored rt h absent p q = cc
judge_document-IsStored rt h special p q = cc
judge_document-IsStored rt h denied p q = cc
judge_document-IsStored rt h below_file p q = cc
judge_document-IsStored rt h (regular b) p q =
    (b, refl, ground arith, text_eq→eq (rt.sha256 b) h (ground arith))

judge_documents-IsStored :
    (rt : Runtime) (disk : Disk) (ledger : Text) (hs : List Text)
    → any is_bad (judge_documents rt disk ledger hs) ≡ false
    → any is_hash_only (judge_documents rt disk ledger hs) ≡ false
    → All (λ h. IsStored rt h (disk.at (source_file ledger h))) hs
unfolding judge_documents
judge_documents-IsStored rt disk ledger [] p q = _
judge_documents-IsStored rt disk ledger (h ∷ hs) p q = (
  judge_document-IsStored rt h (disk.at (source_file ledger h)) (||_false-left _ _ p)
      (||_false-left _ _ q),
  judge_documents-IsStored rt disk ledger hs (||_false-right _ _ p) (||_false-right _ _ q),
)

source_status-pass :
    (require : Bool) (es : List Element)
    → source_status require es ≡ pass
    → (any is_bad es ≡ false) × (any is_hash_only es ≡ false)
unfolding source_status
source_status-pass require es h = ground arith

-- A hash that is inserted is in the list, and so are those that were there.
All-insert_once {κ} :
    (P : Text → Type κ) (h : Text) (hs : List Text) → All P (insert_once h hs) → P h × All P hs
unfolding insert_once
All-insert_once P h [] a = a
All-insert_once P h (k ∷ ks) a = elim (Bool-cases (text_eq h k)) [
  | inl e ↦ let b = (rw (insert_once, e) at a) in (subst P (sym (text_eq→eq h k e)) b.0, b)
  | inr e ↦ elim (Bool-cases (text_lt h k)) [
    | inl l ↦ rw (insert_once, e, l) at a
    | inr l ↦
        let b = (rw (insert_once, e, l) at a) in
        let c = All-insert_once P h ks b.1 in (c.0, (b.0, c.1))
  ]
]

All-note_hash {κ} :
    (P : Text → Type κ) (r : Recorded) (hs : List Text) → All P (note_hash r hs) → All P hs
unfolding note_hash
All-note_hash P unrecorded hs a = a
All-note_hash P faulty hs a = a
All-note_hash P (hashed h) hs a = (All-insert_once P h hs a).1

All-wanted {κ} :
    (P : Text → Type κ) (before after : List Value) (e : Value) (h : Text)
    → recorded (data_of e) ≡ hashed h
    → All P (wanted (before ++ e ∷ after))
    → P h
unfolding wanted note_hash
All-wanted P [] after e h r a = (All-insert_once P h (wanted after) (rw r at a)).0
All-wanted P (v ∷ before) after e h r a =
    All-wanted P before after e h r
      (All-note_hash P (recorded (data_of v)) (wanted (before ++ e ∷ after)) a)

any-note_faulty :
    (r : Recorded) (es : List Element) → any is_bad es ≡ true → any is_bad (note_faulty r es) ≡ true
unfolding note_faulty is_bad
any-note_faulty unrecorded es h = h
any-note_faulty faulty es h = refl
any-note_faulty (hashed k) es h = h

malformed_records-faulty :
    (before after : List Value) (e : Value)
    → recorded (data_of e) ≡ faulty
    → any is_bad (malformed_records (before ++ e ∷ after)) ≡ true
unfolding malformed_records note_faulty is_bad
malformed_records-faulty [] after e r = rw r refl
malformed_records-faulty (v ∷ before) after e r =
    any-note_faulty (recorded (data_of v)) (malformed_records (before ++ e ∷ after))
      (malformed_records-faulty before after e r)

-- An entry that records a source document with a SHA-256: its record is of an SBOM, whose source has that hash.
pub record Records (e : Value) (src : Fields) (c : ℕ) (h : Text) : Type 0 where
  pub kind : get (codes "kind") (data_of e) ≡ some (str (codes "cra_sbom"))
  pub source : get (codes "source") (data_of e) ≡ some (obj src)
  pub sha256 : get (codes "sha256") src ≡ some (str (c ∷ h))

recorded-Records :
    (e : Value) (src : Fields) (c : ℕ) (h : Text)
    → Records e src c h
    → recorded (data_of e) ≡ (if is_hex 64 (c ∷ h) then hashed (c ∷ h) else faulty)
unfolding recorded source_hash is_str
recorded-Records e src c h r =
    rw (recorded, r.kind, r.source, source_hash, r.sha256, text_eq_refl (codes "cra_sbom")) refl

-- If the layer source-documents passes, the SHA-256 that an entry records for a source document is that of the bytes of a
-- regular file, no longer than the bound, at the path that the ledger stores the document under.
pub source_elements-IsStored :
    (rt : Runtime) (disk : Disk) (ledger : Text) (require : Bool) (before after : List Value)
    (e : Value) (src : Fields) (c : ℕ) (h : Text)
    → source_status require (source_elements rt disk ledger (before ++ e ∷ after)) ≡ pass
    → Records e src c h
    → IsStored rt (c ∷ h) (disk.at (source_file ledger (c ∷ h)))
unfolding source_elements
source_elements-IsStored rt disk ledger require before after e src c h k r =
    let es = before ++ e ∷ after in
    let bad = malformed_records es in
    let judged = judge_documents rt disk ledger (wanted es) in
    let (p, q) = source_status-pass require (bad ++ judged) k in
    let p' = sym (any-append is_bad bad judged) ∙ p in
    let q' = sym (any-append is_hash_only bad judged) ∙ q in
    let is = recorded-Records e src c h r in
    elim (Bool-cases (is_hex 64 (c ∷ h))) [
      | inr x ↦
          let f = malformed_records-faulty before after e (rw x at is) in
          let n = ||_false-left (any is_bad bad) (any is_bad judged) p' in absurd (cc (f, n))
      | inl x ↦
          All-wanted (λ h. IsStored rt h (disk.at (source_file ledger h))) before after e (c ∷ h)
            (rw x at is)
            (judge_documents-IsStored rt disk ledger (wanted es)
              (||_false-right (any is_bad bad) (any is_bad judged) p')
              (||_false-right (any is_hash_only bad) (any is_hash_only judged) q'))
    ]
