-- ===== src/Pack/Sound.antt =====
-- Layers that fail, elements and unmet requirements of each part of `_verify` of cra_evidence/verify_pack.py.
use cra_evidence.Prelude.{
  Text, Bool, true, false, not, ◌&&◌, ◌||◌, if◌then◌else◌, List, [], ◌∷◌, ◌++◌, Option, none, some,
  any, is_empty, ◌≡◌, refl, sym, ap, ◌∙◌, arith,
}
use cra_evidence.Json.{Value}
use cra_evidence.Runtime.{Runtime}
use cra_evidence.Disk.{Disk, present, Node, regular, special, denied, below_file, absent, read_node}
use cra_evidence.Pack.{
  Element, Status, fail, is_fail, Requirement, SubjectName, Part, both, source_subject, layer_of,
  is_fail_closed, pass, skip, sources_required, source_documents,
}
use cra_evidence.Pack.Signature.{Ed25519, Loaded, document, unusable, failed, ill_formed, load}
use cra_evidence.Pack.TipCheck.{
  TipVerdict, tip_ok, tip_unchecked, tip_refused, tail_truncated, unsealed_tail,
  tip_of_another_ledger, tail_rewritten,
}
use cra_evidence.Pack.Sources.{
  is_bad, is_hash_only, source_status, source_elements, judge_document, judge_documents, judge_read,
  malformed_records, note_faulty, recorded, data_of, Recorded, wanted, faulty, unrecorded, hashed,
}
use cra_evidence.Pack.Anchor.{
  schema_part, anchor_part, state_part, source_part, tip_part, tip_verdict_part, loaded_tip_part,
  tag, has_unknown,
}
use cra_evidence.Pack.Folds.{is_culprit, is_culprit_at, any-append}

-- Whether something was recorded that spec/RECEIPT.md §4 lets the verdict fail for.
unfoldable pub is_adverse : Part → Bool
unfolding is_culprit_at
is_adverse p = any is_culprit_at p.log || not (is_empty p.unmet)

unfoldable pub is_failing : Part → Bool
is_failing p = any is_fail p.layers

-- A layer fails exactly where an element or a requirement says why.
unfoldable pub IsSound : Part → Type 0
unfolding is_adverse is_failing
IsSound p = is_failing p ≡ is_adverse p

not_empty-append {ℓ} :
    {A : Type ℓ} (xs ys : List A)
    → not (is_empty (xs ++ ys)) ≡ (not (is_empty xs) || not (is_empty ys))
not_empty-append [] ys = refl
not_empty-append (x ∷ xs) ys = refl

||_middle : (a b c d : Bool) → ((a || b) || (c || d)) ≡ ((a || c) || (b || d))
||_middle true b c d = refl
||_middle false true true d = refl
||_middle false true false d = refl
||_middle false false c d = refl

pub is_failing-both : (p q : Part) → is_failing (both p q) ≡ (is_failing p || is_failing q)
unfolding is_failing both
is_failing-both p q = any-append is_fail p.layers q.layers

pub is_adverse-both : (p q : Part) → is_adverse (both p q) ≡ (is_adverse p || is_adverse q)
unfolding is_adverse both
is_adverse-both p q = rw (
  any-append is_culprit_at p.log q.log,
  not_empty-append p.unmet q.unmet,
  ||_middle (any is_culprit_at p.log) (any is_culprit_at q.log) (not (is_empty p.unmet))
      (not (is_empty q.unmet)),
)

pub both-IsSound : (p q : Part) → IsSound p → IsSound q → IsSound (both p q)
unfolding IsSound
both-IsSound p q h k =
    is_failing-both p q
    ∙ (ap (λ b. b || is_failing q) h ∙ ap (λ b. is_adverse p || b) k)
    ∙ sym (is_adverse-both p q)

if-IsSound : (b : Bool) (p q : Part) → IsSound p → IsSound q → IsSound (if b then p else q)
if-IsSound true p q h k = h
if-IsSound false p q h k = k

pub schema_part-IsSound : (es : List Value) → IsSound (schema_part es)
unfolding IsSound schema_part is_fail is_culprit
schema_part-IsSound es = if-IsSound (any has_unknown es) _ _ refl refl

pub anchor_part-IsSound : (bound anchor : Bool) → IsSound (anchor_part bound anchor)
unfolding IsSound anchor_part is_fail is_culprit
anchor_part-IsSound true true = refl
anchor_part-IsSound true false = refl
anchor_part-IsSound false anchor = refl

pub state_part-IsSound : (good : Bool) → IsSound (state_part good)
unfolding IsSound state_part is_fail is_culprit
state_part-IsSound true = refl
state_part-IsSound false = refl

pub tip_verdict_part-IsSound : (v : TipVerdict) → IsSound (tip_verdict_part v)
unfolding IsSound tip_verdict_part is_fail is_culprit
tip_verdict_part-IsSound tip_ok = refl
tip_verdict_part-IsSound tip_unchecked = refl
tip_verdict_part-IsSound tip_refused = refl
tip_verdict_part-IsSound tail_truncated = refl
tip_verdict_part-IsSound unsealed_tail = refl
tip_verdict_part-IsSound tip_of_another_ledger = refl
tip_verdict_part-IsSound tail_rewritten = refl

loaded_tip_part-IsSound :
    (ed : Ed25519) (key : Text) (es : List Value) (l : Loaded)
    → IsSound (loaded_tip_part ed key es l)
unfolding IsSound loaded_tip_part is_fail is_culprit
loaded_tip_part-IsSound ed key es (document tip) = tip_verdict_part-IsSound _
loaded_tip_part-IsSound ed key es failed = refl
loaded_tip_part-IsSound ed key es unusable = refl
loaded_tip_part-IsSound ed key es ill_formed = refl

pub tip_part-IsSound :
    (rt : Runtime) (ed : Ed25519) (disk : Disk) (path : Text) (key : Option Text) (es : List Value)
    → IsSound (tip_part rt ed disk path key es)
unfolding IsSound tip_part is_fail is_culprit
tip_part-IsSound rt ed disk path (some key) es =
    if-IsSound (present disk path) _ _ (loaded_tip_part-IsSound ed key es (load rt disk path)) refl
tip_part-IsSound rt ed disk path none es = if-IsSound (present disk path) _ _ refl refl

-- The elements of the source documents: those with an item of `bad` are the culprits.
is_bad-judge_document :
    (rt : Runtime) (h : Text) (n : Node)
    → is_bad (judge_document rt h n) ≡ is_culprit (judge_document rt h n)
unfolding is_bad is_culprit is_fail_closed judge_document judge_read read_node
is_bad-judge_document rt h absent = refl
is_bad-judge_document rt h special = refl
is_bad-judge_document rt h denied = refl
is_bad-judge_document rt h below_file = refl
is_bad-judge_document rt h (regular b) = ground arith

any-judge_documents :
    (rt : Runtime) (disk : Disk) (ledger : Text) (hs : List Text)
    → any is_bad (judge_documents rt disk ledger hs)
      ≡ any is_culprit (judge_documents rt disk ledger hs)
unfolding judge_documents
any-judge_documents rt disk ledger [] = refl
any-judge_documents rt disk ledger (h ∷ hs) =
    rw (is_bad-judge_document rt h _, any-judge_documents rt disk ledger hs)

any-note_faulty :
    (r : Recorded) (es : List Element)
    → any is_bad es ≡ any is_culprit es
    → any is_bad (note_faulty r es) ≡ any is_culprit (note_faulty r es)
unfolding note_faulty is_bad is_culprit
any-note_faulty faulty es h = refl
any-note_faulty unrecorded es h = h
any-note_faulty (hashed t) es h = h

any-malformed_records :
    (es : List Value) → any is_bad (malformed_records es) ≡ any is_culprit (malformed_records es)
unfolding malformed_records note_faulty is_bad is_culprit
any-malformed_records [] = refl
any-malformed_records (e ∷ es) =
    any-note_faulty (recorded (data_of e)) (malformed_records es) (any-malformed_records es)

pub any-source_elements :
    (rt : Runtime) (disk : Disk) (ledger : Text) (es : List Value)
    → any is_bad (source_elements rt disk ledger es)
      ≡ any is_culprit (source_elements rt disk ledger es)
unfolding source_elements
any-source_elements rt disk ledger es = rw (
  any-append is_bad (malformed_records es) (judge_documents rt disk ledger (wanted es)),
  any-append is_culprit (malformed_records es) (judge_documents rt disk ledger (wanted es)),
  any-malformed_records es,
  any-judge_documents rt disk ledger (wanted es),
)

any-tag : (k : SubjectName) (es : List Element) → any is_culprit_at (tag k es) ≡ any is_culprit es
unfolding tag is_culprit_at
any-tag k [] = refl
any-tag k (e ∷ es) = rw (any-tag k es)

abbrev status_for : Bool → Bool → Bool → Status
status_for require bad gone =
    if bad then fail else if gone then (if require then fail else skip) else pass

abbrev unmet_for : Bool → Bool → Bool → List Requirement
unmet_for require bad gone =
    if is_fail (layer_of source_documents (status_for require bad gone)) && (require && gone)
    then sources_required ∷ []
    else []

unmet_for_lem :
    (require bad gone : Bool)
    → (is_fail (layer_of source_documents (status_for require bad gone)) || false)
      ≡ (bad || not (is_empty (unmet_for require bad gone)))
unfolding is_fail
unmet_for_lem true true gone = refl
unmet_for_lem true false true = refl
unmet_for_lem true false false = refl
unmet_for_lem false true gone = refl
unmet_for_lem false false true = refl
unmet_for_lem false false false = refl

pub source_part-IsSound :
    (require : Bool) (es : List Element)
    → any is_bad es ≡ any is_culprit es
    → IsSound (source_part require es)
unfolding IsSound source_part source_status is_fail
source_part-IsSound require [] h = refl
source_part-IsSound require (e ∷ es) h =
    unmet_for_lem require (any is_bad (e ∷ es)) (any is_hash_only (e ∷ es))
    ∙ rw (h, any-tag source_subject (e ∷ es))
