-- ===== src/Pack/Readings.antt =====
-- The parts that the reading of the ledger records, in `_verify` of cra_evidence/verify_pack.py.
use cra_evidence.Prelude.{
  Text, Bool, true, false, not, ◌&&◌, if◌then◌else◌, List, is_empty, ◌≡◌, refl, sym, ◌∙◌, arith, ok,
  Bool-cases, inl, inr, Bytes, bind-ok,
}
use cra_evidence.Json.{Value, Fields}
use cra_evidence.Runtime.{Runtime}
use cra_evidence.Disk.{Node, regular, special, denied, below_file, absent, Disk, present}
use cra_evidence.Pack.{
  chain_broken, finding, ledger_chain, ledger_anchor, Element, contradicted, fail, is_fail,
  is_fail_closed, both,
}
use cra_evidence.Pack.Signature.{Ed25519}
use cra_evidence.Pack.Anchor.{
  Snapshot, unread, broken, chained, all_bound, read_ledger, parse_ledger,
}
use cra_evidence.Pack.Stages.{
  required, reading_at, ledger_file_of, ledger_location, is_bad_name, Request, Reading,
  chained_reading, snapshot_reading, missing_reading, ledger_reading, unchecked,
}
use cra_evidence.Pack.Folds.{is_culprit_at, is_culprit}
use cra_evidence.Pack.Sound.{
  IsSound, is_adverse, is_failing, both-IsSound, schema_part-IsSound, anchor_part-IsSound,
  state_part-IsSound, tip_part-IsSound, source_part-IsSound, any-source_elements,
}

chained_reading-IsSound :
    (rt : Runtime) (ed : Ed25519) (disk : Disk) (q : Request) (pack : Fields) (lp : Text)
    (es : List Value) (b : Bool)
    → IsSound (chained_reading rt ed disk q pack lp es b).part
unfolding chained_reading
chained_reading-IsSound rt ed disk q pack lp es b = both-IsSound _ _ (schema_part-IsSound es) (
    both-IsSound _ _ (anchor_part-IsSound b _) (
      both-IsSound _ _ (state_part-IsSound _) (
        both-IsSound _ _
          (source_part-IsSound q.require_sources _ (any-source_elements rt disk lp es))
          (tip_part-IsSound rt ed disk _ q.log_pubkey es))))

missing_reading-IsSound : (needed : Bool) → IsSound (missing_reading needed).part
unfolding missing_reading IsSound both is_fail is_culprit is_fail_closed
missing_reading-IsSound true = refl
missing_reading-IsSound false = refl

-- What could not be read is a culprit.
is_read : Snapshot → Bool
is_read (unread e) = is_culprit e
is_read _ = true

is_read-parse_ledger : (rt : Runtime) (b : Bytes) → is_read (parse_ledger rt b) ≡ true
unfolding is_read parse_ledger is_culprit
is_read-parse_ledger rt b = ground arith

is_read-read_ledger : (rt : Runtime) (n : Node) → is_read (read_ledger rt n) ≡ true
unfolding is_read read_ledger is_culprit is_fail_closed
is_read-read_ledger rt (regular b) = is_read-parse_ledger rt b
is_read-read_ledger rt special = refl
is_read-read_ledger rt denied = refl
is_read-read_ledger rt below_file = refl
is_read-read_ledger rt absent = refl

ok-injective : (r s : Reading) → ok r ≡ ok s → r ≡ s
ok-injective r s h = cc

-- The part of the signed tip and the sources behind a chain that is not verified.
unchecked-IsSound : IsSound unchecked
unfolding IsSound is_fail is_culprit is_fail_closed
unchecked-IsSound = refl

failed_chain-IsSound :
    (e : Element) → is_culprit e ≡ true → IsSound (finding ledger_chain fail ledger_anchor e)
unfolding IsSound is_fail is_culprit_at is_adverse is_failing
failed_chain-IsSound e h = rw h

snapshot_reading-IsSound :
    (rt : Runtime) (ed : Ed25519) (disk : Disk) (q : Request) (pack : Fields) (lp : Text)
    (n : Snapshot) (r : Reading)
    → is_read n ≡ true
    → snapshot_reading rt ed disk q pack lp n ≡ ok r
    → IsSound r.part
unfolding snapshot_reading is_read is_culprit
snapshot_reading-IsSound rt ed disk q pack lp (unread e) r h k =
    rw (sym (ok-injective _ r k)) (both-IsSound _ _ (failed_chain-IsSound e h) unchecked-IsSound)
snapshot_reading-IsSound rt ed disk q pack lp (broken es) r h k = rw (sym (ok-injective _ r k)) (
    both-IsSound _ _ (schema_part-IsSound es)
      (both-IsSound _ _ (failed_chain-IsSound (contradicted chain_broken) refl) unchecked-IsSound))
snapshot_reading-IsSound rt ed disk q pack lp (chained es) r h k =
    let (bound, e, f) =
      bind-ok (all_bound rt es) (λ b. ok (chained_reading rt ed disk q pack lp es b)) k in
    rw (sym (ok-injective _ r f)) (chained_reading-IsSound rt ed disk q pack lp es bound)

pub if-true {ℓ} : {A : Type ℓ} (b : Bool) (x y : A) → b ≡ true → (if b then x else y) ≡ x
if-true b x y h = rw h

pub if-false {ℓ} : {A : Type ℓ} (b : Bool) (x y : A) → b ≡ false → (if b then x else y) ≡ y
if-false b x y h = rw h

reading_at-IsSound :
    (rt : Runtime) (ed : Ed25519) (disk : Disk) (q : Request) (pack : Fields) (lp : Text)
    (r : Reading)
    → reading_at rt ed disk q pack lp ≡ ok r
    → IsSound r.part
unfolding reading_at
reading_at-IsSound rt ed disk q pack lp r k =
    elim (Bool-cases (not (is_empty lp) && present disk lp)) [
      | inl h ↦
          snapshot_reading-IsSound rt ed disk q pack lp (read_ledger rt (disk.at lp)) r
            (is_read-read_ledger rt (disk.at lp)) (sym (if-true _ _ _ h) ∙ k)
      | inr h ↦
          rw (sym (ok-injective _ r (sym (if-false _ _ _ h) ∙ k)))
            (missing_reading-IsSound (required q))
    ]

pub ledger_reading-IsSound :
    (rt : Runtime) (ed : Ed25519) (disk : Disk) (path : Text) (q : Request) (pack : Fields)
    (r : Reading)
    → is_bad_name (ledger_file_of pack) ≡ false
    → ledger_reading rt ed disk path q pack ≡ ok r
    → IsSound r.part
unfolding ledger_reading
ledger_reading-IsSound rt ed disk path q pack r h k =
    reading_at-IsSound rt ed disk q pack
      (ledger_location disk path q.ledger_path (ledger_file_of pack)) r (sym (if-false _ _ _ h) ∙ k)

pub ledger_reading-bad :
    (rt : Runtime) (ed : Ed25519) (disk : Disk) (path : Text) (q : Request) (pack : Fields)
    (r : Reading)
    → is_bad_name (ledger_file_of pack) ≡ true
    → ledger_reading rt ed disk path q pack ≡ ok r
    → is_failing r.part ≡ true
unfolding ledger_reading is_failing is_fail both
ledger_reading-bad rt ed disk path q pack r h k =
    rw (sym (ok-injective _ r (sym (if-true _ _ _ h) ∙ k)))
