-- ===== src/Pack/Seal.antt =====
-- What a signed tip says of the ledger that it verifies with: `verify_tip` of cra_evidence/signing.py.
use cra_evidence.Prelude.{
  ℕ, Text, true, ◌==◌, Option, none, some, codes, ◌≡◌, sym, ◌∙◌, arith, ==_iff,
}
use cra_evidence.Json.{Value, str, obj, Fields, get}
use cra_evidence.Ledger.{is_str}
use cra_evidence.Ledger.Chain.{is_str→eq}
use cra_evidence.Pack.Signature.{Ed25519, text_of}
use cra_evidence.Pack.TipCheck.{
  tip_ok, entry_count, compare_tip, check_tip, check_count, verify_tip,
}

-- What a tip says, by the fields that are texts.
abbrev ledger_id_of : Fields → Value
ledger_id_of tip = str (text_of (get (codes "ledger_id") tip))

abbrev tip_hash_of : Fields → Value
tip_hash_of tip = str (text_of (get (codes "tip_sha256") tip))

compare_tip-ok :
    (tip : Fields) (n count : ℕ) (a b : Option Value)
    → compare_tip tip n count a b ≡ tip_ok
    → ((n == count) ≡ true)
      × (is_str a (text_of (get (codes "ledger_id") tip)) ≡ true)
      × (is_str b (text_of (get (codes "tip_sha256") tip)) ≡ true)
unfolding compare_tip
compare_tip-ok tip n count a b h = ground arith

check_tip-ok :
    (ed : Ed25519) (tip : Fields) (key : Text) (n count : ℕ) (a b : Option Value)
    → check_tip ed tip key n count a b ≡ tip_ok
    → (n ≡ count) × (a ≡ some (ledger_id_of tip)) × (b ≡ some (tip_hash_of tip))
unfolding check_tip
check_tip-ok none tip key n count a b h = cc
check_tip-ok (some check) tip key n count a b h =
    let (e, f, g) = compare_tip-ok tip n count a b (ground arith) in
    ((==_iff n count).0 e, is_str→eq a _ f, is_str→eq b _ g)

check_count-ok :
    (ed : Ed25519) (tip : Fields) (key : Text) (o : Option ℕ) (count : ℕ) (a b : Option Value)
    → check_count ed tip key o count a b ≡ tip_ok
    → (o ≡ some count) × (a ≡ some (ledger_id_of tip)) × (b ≡ some (tip_hash_of tip))
unfolding check_count
check_count-ok ed tip key none count a b h = cc
check_count-ok ed tip key (some n) count a b h =
    let (e, f, g) = check_tip-ok ed tip key n count a b (ground arith) in (rw e, f, g)

-- The state of the ledger that a tip is signed for.
verify_tip-ok :
    (ed : Ed25519) (tip : Fields) (key : Text) (count : ℕ) (a b : Option Value)
    → verify_tip ed (obj tip) key count a b ≡ tip_ok
    → (entry_count (get (codes "entries") tip) ≡ some count)
      × (a ≡ some (ledger_id_of tip))
      × (b ≡ some (tip_hash_of tip))
unfolding verify_tip
verify_tip-ok ed tip key count a b h =
    check_count-ok ed tip key (entry_count (get (codes "entries") tip)) count a b (ground arith)

some-injective : (n m : ℕ) → some n ≡ some m → n ≡ m
some-injective n m h = cc

-- A tip that verifies with two states of a ledger, under any keys and signature checks, verifies with one:
-- the numbers of entries, the first hashes and the last hashes are the same. So a tip that is verified with a
-- ledger is refused with any that has lost or gained entries, or ends in another hash.
pub verify_tip-seals :
    (ed fd : Ed25519) (tip : Value) (key lock : Text) (n m : ℕ) (a b c d : Option Value)
    → verify_tip ed tip key n a b ≡ tip_ok
    → verify_tip fd tip lock m c d ≡ tip_ok
    → (n ≡ m) × (a ≡ c) × (b ≡ d)
unfolding verify_tip
verify_tip-seals ed fd (obj tip) key lock n m a b c d h k =
    let (e, f, g) = verify_tip-ok ed tip key n a b h in
    let (e', f', g') = verify_tip-ok fd tip lock m c d k in
    (some-injective n m (sym e ∙ e'), f ∙ sym f', g ∙ sym g')
verify_tip-seals ed fd _ key lock n m a b c d h k = cc
