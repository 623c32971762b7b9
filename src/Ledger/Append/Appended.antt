-- ===== src/Ledger/Append/Appended.antt =====
-- What `append` of cra_evidence/ledger.py leaves when it returns its entry: the entry, the file and the tip.
use cra_evidence.Prelude.{
  ◌+◌, ◌≡◌, refl, inl, inr, Text, Bytes, Bool, true, false, ltb, List, [], ◌∷◌, ◌++◌, Option, some,
  ok, length, codes, ◌∙◌, ap, arith, Bool-cases,
}
use cra_evidence.Json.{Value, obj, Fields, get, str, int, pos}
use cra_evidence.Runtime.{Runtime}
use cra_evidence.Canonical.Encode.{canonical_bytes}
use cra_evidence.Ledger.{newline, reads, entries, entry_hash, genesis}
use cra_evidence.Ledger.Chain.{Chain}
use cra_evidence.Ledger.Append.{
  Tip, State, Host, Config, Prepared, no_tail, tail_state, new_tip, append,
}
use cra_evidence.Ledger.Append.Atomic.{append-Recorded}
use cra_evidence.Ledger.Append.First.{IsHead, tail_loop-IsHead}
use cra_evidence.Ledger.Append.Steps.{
  prepare-Steps, entry_fields, entry_hash-with_hash, closed, append-payload,
}
use cra_evidence.Ledger.Append.Tails.{tail_loop-Found}

-- The identity of a ledger: the hash of its first entry, or of the new one, which is then the first.
abbrev pub IsIdentity : List Value → Text → Text → Type 0
IsIdentity [] h id = id ≡ h
IsIdentity (e ∷ es) h id = IsHead (e ∷ es) id

-- The tip behind an append: with a key it counts the entries and names the first and the last, without one it is as it was.
abbrev pub IsTip : Bool → List Value → Text → Option Tip → Option Tip → Type 0
IsTip false es h old new = new ≡ old
IsTip true es h old new =
    (id : Text) × IsIdentity es h id
    × (new ≡ some (record { count = length es + 1; ledger_id = id; tip_sha256 = h }))

-- The new entry `e` with the hash `h` behind the entries `es`, the last of which has the hash `q`.
pub record IsEntry (rt : Runtime) (es : List Value) (q h ts : Text) (d : Value) (e : Fields)
    : Type 0 where
  pub idx : get (codes "idx") e ≡ some (int (pos (length es)))
  pub stamp : get (codes "ts") e ≡ some (str ts)
  pub prev_hash : get (codes "prev_hash") e ≡ some (str q)
  pub content : get (codes "data") e ≡ some d
  pub self_hash : get (codes "self_hash") e ≡ some (str h)
  pub hash : entry_hash rt e ≡ ok h

-- What was appended to `s`, whose entries were `es`: the entry, its canonical text and a newline behind the closed file,
-- and the tip.
pub record IsAppended (rt : Runtime) (c : Config) (es : List Value) (q ts : Text) (d : Value)
    (s t : State) (e : Fields) : Type 0 where
  pub self_hash : Text
  pub text : Text
  pub entry : IsEntry rt es q self_hash ts d e
  pub encoded : canonical_bytes (obj e) ≡ ok text
  pub file : t.file ≡ closed s.file ++ (text ++ newline ∷ [])
  pub tip : IsTip c.has_tip_key es self_hash s.tip t.tip

new_tip-IsTip :
    (p : Prepared) (es : List Value)
    → p.tail.count ≡ length es
    → IsHead es p.tail.first
    → (id : Text) × IsIdentity es p.self_hash id
      × (some (new_tip p)
          ≡ some (record { count = length es + 1; ledger_id = id; tip_sha256 = p.self_hash }))
unfolding new_tip IsHead
new_tip-IsTip p [] n h = (p.self_hash, refl, rw (new_tip, n) refl)
new_tip-IsTip p (e ∷ es) n h =
    let l : ltb 0 (length (e ∷ es)) ≡ true = ground arith in
    (p.tail.first, h, rw (new_tip, n, l) refl)

-- An append to a ledger whose entries are a chain that returns its entry: the entry continues the chain with the given
-- data and time and its own hash; the file is the one before, closed with a newline where that was missing, with
-- the entry's canonical text and a newline behind it; with a tip key the tip counts the entries and names the
-- first hash and the new one, and without one it is as it was.
pub append-IsAppended :
    (rt : Runtime) (c : Config) (host : Host) (s : State) (d : Value) (ts : Text) (e : Fields)
    (q : Text)
    → Chain rt 0 genesis (entries rt (reads s.file)).0 q
    → (append rt c host s d ts).0 ≡ ok e
    → IsAppended rt c (entries rt (reads s.file)).0 q ts d s (append rt c host s d ts).1 e
unfolding tail_state
append-IsAppended rt c host s d ts e q chain h =
    let (p, k, r) = append-Recorded rt c host s d ts e h in
    let steps = prepare-Steps rt c host s.file d ts p k in
    let es = (entries rt (reads s.file)).0 in
    let found = tail_loop-Found rt (reads s.file) no_tail p.tail q steps.tail chain in
    let n : p.tail.count ≡ length es = found.2 ∙ omega arith in
    let head = tail_loop-IsHead rt (reads s.file) no_tail p.tail refl steps.tail in
    let g = entry_fields p.tail ts p.self_hash d in
    let is = r.entry ∙ steps.entry in
    record {
      self_hash = p.self_hash;
      text = steps.text;
      entry = record {
        idx = rw (is, g.0, n) refl;
        stamp = rw (is, g.3) refl;
        prev_hash = rw (is, g.1, found.1) refl;
        content = rw (is, g.4) refl;
        self_hash = rw (is, g.2) refl;
        hash = ap (entry_hash rt) is ∙ entry_hash-with_hash rt p.tail ts p.self_hash d ∙ steps.hash;
      };
      encoded = ap (λ x. canonical_bytes (obj x)) r.entry ∙ steps.encoded;
      file =
          r.file
          ∙ append-payload rt s.file p steps.tail
          ∙ ap (λ (x : Bytes). closed s.file ++ x) steps.line;
      tip = elim (Bool-cases c.has_tip_key) [
        | inl b ↦ let (id, i, t) = new_tip-IsTip p es n head in rw b (id, i, rw b at r.tip ∙ t)
        | inr b ↦ rw b (rw b at r.tip)
      ];
    }
