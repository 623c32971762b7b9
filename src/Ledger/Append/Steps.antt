-- ===== src/Ledger/Append/Steps.antt =====
-- What `append` of cra_evidence/ledger.py prepared when it did not raise: the steps before the write, and the entry.
use cra_evidence.Prelude.{
  ◌≤◌, ◌≡◌, refl, Text, Bytes, false, ◌||◌, leb, leb→le, [], ◌∷◌, ◌++◌, some, ok, guard,
  guard-ok_iff, runtime_error, value_error, sym, ap, length, codes, text_eq, append_assoc, bind-ok,
  if◌then◌else◌, Bool-cases, inl, inr,
}
use cra_evidence.Json.{Value, obj, get, str, int, pos, without}
use cra_evidence.Runtime.{Runtime}
use cra_evidence.Canonical.{max_depth}
use cra_evidence.Canonical.Depth.{nesting_depth}
use cra_evidence.Canonical.Encode.{canonical_bytes}
use cra_evidence.Ledger.{newline, max_line_bytes, ends_with, reads, entry_hash}
use cra_evidence.Ledger.Append.{
  Tail, Host, Config, Prepared, no_tail, tail_state, entry_body, with_hash, prepare, payload,
}
use cra_evidence.Ledger.Append.Open.{tail_state-open}

-- The steps of a successful `prepare`.
pub record Steps (rt : Runtime) (file : Bytes) (d : Value) (ts : Text) (p : Prepared) : Type 0 where
  pub text : Text
  pub tail : tail_state rt file ≡ ok p.tail
  pub hash : entry_hash rt (entry_body p.tail ts d) ≡ ok p.self_hash
  pub entry : p.entry ≡ with_hash p.tail ts d p.self_hash
  pub encoded : canonical_bytes (obj p.entry) ≡ ok text
  pub fits : length text ≤ max_line_bytes
  pub shallow : nesting_depth (text ++ newline ∷ []) ≤ max_depth
  pub line : p.line ≡ text ++ newline ∷ []

pub prepare-Steps :
    (rt : Runtime) (c : Config) (host : Host) (file : Bytes) (d : Value) (ts : Text) (p : Prepared)
    → prepare rt c host file d ts ≡ ok p
    → Steps rt file d ts p
unfolding prepare
prepare-Steps rt c host file d ts p h =
    let (v, b, h2) = bind-ok (guard (host.locked || c.allow_unlocked) runtime_error) _ h in
    let (t, k, h3) = bind-ok (tail_state rt file) _ h2 in
    let (x, l, h4) = bind-ok (entry_hash rt (entry_body t ts d)) _ h3 in
    let (text, m, h5) = bind-ok (canonical_bytes (obj (with_hash t ts d x))) _ h4 in
    let (w, n, h6) = bind-ok (guard (leb (length text) max_line_bytes) value_error) _ h5 in
    let (y, o, h7) =
      bind-ok (guard (leb (nesting_depth (text ++ newline ∷ [])) max_depth) value_error) _ h6 in
    let q : Prepared = record {
      tail = t;
      self_hash = x;
      entry = with_hash t ts d x;
      line = text ++ newline ∷ [];
    } in
    let e : q ≡ p = cc in
    let s : Steps rt file d ts q = record {
      text = text;
      tail = k;
      hash = l;
      entry = refl;
      encoded = m;
      fits = leb→le _ _ ((guard-ok_iff (leb (length text) max_line_bytes) value_error).0 n);
      shallow =
          leb→le _ _
            ((guard-ok_iff (leb (nesting_depth (text ++ newline ∷ [])) max_depth) value_error).0 o);
      line = refl;
    } in
    rw e at s

-- The fields of an entry, and what is hashed.
pub entry_fields :
    (t : Tail) (ts h : Text) (d : Value)
    → (get (codes "idx") (with_hash t ts d h) ≡ some (int (pos t.count)))
      × (get (codes "prev_hash") (with_hash t ts d h) ≡ some (str t.last))
      × (get (codes "self_hash") (with_hash t ts d h) ≡ some (str h))
      × (get (codes "ts") (with_hash t ts d h) ≡ some (str ts))
      × (get (codes "data") (with_hash t ts d h) ≡ some d)
      × (without (codes "self_hash") (with_hash t ts d h)
          ≡ without (codes "self_hash") (entry_body t ts d))
unfolding get without with_hash entry_body text_eq
entry_fields t ts h d = (refl, refl, refl, refl, refl, refl)

pub entry_hash-with_hash :
    (rt : Runtime) (t : Tail) (ts h : Text) (d : Value)
    → entry_hash rt (with_hash t ts d h) ≡ entry_hash rt (entry_body t ts d)
unfolding entry_hash
entry_hash-with_hash rt t ts h d = rw (entry_fields t ts h d).5

-- What a file is before a record is put behind it: with its last newline, unless it is empty.
unfoldable pub closed : Bytes → Bytes
closed [] = []
closed (b ∷ bs) = if ends_with newline (b ∷ bs) then b ∷ bs else (b ∷ bs) ++ newline ∷ []

empty_tail : (rt : Runtime) (u : Tail) → tail_state rt [] ≡ ok u → no_tail ≡ u
unfolding reads
empty_tail rt u e = let k : ok no_tail ≡ ok u = unfold tail_state in e in cc

-- The line of the entry goes behind the closed file.
pub append-payload :
    (rt : Runtime) (file : Bytes) (p : Prepared)
    → tail_state rt file ≡ ok p.tail
    → file ++ payload p ≡ closed file ++ p.line
unfolding payload closed
append-payload rt [] p h =
    let e : p.tail.unterminated ≡ false =
      sym (ap (λ (z : Tail). z.unterminated) (empty_tail rt p.tail h)) in
    rw (payload, e) refl
append-payload rt (b ∷ bs) p h =
    let o = tail_state-open rt b bs p.tail h in
    elim (Bool-cases (ends_with newline (b ∷ bs))) [
      | inl e ↦ let u = (rw e at o) in rw (payload, u, closed, e) refl
      | inr e ↦
          let u = (rw e at o) in
          rw (payload, u, closed, e) (sym (append_assoc (b ∷ bs) (newline ∷ []) p.line))
    ]
