-- ===== src/Ledger/Append/Readback.antt =====
-- What was appended is what is read: the entries of a ledger after an append, and their verdict.
use cra_evidence.Prelude.{
  ◌+◌, ◌≤◌, ◌≡◌, ◌≢◌, refl, ◌⊎◌, Text, Bytes, true, false, ltb-false, [], ◌∷◌, ◌++◌, none, some, ok,
  arith, inl, inr, sym, ◌∙◌, ap, All, length, length-append, codes,
}
use cra_evidence.Json.{Value, obj, Fields, get, str}
use cra_evidence.Runtime.{Runtime}
use cra_evidence.Canonical.{max_depth}
use cra_evidence.Canonical.Ascii.{Ascii, canonical_bytes-Ascii}
use cra_evidence.Canonical.Depth.{nesting_depth}
use cra_evidence.Canonical.Depth.Agree.{canonical_bytes-ok}
use cra_evidence.Canonical.Encode.{canonical_bytes, dumps, join_members, sort, dumps_fields}
use cra_evidence.Ledger.{
  newline, max_line_bytes, ends_with, line_content, is_blank_line, reads, oversized, decode,
  read_entry, yield_then, entries, genesis, verify,
}
use cra_evidence.Ledger.Parse.{parse_line}
use cra_evidence.Ledger.Chain.{Chain, IsLink, Chain-join}
use cra_evidence.Ledger.Verify.{Chain-verify}
use cra_evidence.Ledger.Append.{State, Host, Config, Prepared, no_tail, tail_state, append}
use cra_evidence.Ledger.Append.Atomic.{append-Recorded}
use cra_evidence.Ledger.Append.Reads.{
  reads_from-append, reads_from-line, ends_with-newline, strip_end-last, entries-append,
}
use cra_evidence.Ledger.Append.Tails.{tail_loop-Found}
use cra_evidence.Ledger.Append.Scanned.{
  ReadsBack, ReadsBack-parse_line, ReadsBack-entry_hash, nesting_depth-newline,
}
use cra_evidence.Ledger.Append.Steps.{
  Steps, prepare-Steps, entry_fields, entry_hash-with_hash, closed, append-payload,
}

-- A file whose last line has its newline, or that is empty.
abbrev pub Terminated : Bytes → Type 0
Terminated file = (file ≡ []) ⊎ (ends_with newline file ≡ true)

-- The text of an object begins with a brace and ends with one.
braces :
    (fs : Fields) → dumps (obj fs) ≡ b'{' ∷ (join_members (sort (dumps_fields fs)) ++ b'}' ∷ [])
unfolding dumps
braces fs = refl

line_content-line :
    (t : Text) → line_content (b'{' ∷ ((t ++ b'}' ∷ []) ++ newline ∷ [])) ≡ b'{' ∷ (t ++ b'}' ∷ [])
unfolding line_content
line_content-line t =
    rw (strip_end-last newline newline (b'{' ∷ (t ++ b'}' ∷ [])))
      (strip_end-last 13 b'}' (b'{' ∷ t))

-- A line of an object that fits is read by `read_entry` as what it parses to.
read_entry-line :
    (rt : Runtime) (t : Text) (v : Value)
    → length (b'{' ∷ (t ++ b'}' ∷ [])) ≤ max_line_bytes
    → rt.decode_utf8 (b'{' ∷ (t ++ b'}' ∷ [])) ≡ some (b'{' ∷ (t ++ b'}' ∷ []))
    → parse_line rt (b'{' ∷ (t ++ b'}' ∷ [])) false ≡ ok v
    → read_entry rt ((b'{' ∷ (t ++ b'}' ∷ [])) ++ newline ∷ []) ≡ ok (some v)
unfolding read_entry oversized is_blank_line decode
read_entry-line rt t v l d p = rw (line_content-line t) (
    rw (ends_with-newline (b'{' ∷ (t ++ b'}' ∷ [])))
      (rw (ltb-false max_line_bytes (length (b'{' ∷ (t ++ b'}' ∷ []))) l) (rw (d, decode) (rw p))))

no_newline : (t : Text) → Ascii t → All (λ b. b ≢ newline) t
no_newline [] a = tt
no_newline (c ∷ t) a = (λ e. omega arith, no_newline t a.1)

closed-Terminated : (file : Bytes) → Terminated file → closed file ≡ file
unfolding closed
closed-Terminated [] t = refl
closed-Terminated (b ∷ bs) (inl t) = cc
closed-Terminated (b ∷ bs) (inr t) = rw (closed, t) refl

reads-append :
    (file line : Bytes) → Terminated file → reads (file ++ line) ≡ reads file ++ reads line
unfolding reads
reads-append file line (inl t) = rw t
reads-append file line (inr t) =
    reads_from-append (max_line_bytes + 2) (max_line_bytes + 2) file line t

module _ (rt : Runtime) (file : Bytes) (d : Value) (ts : Text) (p : Prepared) (f : Fields)
    (q : Text) (ended : Terminated file) (chain : Chain rt 0 genesis (entries rt (reads file)).0 q)
    (steps : Steps rt file d ts p) (back : ReadsBack rt p.entry f steps.text) where
  shallow : nesting_depth steps.text ≤ max_depth
  shallow = omega (arith, nesting_depth-newline steps.text, steps.shallow)

  read_line : read_entry rt p.line ≡ ok (some (obj f))
  read_line =
      let e = (canonical_bytes-ok (obj p.entry) steps.text steps.encoded).2 in
      let m = join_members (sort (dumps_fields p.entry)) in
      let k : steps.text ≡ b'{' ∷ (m ++ b'}' ∷ []) = sym e ∙ braces p.entry in
      rw (steps.line, k)
        (read_entry-line rt m (obj f) (rw k at steps.fits) (rw k at back.decoded)
          (rw k at (ReadsBack-parse_line rt p.entry f steps.text back steps.encoded shallow)))

  line_reads : reads p.line ≡ p.line ∷ []
  unfolding reads
  line_reads = rw steps.line (
      reads_from-line (max_line_bytes + 2) (max_line_bytes + 2) steps.text
        (no_newline steps.text (canonical_bytes-Ascii (obj p.entry) steps.text steps.encoded))
        (omega (arith, steps.fits)))

  found :
      ((entries rt (reads file)).1 ≡ none)
      × (p.tail.last ≡ q)
      × (p.tail.count ≡ 0 + length (entries rt (reads file)).0)
  unfolding tail_state
  found = tail_loop-Found rt (reads file) no_tail p.tail q steps.tail chain

  entries_after :
      entries rt (reads (file ++ p.line)) ≡ ((entries rt (reads file)).0 ++ obj f ∷ [], none)
  unfolding entries yield_then
  entries_after =
      rw (reads-append file p.line ended, line_reads)
        (entries-append rt (reads file) (p.line ∷ []) found.0 ∙ rw read_line)

  link : IsLink rt (0 + length (entries rt (reads file)).0) q p.self_hash f
  link =
      let g = entry_fields p.tail ts p.self_hash d in
      record {
        idx = back.idx ∙ rw (steps.entry, g.0, found.2);
        prev_hash = back.prev_hash ∙ rw (steps.entry, g.1, found.1);
        self_hash = back.self_hash ∙ rw (steps.entry, g.2);
        hash =
            ReadsBack-entry_hash rt p.entry f steps.text back steps.encoded
            ∙ rw steps.entry (entry_hash-with_hash rt p.tail ts p.self_hash d ∙ steps.hash);
      }

  Chain-after : Chain rt 0 genesis ((entries rt (reads file)).0 ++ obj f ∷ []) p.self_hash
  Chain-after =
      Chain-join rt 0 genesis q p.self_hash (entries rt (reads file)).0 (obj f ∷ []) chain
        (p.self_hash, link, refl)

-- What is read after an append, to a verified ledger that has its last newline, that returned its entry: the entries that
-- were there, and behind them the dict that json.loads gives for the text of the new one; they verify, and their last
-- hash is the new entry's. Of json and the codec it takes what ReadsBack states: the ASCII text is decoded as it is,
-- and the dict has each key once, the depth, the cleanness and the chain's fields of the entry, and its dump.
pub append-verify :
    (rt : Runtime) (c : Config) (host : Host) (s : State) (d : Value) (ts : Text) (e f : Fields)
    (q : Text)
    → Terminated s.file
    → Chain rt 0 genesis (entries rt (reads s.file)).0 q
    → (append rt c host s d ts).0 ≡ ok e
    → ((text : Text) → canonical_bytes (obj e) ≡ ok text → ReadsBack rt e f text)
    → (entries rt (reads (append rt c host s d ts).1.file)
        ≡ ((entries rt (reads s.file)).0 ++ obj f ∷ [], none))
      × ((verify rt (entries rt (reads (append rt c host s d ts).1.file))).chain_ok ≡ true)
      × (get (codes "self_hash") f
          ≡ some (
              str (verify rt (entries rt (reads (append rt c host s d ts).1.file))).last_self_hash))
append-verify rt c host s d ts e f q t chain h back =
    let (p, k, r) = append-Recorded rt c host s d ts e h in
    let steps = prepare-Steps rt c host s.file d ts p k in
    let b = back steps.text (rw r.entry steps.encoded) in
    let b' = rw r.entry at b in
    let file =
      r.file
      ∙ append-payload rt s.file p steps.tail
      ∙ ap (λ (x : Bytes). x ++ p.line) (closed-Terminated s.file t) in
    let after = entries_after rt s.file d ts p f q t chain steps b' in
    let new = Chain-after rt s.file d ts p f q t chain steps b' in
    let es = (entries rt (reads s.file)).0 in
    let v =
      Chain-verify rt (es ++ obj f ∷ []) p.self_hash (omega (arith, length-append es (obj f ∷ [])))
        new in
    let all = ap (λ (x : Bytes). entries rt (reads x)) file ∙ after in
    (
      all,
      rw all (v.0),
      rw all (
          (link rt s.file d ts p f q t chain steps b').self_hash
          ∙ ap (λ (x : Text). some (str x)) (sym v.1)),
    )
