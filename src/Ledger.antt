-- ===== src/Ledger.antt =====
-- cra_evidence/ledger.py: the lines of the file, the entries, and the verification of the chain.
pub mod Parse
pub mod Hashable
pub mod Chain
pub mod Verify
pub mod Append
use cra_evidence.Prelude.{
  ℕ, suc, ◌+◌, ◌-◌, ◌*◌, ◌^◌, Text, Bytes, Bool, true, false, not, ◌&&◌, ◌||◌, ltb, leb, ◌==◌,
  if◌then◌else◌, List, [], ◌∷◌, ◌++◌, Option, none, some, length, take, all, is_empty, codes,
  text_eq, Error, value_error, Result, ok, raised, guard, ◌>>=◌, ◌>>◌,
}
use cra_evidence.Json.{
  ℤ, pos, negsuc, Value, null, bool, int, float, str, arr, tuple, obj, Fields, get, without,
}
use cra_evidence.Canonical.Encode.{canonical_bytes}
use cra_evidence.Runtime.{Runtime}
use cra_evidence.Ledger.Parse.{parse_line}

-- "0" * 64
abbrev pub genesis : Text
genesis = codes "0000000000000000000000000000000000000000000000000000000000000000"

abbrev pub max_line_bytes : ℕ
max_line_bytes = 64 * 2 ^ 20

abbrev pub newline : ℕ
newline = 10

unfoldable pub ends_with : ℕ → Bytes → Bool
ends_with c [] = false
ends_with c (b ∷ []) = b == c
ends_with c (b ∷ d ∷ bs) = ends_with c (d ∷ bs)

-- `raw[:-1]` where `raw` ends with `c`, and `raw` elsewhere
unfoldable pub strip_end : ℕ → Bytes → Bytes
strip_end c [] = []
strip_end c (b ∷ []) = if b == c then [] else b ∷ []
strip_end c (b ∷ d ∷ bs) = b ∷ strip_end c (d ∷ bs)

unfoldable pub line_content : Bytes → Bytes
unfolding strip_end
line_content raw = strip_end 13 (strip_end newline raw)

unfoldable pub is_blank_line : Bytes → Bool
is_blank_line content = all (λ b. (b == 32) || (b == 9)) content

-- What the calls `f.readline(limit)` return one after the other: each ends behind a newline, or after
-- `limit` bytes, or with the file. `room` is what is left of the limit.
unfoldable pub push : ℕ → List Bytes → List Bytes
push b [] = (b ∷ []) ∷ []
push b (r ∷ rs) = (b ∷ r) ∷ rs

unfoldable pub reads_from : ℕ → ℕ → Bytes → List Bytes
unfolding push
reads_from limit room [] = []
reads_from limit room (b ∷ bs) =
    let stop = (b == newline) || leb room 1 in
    let rest = reads_from limit (if stop then limit else room - 1) bs in
    if stop then (b ∷ []) ∷ rest else push b rest

unfoldable pub reads : Bytes → List Bytes
unfolding reads_from
reads file = reads_from (max_line_bytes + 2) (max_line_bytes + 2) file

-- The bound on one read, by which `entries` and `_tail_state` refuse: it stopped short of a newline
-- at the limit, or its content is too long.
unfoldable pub oversized : Bytes → Bool
unfolding ends_with line_content
oversized raw =
    (not (ends_with newline raw) && (length raw == max_line_bytes + 2))
    || ltb max_line_bytes (length (line_content raw))

unfoldable pub decode : Runtime → Bytes → Result Text
decode rt content = elim (rt.decode_utf8 content) [ none ↦ raised value_error | some t ↦ ok t ]

-- One round of the loop of `entries`: `ok none` for a blank line.
unfoldable pub read_entry : Runtime → Bytes → Result (Option Value)
read_entry rt raw =
    if oversized raw
    then raised value_error
    else if is_blank_line (line_content raw)
    then ok none
    else do t ← decode rt (line_content raw); v ← parse_line rt t false; ok (some v)

-- What a generator yields, and the exception that it ends in, if it ends in one.
abbrev pub Stream : Type 0
Stream = List Value × Option Error

unfoldable pub yield_then : Result (Option Value) → Stream → Stream
yield_then (ok none) s = s
yield_then (ok (some v)) s = (v ∷ s.0, s.1)
yield_then (raised e) s = ([], some e)

unfoldable pub entries : Runtime → List Bytes → Stream
unfolding yield_then
entries rt [] = ([], none)
entries rt (raw ∷ rs) = yield_then (read_entry rt raw) (entries rt rs)

unfoldable pub entry_hash : Runtime → Fields → Result Text
unfolding canonical_bytes
entry_hash rt entry = do
  t ← canonical_bytes (obj (without (codes "self_hash") entry))
  ok (rt.sha256 t)

pub data Failure : Type 0 where
  not_an_object not_sequential not_linked self_hash_mismatch : ℕ → Failure
  unparsable : Error → Failure
  empty_ledger : Failure

-- `type(v) is int and v == n`, of a value that may be missing
unfoldable pub is_int : Option Value → ℕ → Bool
is_int (some (int (pos m))) n = m == n
is_int _ n = false

-- `v == t`, for a text `t`
unfoldable pub is_str : Option Value → Text → Bool
is_str (some (str s)) t = text_eq s t
is_str _ t = false

-- `e.get("self_hash", prev)` where it is a string, and `prev` elsewhere
unfoldable pub str_or : Option Value → Text → Text
str_or (some (str s)) t = s
str_or _ t = t

abbrev pub note : Bool → Failure → List Failure
note good f = if good then [] else f ∷ []

-- The loop of `verify` from entry `n` on, whose predecessor has the hash `prev`: the failures, the
-- number of entries and the last hash. An exception of `entry_hash` ends it.
pub record Round : Type 0 where
  pub failures : List Failure
  pub count : ℕ
  pub last : Text

unfoldable pub fields_failures : ℕ → Text → Fields → List Failure
unfolding is_int is_str
fields_failures n prev e =
    note (is_int (get (codes "idx") e) n) (not_sequential n)
    ++ note (is_str (get (codes "prev_hash") e) prev) (not_linked n)

unfoldable pub hash_failures : ℕ → Fields → Text → List Failure
unfolding is_str
hash_failures n e h = note (is_str (get (codes "self_hash") e) h) (self_hash_mismatch n)

unfoldable pub ended : Option Error → List Failure
ended none = []
ended (some e) = unparsable e ∷ []

unfoldable pub prepend : List Failure → Round → Round
prepend fs r = record r { failures = fs ++ r.failures }

unfoldable pub verify_loop : Runtime → ℕ → Text → List Value → Option Error → Round
unfolding fields_failures hash_failures ended prepend str_or
verify_loop rt n prev [] x = record { failures = ended x; count = n; last = prev }
verify_loop rt n prev (obj e ∷ es) x = elim (entry_hash rt e) [
  | raised z ↦ record {
    failures = fields_failures n prev e ++ unparsable z ∷ [];
    count = n;
    last = prev;
  }
  | ok h ↦
      prepend (fields_failures n prev e ++ hash_failures n e h)
        (verify_loop rt (n + 1) (str_or (get (codes "self_hash") e) prev) es x)
]
verify_loop rt n prev (_ ∷ es) x = record {
  failures = not_an_object n ∷ [];
  count = n;
  last = prev;
}

pub record Verdict : Type 0 where
  pub chain_ok : Bool
  pub count : ℕ
  pub failures : List Failure
  pub last_self_hash : Text

unfoldable pub judge : Round → Verdict
judge r =
    let fs = r.failures ++ (if r.count == 0 then empty_ledger ∷ [] else []) in
    record {
      chain_ok = is_empty fs;
      count = r.count;
      failures = take 10 fs;
      last_self_hash = r.last;
    }

-- `verify`, of what `entries` yields or of a list that was read before
unfoldable pub verify : Runtime → Stream → Verdict
unfolding verify_loop judge
verify rt s = judge (verify_loop rt 0 genesis s.0 s.1)
