-- ===== src/Ledger/Append.antt =====
-- `_tail_state` and `Ledger.append` of cra_evidence/ledger.py. The file and its signed tip are a state
-- that an append takes and gives back; what the host decides (the lock, the bytes that each os.write
-- takes) is an argument.
pub mod Atomic
pub mod Reads
pub mod Open
pub mod Tails
pub mod First
pub mod Steps
pub mod Appended
pub mod Scanned
pub mod Readback
use cra_evidence.Prelude.{
  ℕ, suc, ◌+◌, ◌-◌, Text, Bytes, Bool, true, false, not, ◌&&◌, ◌||◌, ltb, leb, ◌==◌, if◌then◌else◌,
  List, [], ◌∷◌, ◌++◌, Option, none, some, length, take, drop, is_empty, codes, Error, value_error,
  runtime_error, os_error, output_not_written, tip_not_written, Result, ok, raised, guard, ◌>>=◌,
  ◌>>◌,
}
use cra_evidence.Json.{
  pos, name, Value, null, bool, int, float, str, arr, tuple, obj, Fields, end, field, get,
}
use cra_evidence.Canonical.{max_depth}
use cra_evidence.Canonical.Depth.{nesting_depth}
use cra_evidence.Canonical.Encode.{canonical_bytes}
use cra_evidence.Runtime.{Runtime}
use cra_evidence.Ledger.{
  genesis, max_line_bytes, newline, ends_with, line_content, is_blank_line, oversized, decode,
  reads, entry_hash,
}
use cra_evidence.Ledger.Parse.{parse_line}

-- (next idx, last self_hash, first self_hash, file ends without newline)
pub record Tail : Type 0 where
  pub count : ℕ
  pub last : Text
  pub first : Text
  pub unterminated : Bool

abbrev pub no_tail : Tail
no_tail = record { count = 0; last = genesis; first = genesis; unterminated = false }

-- `e["self_hash"]` of a chained entry: a dict that holds a text of 64 characters there
unfoldable pub chained_hash : Value → Result Text
chained_hash (obj e) = elim (get (codes "self_hash") e) [
  | none ↦ raised value_error
  | some v ↦ elim v [
    | str h ↦ if length h == 64 then ok h else raised value_error
    | _ ↦ raised value_error
  ]
]
chained_hash _ = raised value_error

unfoldable pub count_entry : Tail → Text → Tail
count_entry t h = record t {
  count = t.count + 1;
  last = h;
  first = if t.count + 1 == 1 then h else t.first;
}

-- One round of the loop.
unfoldable pub tail_step : Runtime → Tail → Bytes → Result Tail
tail_step rt t raw =
    if oversized raw
    then raised value_error
    else (let u = record t { unterminated = not (ends_with newline raw) } in
        if is_blank_line (line_content raw) then ok u else do
          text ← decode rt (line_content raw)
          e ← parse_line rt text false
          h ← chained_hash e
          ok (count_entry u h))

unfoldable pub tail_loop : Runtime → Tail → List Bytes → Result Tail
tail_loop rt t [] = ok t
tail_loop rt t (raw ∷ rs) = do u ← tail_step rt t raw; tail_loop rt u rs

unfoldable pub tail_state : Runtime → Bytes → Result Tail
unfolding tail_loop
tail_state rt file = tail_loop rt no_tail (reads file)

-- The signed tip next to the ledger: what write_tip of signing.py is given.
pub record Tip : Type 0 where
  pub count : ℕ
  pub ledger_id : Text
  pub tip_sha256 : Text

-- The ledger's file, which is empty where it is absent, and its tip.
pub record State : Type 0 where
  pub present : Bool
  pub file : Bytes
  pub tip : Option Tip

-- What the host does during one append: whether the file can be opened, whether flock succeeds, the bytes that each os.write takes
-- (a write behind the last of these raises), whether fsync, the truncation after a failed write, and
-- the replacement of the tip succeed.
pub record Host : Type 0 where
  pub opens : Bool
  pub locked : Bool
  pub writes : List ℕ
  pub synced : Bool
  pub truncates : Bool
  pub tip_replaced : Bool

-- The arguments of the constructor that an append reads.
pub record Config : Type 0 where
  pub allow_unlocked : Bool
  pub has_tip_key : Bool

-- `while data: data = data[os.write(fd, data):]`: what reached the file, and whether all of it did
unfoldable pub write_all : List ℕ → Bytes → Bytes × Bool
write_all [] data' = ([], is_empty data')
write_all (w ∷ ws) data' =
    let rest = write_all ws (drop w data') in
    if is_empty data' then ([], true) else (take w data' ++ rest.0, rest.1)

-- The entry, without and with its `self_hash`.
unfoldable pub entry_body : Tail → Text → Value → Fields
entry_body t ts d = field (name (codes "idx")) (int (pos t.count)) (
    field (name (codes "ts")) (str ts)
      (field (name (codes "prev_hash")) (str t.last) (field (name (codes "data")) d end)))

unfoldable pub with_hash : Tail → Text → Value → Text → Fields
with_hash t ts d h = field (name (codes "idx")) (int (pos t.count)) (
    field (name (codes "ts")) (str ts) (
      field (name (codes "prev_hash")) (str t.last)
        (field (name (codes "data")) d (field (name (codes "self_hash")) (str h) end))))

-- What the lock is held for: the tail that was read, the new entry's hash, the entry and its line.
pub record Prepared : Type 0 where
  pub tail : Tail
  pub self_hash : Text
  pub entry : Fields
  pub line : Bytes

-- The part of `append` behind the open that writes nothing.
unfoldable pub prepare : Runtime → Config → Host → Bytes → Value → Text → Result Prepared
prepare rt c host file d ts = do
  guard (host.locked || c.allow_unlocked) runtime_error
  t ← tail_state rt file
  h ← entry_hash rt (entry_body t ts d)
  text ← canonical_bytes (obj (with_hash t ts d h))
  guard (leb (length text) max_line_bytes) value_error
  guard (leb (nesting_depth (text ++ newline ∷ [])) max_depth) value_error
  ok (record { tail = t; self_hash = h; entry = with_hash t ts d h; line = text ++ newline ∷ [] })

-- A file that lost its last newline gets it before the new record.
unfoldable pub payload : Prepared → Bytes
payload p = if p.tail.unterminated then newline ∷ p.line else p.line

unfoldable pub new_tip : Prepared → Tip
new_tip p = record {
  count = p.tail.count + 1;
  ledger_id = if ltb 0 p.tail.count then p.tail.first else p.self_hash;
  tip_sha256 = p.self_hash;
}

-- The writes behind the end of the file, and the tip behind them; a failed write is cut off at that end.
unfoldable pub commit : Config → Host → State → Prepared → Result Fields × State
commit c host s p =
    let size = length s.file in
    let (written, whole) = write_all host.writes (payload p) in
    let t = record s { file = s.file ++ written } in
    if whole && host.synced
    then (if not c.has_tip_key
        then (ok p.entry, t)
        else if host.tip_replaced
        then (ok p.entry, record t { tip = some (new_tip p) })
        else (raised tip_not_written, t))
    else (
      raised output_not_written,
      if host.truncates then record t { file = take size t.file } else t,
    )

-- `open(path, "ab+")` creates a file that is absent.
unfoldable pub open_ledger : State → State
open_ledger s = record s { present = true }

unfoldable pub append : Runtime → Config → Host → State → Value → Text → Result Fields × State
unfolding commit open_ledger
append rt c host s d ts = elim (canonical_bytes d) [
  | raised e ↦ (raised e, s)
  | ok b ↦ if not host.opens then (raised os_error, s) else elim (prepare rt c host s.file d ts) [
    | raised e ↦ (raised e, open_ledger s)
    | ok p ↦ commit c host (open_ledger s) p
  ]
]
