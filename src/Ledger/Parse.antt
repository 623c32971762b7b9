-- ===== src/Ledger/Parse.antt =====
-- The strict JSON of cra_evidence/ledger.py: `parse_line` and its hooks.
use cra_evidence.Prelude.{
  ◌^◌, ◌-◌, Text, Bool, true, false, not, ◌&&◌, ◌||◌, leb, Option, none, some, Result, ok, raised,
  value_error, guard, ◌>>=◌, ◌>>◌,
}
use cra_evidence.Json.{
  nan, infinite, finite, ℤ, abs, Key, name, nonstr, Value, null, bool, int, float, str, arr, tuple,
  obj, Items, nil, cons, Fields, end, field, is_name,
}
use cra_evidence.Canonical.{max_depth, has_surrogate}
use cra_evidence.Canonical.Depth.{nesting_depth}
use cra_evidence.Runtime.{Runtime}

-- `k in d`
unfoldable pub has_name : Text → Fields → Bool
unfolding is_name
has_name t end = false
has_name t (field k v fs) = is_name t k || has_name t fs

-- A scanned key is a string.
unfoldable pub key_in : Key → Fields → Bool
unfolding has_name
key_in (name k) fs = has_name k fs
key_in (nonstr k) fs = false

-- `_no_dup_keys` over the pairs of an object: no key stands twice.
unfoldable pub no_dup_keys : Fields → Bool
unfolding key_in
no_dup_keys end = true
no_dup_keys (field k v fs) = not (key_in k fs) && no_dup_keys fs

-- `_refuse_int`
unfoldable pub refuse_int : ℤ → Bool
refuse_int i = leb (abs i) (2 ^ 53 - 1)

-- Whether json.loads with the hooks of `parse_line` gets through a scanned tree: `_refuse_constant`,
-- `_no_dup_keys`, and, unless floats are allowed, `_refuse_float` and `_refuse_int`.
unfoldable mutual
  unfolding no_dup_keys refuse_int

  pub hooks_pass : Bool → Value → Bool
  hooks_pass a null = true
  hooks_pass a (bool b) = true
  hooks_pass a (int i) = a || refuse_int i
  hooks_pass a (float nan) = false
  hooks_pass a (float infinite) = false
  hooks_pass a (float (finite r)) = a
  hooks_pass a (str s) = true
  hooks_pass a (arr xs) = hooks_pass_items a xs
  hooks_pass a (tuple xs) = hooks_pass_items a xs
  hooks_pass a (obj fs) = no_dup_keys fs && hooks_pass_fields a fs

  pub hooks_pass_items : Bool → Items → Bool
  hooks_pass_items a nil = true
  hooks_pass_items a (cons v xs) = hooks_pass a v && hooks_pass_items a xs

  pub hooks_pass_fields : Bool → Fields → Bool
  hooks_pass_fields a end = true
  hooks_pass_fields a (field k v fs) = hooks_pass a v && hooks_pass_fields a fs

unfoldable pub key_surrogate : Key → Bool
unfolding has_surrogate
key_surrogate (name k) = has_surrogate k
key_surrogate (nonstr k) = false

-- The walk is over a stack in the source; what it finds does not depend on the order.
unfoldable mutual
  unfolding key_surrogate has_surrogate

  pub has_lone_surrogate : Value → Bool
  has_lone_surrogate (str s) = has_surrogate s
  has_lone_surrogate (arr xs) = surrogate_items xs
  has_lone_surrogate (obj fs) = surrogate_fields fs
  has_lone_surrogate _ = false

  pub surrogate_items : Items → Bool
  surrogate_items nil = false
  surrogate_items (cons v xs) = has_lone_surrogate v || surrogate_items xs

  pub surrogate_fields : Fields → Bool
  surrogate_fields end = false
  surrogate_fields (field k v fs) = key_surrogate k || (has_lone_surrogate v || surrogate_fields fs)

-- `parse_line`; json.loads raises a ValueError where the scanner or a hook refuses.
unfoldable pub loads : Option Value → Bool → Result Value
unfolding hooks_pass
loads none a = raised value_error
loads (some v) a = do guard (hooks_pass a v) value_error; ok v

unfoldable pub parse_line : Runtime → Text → Bool → Result Value
unfolding nesting_depth loads has_lone_surrogate
parse_line rt line allow_floats = do
  guard (leb (nesting_depth line) max_depth) value_error
  v ← loads (rt.scan_json line) allow_floats
  guard (not (has_lone_surrogate v)) value_error
  ok v
