-- ===== src/Canonical.antt =====
-- cra_evidence/canonical.py: what may be hashed. The children hold the encoder and the pre-scan of
-- the nesting depth, and the proofs.
pub mod Accept
pub mod Floats
pub mod Encode
pub mod Depth
pub mod Ascii
use cra_evidence.Prelude.{
  ℕ, ◌+◌, ◌-◌, ◌^◌, Text, Bool, true, false, ◌&&◌, not, leb, any, if◌then◌else◌, Result, ok, raised,
  type_error, guard, ◌>>=◌, ◌>>◌,
}
use cra_evidence.Json.{
  Float, nan, infinite, finite, ℤ, abs, Key, name, nonstr, Value, null, bool, int, float, str, arr,
  tuple, obj, Items, nil, cons, Fields, end, field,
}

abbrev pub max_safe_int : ℕ
max_safe_int = 2 ^ 53 - 1

abbrev pub max_depth : ℕ
max_depth = 512

-- all(isinstance(k, str) for k in d)
unfoldable pub names_only : Fields → Bool
names_only end = true
names_only (field (name k) v fs) = names_only fs
names_only (field (nonstr k) v fs) = false

unfoldable mutual
  pub floatfree : Value → Result Value
  floatfree null = ok null
  floatfree (bool b) = ok (bool b)
  floatfree (int i) = ok (int i)
  floatfree (float nan) = raised type_error
  floatfree (float infinite) = raised type_error
  floatfree (float (finite r)) = ok (str r)
  floatfree (str s) = ok (str s)
  floatfree (arr xs) = do ys ← floatfree_items xs; ok (arr ys)
  floatfree (tuple xs) = do ys ← floatfree_items xs; ok (arr ys)
  floatfree (obj fs) = do guard (names_only fs) type_error; gs ← floatfree_fields fs; ok (obj gs)

  pub floatfree_items : Items → Result Items
  floatfree_items nil = ok nil
  floatfree_items (cons v xs) = do w ← floatfree v; ys ← floatfree_items xs; ok (cons w ys)

  pub floatfree_fields : Fields → Result Fields
  floatfree_fields end = ok end
  floatfree_fields (field k v fs) = do w ← floatfree v; gs ← floatfree_fields fs; ok (field k w gs)

unfoldable pub is_surrogate : ℕ → Bool
is_surrogate c = leb 0xd800 c && leb c 0xdfff

-- `s.encode("utf-8")` raises: a str has no UTF-8 encoding exactly when it holds a lone surrogate.
unfoldable pub has_surrogate : Text → Bool
unfolding is_surrogate
has_surrogate s = any is_surrogate s

-- `if depth > MAX_DEPTH: raise`
unfoldable pub shallow : ℕ → Result (Unit {0})
shallow d = guard (leb d max_depth) type_error

unfoldable pub refuse_text : ℕ → Text → Result (Unit {0})
unfolding shallow has_surrogate
refuse_text d s = do shallow d; guard (not (has_surrogate s)) type_error

unfoldable pub refuse_key : ℕ → Key → Result (Unit {0})
unfolding refuse_text
refuse_key d (name k) = refuse_text d k
refuse_key d (nonstr k) = raised type_error

-- `_refuse_floats(obj, path, depth)`, without the path, which only the messages read
unfoldable mutual
  unfolding shallow refuse_text refuse_key

  pub refuse_floats : ℕ → Value → Result (Unit {0})
  refuse_floats d null = shallow d
  refuse_floats d (bool b) = shallow d
  refuse_floats d (int i) = do shallow d; guard (leb (abs i) max_safe_int) type_error
  refuse_floats d (float f) = do shallow d; raised type_error
  refuse_floats d (str s) = refuse_text d s
  refuse_floats d (arr xs) = do shallow d; refuse_items (d + 1) xs
  refuse_floats d (tuple xs) = do shallow d; refuse_items (d + 1) xs
  refuse_floats d (obj fs) = do shallow d; refuse_fields (d + 1) fs

  pub refuse_items : ℕ → Items → Result (Unit {0})
  refuse_items d nil = ok tt
  refuse_items d (cons v xs) = do refuse_floats d v; refuse_items d xs

  pub refuse_fields : ℕ → Fields → Result (Unit {0})
  refuse_fields d end = ok tt
  refuse_fields d (field k v fs) = do refuse_key d k; refuse_floats d v; refuse_fields d fs
