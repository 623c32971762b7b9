-- ===== src/Ledger/Hashable.antt =====
-- What `parse_line` accepts can be hashed.
use cra_evidence.Prelude.{
  ◌≤◌, ◌≡◌, refl, Text, Bool, true, false, not, ◌&&◌, ◌||◌, leb, Option, some, none, ok, bind-ok,
  &&_iff, arith, guard, guard-ok_iff, value_error, leb→le,
}
use cra_evidence.Json.{
  nan, infinite, finite, name, nonstr, Value, null, bool, int, float, str, arr, tuple, obj, Items,
  nil, cons, Fields, end, field,
}
use cra_evidence.Canonical.{max_depth, has_surrogate}
use cra_evidence.Canonical.Accept.{
  height, clean, clean_items, clean_fields, clean_key, refuse_floats_iff,
}
use cra_evidence.Canonical.Depth.{nesting_depth}
use cra_evidence.Canonical.Encode.{canonical_bytes, dumps}
use cra_evidence.Runtime.{Runtime}
use cra_evidence.Ledger.Parse.{
  hooks_pass, hooks_pass_items, hooks_pass_fields, has_lone_surrogate, surrogate_items,
  surrogate_fields, loads, parse_line,
}

-- What json.loads gives is made of JSON values: no tuple, no key that is not a string.
unfoldable mutual
  pub json_only : Value → Bool
  json_only (tuple xs) = false
  json_only (arr xs) = json_only_items xs
  json_only (obj fs) = json_only_fields fs
  json_only _ = true

  pub json_only_items : Items → Bool
  json_only_items nil = true
  json_only_items (cons v xs) = json_only v && json_only_items xs

  pub json_only_fields : Fields → Bool
  json_only_fields end = true
  json_only_fields (field (name k) v fs) = json_only v && json_only_fields fs
  json_only_fields (field (nonstr k) v fs) = false

nor_left : (a b : Bool) → not (a || b) ≡ true → not a ≡ true
nor_left a b h = ground arith

nor_right : (a b : Bool) → not (a || b) ≡ true → not b ≡ true
nor_right a b h = ground arith

mutual
  unfolding json_only json_only_items json_only_fields clean clean_items clean_fields clean_key
      hooks_pass hooks_pass_items hooks_pass_fields has_lone_surrogate surrogate_items
      surrogate_fields

  clean-parsed :
      (v : Value)
      → json_only v ≡ true
      → hooks_pass false v ≡ true
      → not (has_lone_surrogate v) ≡ true
      → clean v ≡ true
  clean-parsed null j h s = refl
  clean-parsed (bool b) j h s = refl
  clean-parsed (int i) j h s = h
  clean-parsed (float nan) j h s = cc
  clean-parsed (float infinite) j h s = cc
  clean-parsed (float (finite r)) j h s = cc
  clean-parsed (str t) j h s = s
  clean-parsed (arr xs) j h s = clean_items-parsed xs j h s
  clean-parsed (tuple xs) j h s = cc
  clean-parsed (obj fs) j h s =
      clean_fields-parsed fs j ((&&_iff _ (hooks_pass_fields false fs)).0 h).1 s

  clean_items-parsed :
      (xs : Items)
      → json_only_items xs ≡ true
      → hooks_pass_items false xs ≡ true
      → not (surrogate_items xs) ≡ true
      → clean_items xs ≡ true
  clean_items-parsed nil j h s = refl
  clean_items-parsed (cons v xs) j h s =
      let a = (&&_iff (json_only v) (json_only_items xs)).0 j in
      let b = (&&_iff (hooks_pass false v) (hooks_pass_items false xs)).0 h in
      (&&_iff (clean v) (clean_items xs)).1 (
        clean-parsed v a.0 b.0 (nor_left (has_lone_surrogate v) (surrogate_items xs) s),
        clean_items-parsed xs a.1 b.1 (nor_right (has_lone_surrogate v) (surrogate_items xs) s),
      )

  clean_fields-parsed :
      (fs : Fields)
      → json_only_fields fs ≡ true
      → hooks_pass_fields false fs ≡ true
      → not (surrogate_fields fs) ≡ true
      → clean_fields fs ≡ true
  clean_fields-parsed end j h s = refl
  clean_fields-parsed (field (name k) v fs) j h s =
      let a = (&&_iff (json_only v) (json_only_fields fs)).0 j in
      let b = (&&_iff (hooks_pass false v) (hooks_pass_fields false fs)).0 h in
      let r = nor_right (has_surrogate k) (has_lone_surrogate v || surrogate_fields fs) s in
      (&&_iff (not (has_surrogate k)) (clean v && clean_fields fs)).1 (
        nor_left (has_surrogate k) (has_lone_surrogate v || surrogate_fields fs) s,
        (&&_iff (clean v) (clean_fields fs)).1 (
          clean-parsed v a.0 b.0 (nor_left (has_lone_surrogate v) (surrogate_fields fs) r),
          clean_fields-parsed fs a.1 b.1 (nor_right (has_lone_surrogate v) (surrogate_fields fs) r),
        ),
      )
  clean_fields-parsed (field (nonstr k) v fs) j h s = cc

-- What the json module documents of the values that it scans.
pub record ScansJson (rt : Runtime) : Type 0 where
  pub values : (t : Text) (v : Value) → rt.scan_json t ≡ some v → json_only v ≡ true
  -- each level of a value stands between brackets of the text
  pub levels : (t : Text) (v : Value) → rt.scan_json t ≡ some v → height v ≤ nesting_depth t

loads-ok :
    (o : Option Value) (v : Value)
    → loads o false ≡ ok v
    → (o ≡ some v) × (hooks_pass false v ≡ true)
unfolding loads
loads-ok none v h = cc
loads-ok (some w) v h =
    let (u, p, q) = bind-ok (guard (hooks_pass false w) value_error) (λ _. ok w) h in
    let e : w ≡ v = cc in (rw e, rw e at ((guard-ok_iff (hooks_pass false w) value_error).0 p))

-- A document that `parse_line` accepts, with floats not allowed, is one that canonical_bytes encodes:
-- the hash of a parsed entry can always be computed.
pub canonical_bytes-parse_line :
    (rt : Runtime) (line : Text) (v : Value)
    → ScansJson rt
    → parse_line rt line false ≡ ok v
    → canonical_bytes v ≡ ok (dumps v)
unfolding parse_line canonical_bytes
canonical_bytes-parse_line rt line v j h =
    let (u, p, q) = bind-ok (guard (leb (nesting_depth line) max_depth) value_error) _ h in
    let (w, r, s) = bind-ok (loads (rt.scan_json line) false) _ q in
    let (x, t, z) = bind-ok (guard (not (has_lone_surrogate w)) value_error) (λ _. ok w) s in
    let e : w ≡ v = cc in
    let l = loads-ok (rt.scan_json line) w r in
    let b = (guard-ok_iff (not (has_lone_surrogate w)) value_error).0 t in
    let c = clean-parsed w (j.values line w l.0) l.1 b in
    let n =
      leb→le (nesting_depth line) max_depth
        ((guard-ok_iff (leb (nesting_depth line) max_depth) value_error).0 p) in
    let a = (refuse_floats_iff 0 w).1 (omega (arith, j.levels line w l.0, n), c) in rw (← e) (rw a)
