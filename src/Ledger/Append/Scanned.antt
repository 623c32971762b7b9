-- ===== src/Ledger/Append/Scanned.antt =====
-- The line that `append` of cra_evidence/ledger.py writes, read again: what is asked of json and the codec, and that
-- `parse_line` and `entry_hash` then take the line.
use cra_evidence.Prelude.{
  ◌≤◌, ◌≡◌, refl, Text, Bool, true, false, not, ◌&&◌, ◌||◌, leb, [], ◌∷◌, ◌++◌, none, some, ok,
  arith, sym, ◌∙◌, ap, codes, &&_iff, Bool-cases, inl, inr,
}
use mathlib.Core.List.{foldl}
use cra_evidence.Json.{
  Key, name, nonstr, Value, null, bool, int, float, str, arr, tuple, obj, Items, nil, cons, Fields,
  end, field, get, is_name, without,
}
use cra_evidence.Runtime.{Runtime}
use cra_evidence.Canonical.{max_depth}
use cra_evidence.Canonical.Accept.{
  height, height_fields, clean, clean_items, clean_fields, clean_key, refuse_floats_iff,
}
use cra_evidence.Canonical.Depth.{Scan, start, step, nesting_depth}
use cra_evidence.Canonical.Depth.Agree.{canonical_bytes-ok}
use cra_evidence.Canonical.Encode.{canonical_bytes, dumps}
use cra_evidence.Ledger.{newline, entry_hash}
use cra_evidence.Ledger.Parse.{
  has_name, key_in, no_dup_keys, hooks_pass, hooks_pass_items, hooks_pass_fields, key_surrogate,
  has_lone_surrogate, surrogate_items, surrogate_fields, loads, parse_line,
}

-- No key that stands again behind it.
unfoldable pub is_last : Key → Fields → Bool
is_last (name k) fs = elim (get k fs) [ none ↦ true | some v ↦ false ]
is_last (nonstr k) fs = true

-- Each key of each dict in a value stands there once.
unfoldable mutual
  unfolding is_last

  pub has_unique_keys : Value → Bool
  has_unique_keys (arr xs) = unique_items xs
  has_unique_keys (tuple xs) = unique_items xs
  has_unique_keys (obj fs) = unique_fields fs
  has_unique_keys _ = true

  pub unique_items : Items → Bool
  unique_items nil = true
  unique_items (cons v xs) = has_unique_keys v && unique_items xs

  pub unique_fields : Fields → Bool
  unique_fields end = true
  unique_fields (field k v fs) = is_last k fs && (has_unique_keys v && unique_fields fs)

-- What json and the codec document of the text of an entry: UTF-8 gives its ASCII bytes back, and json.loads gives a
-- dict `f` with each key once, which is as deep as the dict that was dumped, as clean, agrees with it in the
-- fields of the chain, and without its own hash is dumped as that dict is.
pub record ReadsBack (rt : Runtime) (e f : Fields) (text : Text) : Type 0 where
  pub decoded : rt.decode_utf8 text ≡ some text
  pub scanned : rt.scan_json text ≡ some (obj f)
  pub unique : has_unique_keys (obj f) ≡ true
  pub deep : height (obj f) ≡ height (obj e)
  pub unspoiled : clean (obj f) ≡ clean (obj e)
  pub idx : get (codes "idx") f ≡ get (codes "idx") e
  pub prev_hash : get (codes "prev_hash") f ≡ get (codes "prev_hash") e
  pub self_hash : get (codes "self_hash") f ≡ get (codes "self_hash") e
  pub dumped :
      dumps (obj (without (codes "self_hash") f)) ≡ dumps (obj (without (codes "self_hash") e))

absent-has_name : (t : Text) (fs : Fields) → get t fs ≡ none → has_name t fs ≡ false
unfolding get has_name
absent-has_name t end h = refl
absent-has_name t (field k v fs) h = elim (Bool-cases (is_name t k)) [
  | inl e ↦ let z = (rw (get, e) at h) in cc
  | inr e ↦ rw (has_name, e) (absent-has_name t fs (rw (get, e) at h))
]

is_last-key_in : (k : Key) (fs : Fields) → is_last k fs ≡ true → not (key_in k fs) ≡ true
unfolding is_last key_in
is_last-key_in (nonstr k) fs h = refl
is_last-key_in (name k) fs h =
    let a : get k fs ≡ none = ground arith in rw (absent-has_name k fs a) refl

no_dup_keys-unique_fields : (fs : Fields) → unique_fields fs ≡ true → no_dup_keys fs ≡ true
unfolding unique_fields no_dup_keys
no_dup_keys-unique_fields end h = refl
no_dup_keys-unique_fields (field k v fs) h =
    let a = (&&_iff (is_last k fs) (has_unique_keys v && unique_fields fs)).0 h in
    let b = (&&_iff (has_unique_keys v) (unique_fields fs)).0 a.1 in
    (&&_iff (not (key_in k fs)) (no_dup_keys fs)).1
      (is_last-key_in k fs a.0, no_dup_keys-unique_fields fs b.1)

-- The hooks of json.loads let a clean value with unique keys pass.
mutual
  unfolding clean clean_items clean_fields has_unique_keys unique_items unique_fields hooks_pass
      hooks_pass_items hooks_pass_fields

  hooks_pass-clean :
      (v : Value) → clean v ≡ true → has_unique_keys v ≡ true → hooks_pass false v ≡ true
  hooks_pass-clean null c u = refl
  hooks_pass-clean (bool b) c u = refl
  hooks_pass-clean (int i) c u = c
  hooks_pass-clean (float x) c u = cc
  hooks_pass-clean (str s) c u = refl
  hooks_pass-clean (arr xs) c u = hooks_pass_items-clean xs c u
  hooks_pass-clean (tuple xs) c u = hooks_pass_items-clean xs c u
  hooks_pass-clean (obj fs) c u =
      (&&_iff (no_dup_keys fs) (hooks_pass_fields false fs)).1
        (no_dup_keys-unique_fields fs u, hooks_pass_fields-clean fs c u)

  hooks_pass_items-clean :
      (xs : Items)
      → clean_items xs ≡ true
      → unique_items xs ≡ true
      → hooks_pass_items false xs ≡ true
  hooks_pass_items-clean nil c u = refl
  hooks_pass_items-clean (cons v xs) c u =
      let a = (&&_iff (clean v) (clean_items xs)).0 c in
      let b = (&&_iff (has_unique_keys v) (unique_items xs)).0 u in
      (&&_iff (hooks_pass false v) (hooks_pass_items false xs)).1
        (hooks_pass-clean v a.0 b.0, hooks_pass_items-clean xs a.1 b.1)

  hooks_pass_fields-clean :
      (fs : Fields)
      → clean_fields fs ≡ true
      → unique_fields fs ≡ true
      → hooks_pass_fields false fs ≡ true
  hooks_pass_fields-clean end c u = refl
  hooks_pass_fields-clean (field k v fs) c u =
      let a = (&&_iff (clean_key k) (clean v && clean_fields fs)).0 c in
      let a' = (&&_iff (clean v) (clean_fields fs)).0 a.1 in
      let b = (&&_iff (is_last k fs) (has_unique_keys v && unique_fields fs)).0 u in
      let b' = (&&_iff (has_unique_keys v) (unique_fields fs)).0 b.1 in
      (&&_iff (hooks_pass false v) (hooks_pass_fields false fs)).1
        (hooks_pass-clean v a'.0 b'.0, hooks_pass_fields-clean fs a'.1 b'.1)

nor : (a b : Bool) → not a ≡ true → not b ≡ true → not (a || b) ≡ true
nor a b h k = ground arith

key_surrogate-clean : (k : Key) → clean_key k ≡ true → not (key_surrogate k) ≡ true
unfolding clean_key key_surrogate
key_surrogate-clean (name k) c = c
key_surrogate-clean (nonstr k) c = refl

-- A clean value has no lone surrogate.
mutual
  unfolding clean clean_items clean_fields has_lone_surrogate surrogate_items surrogate_fields

  no_surrogate-clean : (v : Value) → clean v ≡ true → not (has_lone_surrogate v) ≡ true
  no_surrogate-clean null c = refl
  no_surrogate-clean (bool b) c = refl
  no_surrogate-clean (int i) c = refl
  no_surrogate-clean (float x) c = refl
  no_surrogate-clean (str s) c = c
  no_surrogate-clean (arr xs) c = no_surrogate_items-clean xs c
  no_surrogate-clean (tuple xs) c = refl
  no_surrogate-clean (obj fs) c = no_surrogate_fields-clean fs c

  no_surrogate_items-clean : (xs : Items) → clean_items xs ≡ true → not (surrogate_items xs) ≡ true
  no_surrogate_items-clean nil c = refl
  no_surrogate_items-clean (cons v xs) c =
      let a = (&&_iff (clean v) (clean_items xs)).0 c in
      nor (has_lone_surrogate v) (surrogate_items xs) (no_surrogate-clean v a.0)
        (no_surrogate_items-clean xs a.1)

  no_surrogate_fields-clean :
      (fs : Fields) → clean_fields fs ≡ true → not (surrogate_fields fs) ≡ true
  no_surrogate_fields-clean end c = refl
  no_surrogate_fields-clean (field k v fs) c =
      let a = (&&_iff (clean_key k) (clean v && clean_fields fs)).0 c in
      let b = (&&_iff (clean v) (clean_fields fs)).0 a.1 in
      nor (key_surrogate k) (has_lone_surrogate v || surrogate_fields fs)
        (key_surrogate-clean k a.0)
        (nor (has_lone_surrogate v) (surrogate_fields fs) (no_surrogate-clean v b.0)
          (no_surrogate_fields-clean fs b.1))

step-newline : (s : Scan) → (step s newline).best ≡ s.best
unfolding step
step-newline s = ground arith

foldl-newline :
    (s : Scan) (t : Text) → (foldl step s (t ++ newline ∷ [])).best ≡ (foldl step s t).best
foldl-newline s [] = step-newline s
foldl-newline s (c ∷ t) = foldl-newline (step s c) t

-- The newline of a line does not nest.
pub nesting_depth-newline : (t : Text) → nesting_depth (t ++ newline ∷ []) ≡ nesting_depth t
unfolding nesting_depth
nesting_depth-newline t = foldl-newline start t

pub parse_line-scanned :
    (rt : Runtime) (t : Text) (v : Value)
    → nesting_depth t ≤ max_depth
    → rt.scan_json t ≡ some v
    → clean v ≡ true
    → has_unique_keys v ≡ true
    → parse_line rt t false ≡ ok v
unfolding parse_line loads
parse_line-scanned rt t v n s c u =
    let l : leb (nesting_depth t) max_depth ≡ true = ground (arith, n) in
    rw (parse_line, l, s, loads, hooks_pass-clean v c u, no_surrogate-clean v c) refl

without-clean :
    (k : Text) (fs : Fields) → clean_fields fs ≡ true → clean_fields (without k fs) ≡ true
unfolding clean_fields without
without-clean k end c = refl
without-clean k (field j v fs) c =
    let a = (&&_iff (clean_key j) (clean v && clean_fields fs)).0 c in
    let b = (&&_iff (clean v) (clean_fields fs)).0 a.1 in
    let ih = without-clean k fs b.1 in
    elim (Bool-cases (is_name k j)) [
      | inl e ↦ rw (without, e) ih
      | inr e ↦
          rw (without, e)
            ((&&_iff (clean_key j) (clean v && clean_fields (without k fs))).1
              (a.0, (&&_iff (clean v) (clean_fields (without k fs))).1 (b.0, ih)))
    ]

height-without : (k : Text) (fs : Fields) → height_fields (without k fs) ≤ height_fields fs
unfolding height_fields without
height-without k end = omega arith
height-without k (field j v fs) =
    let ih = height-without k fs in
    elim (Bool-cases (is_name k j)) [
      | inl e ↦ rw (without, e) (omega (arith, ih))
      | inr e ↦ rw (without, e) (omega (arith, ih))
    ]

-- The hash of a clean dict that is not too deep is that of its text.
entry_hash-clean :
    (rt : Runtime) (fs : Fields)
    → height (obj fs) ≤ max_depth
    → clean (obj fs) ≡ true
    → entry_hash rt fs ≡ ok (rt.sha256 (dumps (obj (without (codes "self_hash") fs))))
unfolding entry_hash canonical_bytes height clean
entry_hash-clean rt fs h c =
    let k = codes "self_hash" in
    let a =
      (refuse_floats_iff 0 (obj (without k fs))).1
        (omega (arith, height-without k fs, h), without-clean k fs c) in
    rw (entry_hash, canonical_bytes, a) refl

module _ (rt : Runtime) (e f : Fields) (text : Text) (back : ReadsBack rt e f text)
    (encoded : canonical_bytes (obj e) ≡ ok text) where
  -- `parse_line` accepts the text, if that does not nest too deep, and
  pub ReadsBack-parse_line : nesting_depth text ≤ max_depth → parse_line rt text false ≡ ok (obj f)
  ReadsBack-parse_line n =
      let c = canonical_bytes-ok (obj e) text encoded in
      parse_line-scanned rt text (obj f) n back.scanned (back.unspoiled ∙ c.1) back.unique

  -- the dict that was read has the hash of the one that was written.
  pub ReadsBack-entry_hash : entry_hash rt f ≡ entry_hash rt e
  ReadsBack-entry_hash =
      let c = canonical_bytes-ok (obj e) text encoded in
      let d : height (obj f) ≤ max_depth = omega (arith, back.deep, c.0) in
      let d' : height (obj e) ≤ max_depth = omega (arith, c.0) in
      entry_hash-clean rt f d (back.unspoiled ∙ c.1)
      ∙ ap (λ x. ok (rt.sha256 x)) back.dumped
      ∙ sym (entry_hash-clean rt e d' c.1)
