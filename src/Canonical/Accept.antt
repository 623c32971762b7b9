-- ===== src/Canonical/Accept.antt =====
-- What `_refuse_floats` and `floatfree` of canonical.py accept, against descriptions that do not
-- follow the code.
use cra_evidence.Prelude.{
  ℕ, suc, ◌+◌, ◌≤◌, ◌≡◌, refl, ◌↔◌, Text, Bool, true, false, ◌&&◌, not, leb, ok, raised, max, arith,
  ◌>>◌, type_error, guard, >>-ok_iff, guard-ok_iff, &&_iff,
}
use cra_evidence.Json.{
  abs, Key, name, nonstr, Value, null, bool, int, float, str, arr, tuple, obj, Items, nil, cons,
  Fields, end, field,
}
use cra_evidence.Canonical.{
  max_depth, max_safe_int, has_surrogate, shallow, refuse_text, refuse_key, refuse_floats,
  refuse_items, refuse_fields,
}

-- The deepest level that a value reaches below its own.
unfoldable mutual
  pub height : Value → ℕ
  height (arr xs) = height_items xs
  height (tuple xs) = height_items xs
  height (obj fs) = height_fields fs
  height _ = 0

  pub height_items : Items → ℕ
  height_items nil = 0
  height_items (cons v xs) = max (suc (height v)) (height_items xs)

  pub height_fields : Fields → ℕ
  height_fields end = 0
  height_fields (field k v fs) = max (suc (height v)) (height_fields fs)

-- What no depth excuses: floats, keys that are no strings, large integers, lone surrogates.
unfoldable pub clean_key : Key → Bool
clean_key (name k) = not (has_surrogate k)
clean_key (nonstr k) = false

unfoldable mutual
  unfolding clean_key

  pub clean : Value → Bool
  clean null = true
  clean (bool b) = true
  clean (int i) = leb (abs i) max_safe_int
  clean (float f) = false
  clean (str s) = not (has_surrogate s)
  clean (arr xs) = clean_items xs
  clean (tuple xs) = clean_items xs
  clean (obj fs) = clean_fields fs

  pub clean_items : Items → Bool
  clean_items nil = true
  clean_items (cons v xs) = clean v && clean_items xs

  pub clean_fields : Fields → Bool
  clean_fields end = true
  clean_fields (field k v fs) = clean_key k && (clean v && clean_fields fs)

shallow-ok_iff : (d : ℕ) → (shallow d ≡ ok tt) ↔ (d ≤ max_depth)
unfolding shallow
shallow-ok_iff d = ground arith

refuse_text-ok_iff :
    (d : ℕ) (s : Text)
    → (refuse_text d s ≡ ok tt) ↔ ((d ≤ max_depth) × (not (has_surrogate s) ≡ true))
unfolding refuse_text
refuse_text-ok_iff d s =
    let split = >>-ok_iff (shallow d) (guard (not (has_surrogate s)) type_error) in
    let text = guard-ok_iff (not (has_surrogate s)) type_error in
    (
      λ h. ((shallow-ok_iff d).0 (split.0 h).0, text.0 (split.0 h).1),
      λ h. split.1 ((shallow-ok_iff d).1 h.0, text.1 h.1),
    )

mutual
  unfolding refuse_floats refuse_items refuse_fields refuse_key height height_items height_fields
      clean clean_items clean_fields clean_key

  sound :
      (d : ℕ) (v : Value)
      → refuse_floats d v ≡ ok tt
      → (d + height v ≤ max_depth) × (clean v ≡ true)
  sound d null h = let p = (shallow-ok_iff d).0 h in (omega arith, refl)
  sound d (bool b) h = let p = (shallow-ok_iff d).0 h in (omega arith, refl)
  sound d (int i) h =
      let p = (>>-ok_iff (shallow d) (guard (leb (abs i) max_safe_int) type_error)).0 h in
      let q = (shallow-ok_iff d).0 p.0 in
      (omega arith, (guard-ok_iff (leb (abs i) max_safe_int) type_error).0 p.1)
  sound d (float f) h = absurd (cc ((>>-ok_iff (shallow d) (raised type_error)).0 h).1)
  sound d (str s) h = let p = (refuse_text-ok_iff d s).0 h in (omega arith, p.1)
  sound d (arr xs) h =
      let p = (>>-ok_iff (shallow d) (refuse_items (d + 1) xs)).0 h in
      sound_items d xs ((shallow-ok_iff d).0 p.0) p.1
  sound d (tuple xs) h =
      let p = (>>-ok_iff (shallow d) (refuse_items (d + 1) xs)).0 h in
      sound_items d xs ((shallow-ok_iff d).0 p.0) p.1
  sound d (obj fs) h =
      let p = (>>-ok_iff (shallow d) (refuse_fields (d + 1) fs)).0 h in
      sound_fields d fs ((shallow-ok_iff d).0 p.0) p.1

  sound_items :
      (d : ℕ) (xs : Items)
      → d ≤ max_depth
      → refuse_items (d + 1) xs ≡ ok tt
      → (d + height_items xs ≤ max_depth) × (clean_items xs ≡ true)
  sound_items d nil p h = (omega arith, refl)
  sound_items d (cons v xs) p h =
      let q = (>>-ok_iff (refuse_floats (d + 1) v) (refuse_items (d + 1) xs)).0 h in
      let a = sound (d + 1) v q.0 in
      let b = sound_items d xs p q.1 in
      (omega arith, (&&_iff (clean v) (clean_items xs)).1 (a.1, b.1))

  sound_fields :
      (d : ℕ) (fs : Fields)
      → d ≤ max_depth
      → refuse_fields (d + 1) fs ≡ ok tt
      → (d + height_fields fs ≤ max_depth) × (clean_fields fs ≡ true)
  sound_fields d end p h = (omega arith, refl)
  sound_fields d (field (name k) v fs) p h =
      let q =
        (>>-ok_iff (refuse_text (d + 1) k) (refuse_floats (d + 1) v >> refuse_fields (d + 1) fs)).0
          h in
      let r = (>>-ok_iff (refuse_floats (d + 1) v) (refuse_fields (d + 1) fs)).0 q.1 in
      let a = sound (d + 1) v r.0 in
      let b = sound_fields d fs p r.1 in
      let c = (refuse_text-ok_iff (d + 1) k).0 q.0 in
      (
        omega arith,
        (&&_iff (not (has_surrogate k)) (clean v && clean_fields fs)).1
            (c.1, (&&_iff (clean v) (clean_fields fs)).1 (a.1, b.1)),
      )
  sound_fields d (field (nonstr k) v fs) p h = cc

mutual
  unfolding refuse_floats refuse_items refuse_fields refuse_key height height_items height_fields
      clean clean_items clean_fields clean_key

  complete :
      (d : ℕ) (v : Value) → d + height v ≤ max_depth → clean v ≡ true → refuse_floats d v ≡ ok tt
  complete d null h c = (shallow-ok_iff d).1 (omega arith)
  complete d (bool b) h c = (shallow-ok_iff d).1 (omega arith)
  complete d (int i) h c =
      (>>-ok_iff (shallow d) (guard (leb (abs i) max_safe_int) type_error)).1 (
        (shallow-ok_iff d).1 (omega arith),
        (guard-ok_iff (leb (abs i) max_safe_int) type_error).1 c,
      )
  complete d (float f) h c = cc
  complete d (str s) h c = (refuse_text-ok_iff d s).1 (omega arith, c)
  complete d (arr xs) h c =
      (>>-ok_iff (shallow d) (refuse_items (d + 1) xs)).1
        ((shallow-ok_iff d).1 (omega arith), complete_items d xs h c)
  complete d (tuple xs) h c =
      (>>-ok_iff (shallow d) (refuse_items (d + 1) xs)).1
        ((shallow-ok_iff d).1 (omega arith), complete_items d xs h c)
  complete d (obj fs) h c =
      (>>-ok_iff (shallow d) (refuse_fields (d + 1) fs)).1
        ((shallow-ok_iff d).1 (omega arith), complete_fields d fs h c)

  complete_items :
      (d : ℕ) (xs : Items)
      → d + height_items xs ≤ max_depth
      → clean_items xs ≡ true
      → refuse_items (d + 1) xs ≡ ok tt
  complete_items d nil h c = refl
  complete_items d (cons v xs) h c =
      let b = (&&_iff (clean v) (clean_items xs)).0 c in
      (>>-ok_iff (refuse_floats (d + 1) v) (refuse_items (d + 1) xs)).1
        (complete (d + 1) v (omega arith) b.0, complete_items d xs (omega arith) b.1)

  complete_fields :
      (d : ℕ) (fs : Fields)
      → d + height_fields fs ≤ max_depth
      → clean_fields fs ≡ true
      → refuse_fields (d + 1) fs ≡ ok tt
  complete_fields d end h c = refl
  complete_fields d (field (name k) v fs) h c =
      let a = (&&_iff (not (has_surrogate k)) (clean v && clean_fields fs)).0 c in
      let b = (&&_iff (clean v) (clean_fields fs)).0 a.1 in
      (>>-ok_iff (refuse_text (d + 1) k) (refuse_floats (d + 1) v >> refuse_fields (d + 1) fs)).1 (
        (refuse_text-ok_iff (d + 1) k).1 (omega arith, a.0),
        (>>-ok_iff (refuse_floats (d + 1) v) (refuse_fields (d + 1) fs)).1
            (complete (d + 1) v (omega arith) b.0, complete_fields d fs (omega arith) b.1),
      )
  complete_fields d (field (nonstr k) v fs) h c = cc

-- `_refuse_floats`, started at a depth, lets a value through exactly when no part of it lies deeper
-- than 512 and it holds no float, no key that is not a string, no integer beyond 2^53 - 1 and no
-- lone surrogate.
pub refuse_floats_iff :
    (d : ℕ) (v : Value)
    → (refuse_floats d v ≡ ok tt) ↔ ((d + height v ≤ max_depth) × (clean v ≡ true))
refuse_floats_iff d v = (sound d v, λ h. complete d v h.0 h.1)
