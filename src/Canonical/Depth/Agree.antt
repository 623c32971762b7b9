-- ===== src/Canonical/Depth/Agree.antt =====
-- The depth that `nesting_depth` finds in a canonical text is the nesting of the value.
use mathlib.Core.List.{foldl, foldl-append}
use cra_evidence.Prelude.{
  ℕ, suc, ◌+◌, ◌≤◌, ◌≡◌, refl, Text, true, false, List, [], ◌∷◌, ◌++◌, arith, max, ◌∙◌, ap, &&_iff,
  ok, ◌&&◌, bind-ok,
}
use cra_evidence.Json.{
  Value, null, bool, int, float, str, arr, tuple, obj, Items, nil, cons, Fields, end, field,
}
use cra_evidence.Canonical.{refuse_floats, max_depth}
use cra_evidence.Canonical.Accept.{
  clean, clean_items, clean_fields, clean_key, height, height_items, height_fields,
  refuse_floats_iff,
}
use cra_evidence.Canonical.Encode.{
  dumps, dumps_items, dumps_fields, join, join_members, sort, canonical_bytes,
}
use cra_evidence.Canonical.Depth.{step, nesting_depth}
use cra_evidence.Canonical.Depth.Brackets.{
  at, Goes, at-eq, fold-cons, encode_str-Goes, repr-outside, nesting_depth-Goes, brackets,
  brackets_items, brackets_fields,
}
use cra_evidence.Canonical.Depth.Members.{AllGo, peak, join-Goes, MembersGo, members-Goes}

-- A pair of brackets round a text.
abbrev Opens : ℕ → Type 0
Opens c = (d b : ℕ) → step (at d b) c ≡ at (suc d) (max b (suc d))

abbrev Closes : ℕ → Type 0
Closes c = (d b : ℕ) → step (at (suc d) b) c ≡ at d b

Goes-wrap :
    (o c h : ℕ) (t : Text) → Opens o → Closes c → Goes t h → Goes (o ∷ (t ++ c ∷ [])) (suc h)
Goes-wrap o c h t p q g d b k =
    fold-cons (at d b) (at (suc d) (max b (suc d))) o (t ++ c ∷ []) (p d b)
    ∙ rw foldl-append (
        rw (g (suc d) (max b (suc d)) (omega arith)) (
          q d (max (max b (suc d)) (suc d + h))
          ∙ at-eq d (max (max b (suc d)) (suc d + h)) (max b (d + suc h)) (omega arith)))

open_list : Opens b'['
unfolding step
open_list d b = ground arith

open_dict : Opens b'{'
unfolding step
open_dict d b = ground arith

close_list : Closes b']'
unfolding step
close_list d b = refl

close_dict : Closes b'}'
unfolding step
close_dict d b = refl

Goes-zero : (t : Text) → ((d b : ℕ) → foldl step (at d b) t ≡ at d b) → Goes t 0
Goes-zero t e d b h = e d b ∙ at-eq d b (max b (d + 0)) (omega arith)

depths : Items → List ℕ
depths nil = []
depths (cons v xs) = brackets v ∷ depths xs

peak-depths : (xs : Items) → peak (depths xs) ≡ brackets_items xs
unfolding depths brackets_items
peak-depths nil = refl
peak-depths (cons v xs) = rw (peak-depths xs)

mutual
  unfolding dumps dumps_items dumps_fields brackets brackets_items brackets_fields clean clean_items
      clean_fields clean_key depths step

  dumps-Goes : (v : Value) → clean v ≡ true → Goes (dumps v) (brackets v)
  dumps-Goes null c = Goes-zero (dumps null) (λ d b. refl)
  dumps-Goes (bool true) c = Goes-zero (dumps (bool true)) (λ d b. refl)
  dumps-Goes (bool false) c = Goes-zero (dumps (bool false)) (λ d b. refl)
  dumps-Goes (int i) c = Goes-zero (dumps (int i)) (repr-outside i)
  dumps-Goes (float f) c = cc
  dumps-Goes (str s) c = encode_str-Goes s
  dumps-Goes (arr xs) c =
      Goes-wrap b'[' b']' (brackets_items xs) (join (dumps_items xs)) open_list close_list
        (rw (← peak-depths xs) (join-Goes (dumps_items xs) (depths xs) (items-go xs c)))
  dumps-Goes (tuple xs) c =
      Goes-wrap b'[' b']' (brackets_items xs) (join (dumps_items xs)) open_list close_list
        (rw (← peak-depths xs) (join-Goes (dumps_items xs) (depths xs) (items-go xs c)))
  dumps-Goes (obj fs) c =
      Goes-wrap b'{' b'}' (brackets_fields fs) (join_members (sort (dumps_fields fs))) open_dict
        close_dict (members-Goes (dumps_fields fs) (brackets_fields fs) (fields-go fs c))

  items-go : (xs : Items) → clean_items xs ≡ true → AllGo (dumps_items xs) (depths xs)
  items-go nil c = tt
  items-go (cons v xs) c =
      let p = (&&_iff (clean v) (clean_items xs)).0 c in (dumps-Goes v p.0, items-go xs p.1)

  fields-go :
      (fs : Fields) → clean_fields fs ≡ true → MembersGo (dumps_fields fs) (brackets_fields fs)
  fields-go end c = refl
  fields-go (field k v fs) c =
      let p = (&&_iff (clean_key k) (clean v && clean_fields fs)).0 c in
      let q = (&&_iff (clean v) (clean_fields fs)).0 p.1 in
      (brackets v, brackets_fields fs, dumps-Goes v q.0, fields-go fs q.1, refl)

mutual
  unfolding brackets brackets_items brackets_fields height height_items height_fields

  brackets-le : (v : Value) → brackets v ≤ suc (height v)
  brackets-le (arr xs) = omega (arith, brackets_items-le xs)
  brackets-le (tuple xs) = omega (arith, brackets_items-le xs)
  brackets-le (obj fs) = omega (arith, brackets_fields-le fs)
  brackets-le _ = omega arith

  brackets_items-le : (xs : Items) → brackets_items xs ≤ height_items xs
  brackets_items-le nil = omega arith
  brackets_items-le (cons v xs) = omega (arith, brackets-le v, brackets_items-le xs)

  brackets_fields-le : (fs : Fields) → brackets_fields fs ≤ height_fields fs
  brackets_fields-le end = omega arith
  brackets_fields-le (field k v fs) = omega (arith, brackets-le v, brackets_fields-le fs)

pub canonical_bytes-ok :
    (v : Value) (t : Text)
    → canonical_bytes v ≡ ok t
    → (0 + height v ≤ max_depth) × (clean v ≡ true) × (dumps v ≡ t)
unfolding canonical_bytes
canonical_bytes-ok v t h =
    let (u, p, q) = bind-ok (refuse_floats 0 v) (λ _. ok (dumps v)) h in
    let r = (refuse_floats_iff 0 v).0 (unit_ok u p) in (r.0, r.1, ok_inj q)
  where
    unit_ok : (u : Unit {0}) → refuse_floats 0 v ≡ ok u → refuse_floats 0 v ≡ ok tt
    unit_ok tt e = e

    ok_inj : {x y : Text} → ok x ≡ ok y → x ≡ y
    ok_inj e = cc

-- When canonical_bytes gives a text, the pre-scan of that text finds the nesting of the value, and
-- it is at most 513, one more than the depth that `_refuse_floats` bounds.
pub nesting_depth-canonical_bytes :
    (v : Value) (t : Text)
    → canonical_bytes v ≡ ok t
    → (nesting_depth t ≡ brackets v) × (nesting_depth t ≤ 513)
nesting_depth-canonical_bytes v t h =
    let c = canonical_bytes-ok v t h in
    let g = nesting_depth-Goes (dumps v) (brackets v) (dumps-Goes v c.1) in
    let e = ap nesting_depth c.2 in (cc, omega (arith, brackets-le v, g, e, c.0))
