-- ===== src/Canonical/Floats.antt =====
-- What `floatfree` of cra_evidence/canonical.py leaves.
use cra_evidence.Prelude.{
  ◌≡◌, refl, Bool, true, false, ◌&&◌, ok, ◌>>=◌, bind-ok, &&_iff, type_error, guard, guard-ok_iff,
}
use cra_evidence.Json.{
  nan, infinite, finite, name, nonstr, Value, null, bool, int, float, str, arr, tuple, obj, Items,
  nil, cons, Fields, end, field,
}
use cra_evidence.Canonical.{names_only, floatfree, floatfree_items, floatfree_fields}
use cra_evidence.Canonical.Accept.{height, height_items, height_fields}

-- A JSON tree without floats: no tuple, and every key a string.
mutual
  pub float_free : Value → Bool
  float_free (float f) = false
  float_free (tuple xs) = false
  float_free (arr xs) = float_free_items xs
  float_free (obj fs) = float_free_fields fs
  float_free _ = true

  pub float_free_items : Items → Bool
  float_free_items nil = true
  float_free_items (cons v xs) = float_free v && float_free_items xs

  pub float_free_fields : Fields → Bool
  float_free_fields end = true
  float_free_fields (field (name k) v fs) = float_free v && float_free_fields fs
  float_free_fields (field (nonstr k) v fs) = false

names_only_of_free : (fs : Fields) → float_free_fields fs ≡ true → names_only fs ≡ true
unfolding names_only float_free_fields
names_only_of_free end h = refl
names_only_of_free (field (name k) v fs) h =
    names_only_of_free fs ((&&_iff (float_free v) (float_free_fields fs)).0 h).1
names_only_of_free (field (nonstr k) v fs) h = cc

mutual
  unfolding float_free float_free_items float_free_fields floatfree floatfree_items floatfree_fields

  fixed : (v : Value) → float_free v ≡ true → floatfree v ≡ ok v
  fixed null h = refl
  fixed (bool b) h = refl
  fixed (int i) h = refl
  fixed (float f) h = cc
  fixed (str s) h = refl
  fixed (arr xs) h = rw (fixed_items xs h)
  fixed (tuple xs) h = cc
  fixed (obj fs) h = rw (names_only_of_free fs h) (rw (fixed_fields fs h))

  fixed_items : (xs : Items) → float_free_items xs ≡ true → floatfree_items xs ≡ ok xs
  fixed_items nil h = refl
  fixed_items (cons v xs) h =
      let p = (&&_iff (float_free v) (float_free_items xs)).0 h in
      rw (fixed v p.0) (rw (fixed_items xs p.1))

  fixed_fields : (fs : Fields) → float_free_fields fs ≡ true → floatfree_fields fs ≡ ok fs
  fixed_fields end h = refl
  fixed_fields (field (name k) v fs) h =
      let p = (&&_iff (float_free v) (float_free_fields fs)).0 h in
      rw (fixed v p.0) (rw (fixed_fields fs p.1))
  fixed_fields (field (nonstr k) v fs) h = cc

mutual
  unfolding float_free float_free_items float_free_fields floatfree floatfree_items floatfree_fields
      names_only height height_items height_fields

  free : (v w : Value) → floatfree v ≡ ok w → (float_free w ≡ true) × (height w ≡ height v)
  free null w h = let e : null ≡ w = cc in rw (← e) (refl, refl)
  free (bool b) w h = let e : bool b ≡ w = cc in rw (← e) (refl, refl)
  free (int i) w h = let e : int i ≡ w = cc in rw (← e) (refl, refl)
  free (float nan) w h = cc
  free (float infinite) w h = cc
  free (float (finite r)) w h = let e : str r ≡ w = cc in rw (← e) (refl, refl)
  free (str s) w h = let e : str s ≡ w = cc in rw (← e) (refl, refl)
  free (arr xs) w h =
      let (ys, p, q) = bind-ok (floatfree_items xs) (λ ys. ok (arr ys)) h in
      let e : arr ys ≡ w = cc in rw (← e) (free_items xs ys p)
  free (tuple xs) w h =
      let (ys, p, q) = bind-ok (floatfree_items xs) (λ ys. ok (arr ys)) h in
      let e : arr ys ≡ w = cc in rw (← e) (free_items xs ys p)
  free (obj fs) w h =
      let (u, g, r) =
        bind-ok (guard (names_only fs) type_error) (λ _. floatfree_fields fs >>= λ gs. ok (obj gs))
          h in
      let (gs, p, q) = bind-ok (floatfree_fields fs) (λ gs. ok (obj gs)) r in
      let e : obj gs ≡ w = cc in
      rw (← e) (free_fields fs gs ((guard-ok_iff (names_only fs) type_error).0 g) p)

  free_items :
      (xs ys : Items)
      → floatfree_items xs ≡ ok ys
      → (float_free_items ys ≡ true) × (height_items ys ≡ height_items xs)
  free_items nil ys h = let e : nil ≡ ys = cc in rw (← e) (refl, refl)
  free_items (cons v xs) ys h =
      let (w, p, q) = bind-ok (floatfree v) (λ w. floatfree_items xs >>= λ ws. ok (cons w ws)) h in
      let (ws, r, s) = bind-ok (floatfree_items xs) (λ ws. ok (cons w ws)) q in
      let e : cons w ws ≡ ys = cc in
      let a = free v w p in
      let b = free_items xs ws r in
      rw (← e) ((&&_iff (float_free w) (float_free_items ws)).1 (a.0, b.0), cc (a.1, b.1))

  free_fields :
      (fs gs : Fields)
      → names_only fs ≡ true
      → floatfree_fields fs ≡ ok gs
      → (float_free_fields gs ≡ true) × (height_fields gs ≡ height_fields fs)
  free_fields end gs n h = let e : end ≡ gs = cc in rw (← e) (refl, refl)
  free_fields (field (name k) v fs) gs n h =
      let (w, p, q) =
        bind-ok (floatfree v) (λ w. floatfree_fields fs >>= λ ws. ok (field (name k) w ws)) h in
      let (ws, r, s) = bind-ok (floatfree_fields fs) (λ ws. ok (field (name k) w ws)) q in
      let e : field (name k) w ws ≡ gs = cc in
      let a = free v w p in
      let b = free_fields fs ws n r in
      rw (← e) ((&&_iff (float_free w) (float_free_fields ws)).1 (a.0, b.0), cc (a.1, b.1))
  free_fields (field (nonstr k) v fs) gs n h = cc

-- When floatfree gives a value, that value is a JSON tree without floats, tuples or keys that are no
-- strings, it reaches as deep as the argument, and floatfree gives it back unchanged.
pub floatfree_lem :
    (v w : Value)
    → floatfree v ≡ ok w
    → (float_free w ≡ true) × (height w ≡ height v) × (floatfree w ≡ ok w)
floatfree_lem v w h = let f = free v w h in (f.0, f.1, fixed w f.0)
