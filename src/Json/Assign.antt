-- ===== src/Json/Assign.antt =====
-- A dict behind `fields[k] = v`.
use cra_evidence.Prelude.{
  Text, false, none, some, Bool-cases, text_eq, text_eq→eq, text_eq_refl, ◌≡◌, refl, ◌∙◌, ap, inl,
  inr,
}
use cra_evidence.Json.{name, nonstr, Value, Fields, end, field, get, is_name, without, set_field}

pub get-set_field : (k : Text) (v : Value) (fs : Fields) → get k (set_field k v fs) ≡ some v
unfolding get set_field is_name
get-set_field k v end = rw (text_eq_refl k) refl
get-set_field k v (field (name j) w fs) = elim (Bool-cases (text_eq j k)) [
  | inl e ↦ rw (e, e) refl
  | inr e ↦ rw (e, e) (get-set_field k v fs)
]
get-set_field k v (field (nonstr j) w fs) = get-set_field k v fs

pub get-set_field-other :
    (j k : Text) (v : Value) (fs : Fields)
    → text_eq k j ≡ false
    → get j (set_field k v fs) ≡ get j fs
unfolding get set_field is_name
get-set_field-other j k v end e = rw e refl
get-set_field-other j k v (field (nonstr i) w fs) e = get-set_field-other j k v fs e
get-set_field-other j k v (field (name i) w fs) e = elim (Bool-cases (text_eq i k)) [
  | inl h ↦
      let n : text_eq i j ≡ false = ap (λ x. text_eq x j) (text_eq→eq i k h) ∙ e in rw (h, n) refl
  | inr h ↦ rw (h, get-set_field-other j k v fs e) refl
]

pub without-set_field :
    (k : Text) (v : Value) (fs : Fields) → get k fs ≡ none → without k (set_field k v fs) ≡ fs
unfolding get set_field is_name without
without-set_field k v end h = rw (text_eq_refl k) refl
without-set_field k v (field (nonstr i) w fs) h = rw (without-set_field k v fs h) refl
without-set_field k v (field (name i) w fs) h = elim (Bool-cases (text_eq i k)) [
  | inl e ↦ let q = (rw (get, e) at h) in cc
  | inr e ↦ rw (set_field, e, without, e, without-set_field k v fs (rw (get, e) at h)) refl
]
