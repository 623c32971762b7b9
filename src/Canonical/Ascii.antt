-- ===== src/Canonical/Ascii.antt =====
-- The texts that `canonical_bytes` of cra_evidence/canonical.py gives are printable ASCII.
use cra_evidence.Prelude.{
  ℕ, zero, suc, ◌+◌, ◌-◌, ◌/◌, ◌%◌, ◌≤◌, ◌≡◌, refl, Text, Bool, true, false, List, [], ◌∷◌, ◌++◌,
  arith, All, Bool-cases, inl, inr, ltb, ltb→lt, &&_iff, ◌&&◌, ok, if◌then◌else◌, leb, ◌==◌,
}
use cra_evidence.Json.{
  ℤ, pos, negsuc, Value, null, bool, int, float, str, arr, tuple, obj, Items, nil, cons, Fields,
  end, field,
}
use cra_evidence.Canonical.Accept.{clean, clean_items, clean_fields, clean_key}
use cra_evidence.Canonical.Encode.{
  digits, repr, hex_digit, unicode_escape, escape_char, escape, encode_str, insert, sort, member,
  join_members, join, dumps, dumps_items, dumps_fields, text_lt, canonical_bytes, quote, backslash,
}
use cra_evidence.Canonical.Depth.Agree.{canonical_bytes-ok}

abbrev pub Printable : ℕ → Type 0
Printable c = (32 ≤ c) × (c ≤ 126)

abbrev pub Ascii : Text → Type 0
Ascii t = All Printable t

Ascii-append : (s t : Text) → Ascii s → Ascii t → Ascii (s ++ t)
Ascii-append [] t a b = b
Ascii-append (c ∷ s) t a b = (a.0, Ascii-append s t a.1 b)

digits-Ascii : (fuel n : ℕ) → Ascii (digits fuel n)
unfolding digits
digits-Ascii zero n = tt
digits-Ascii (suc fuel) n = elim (Bool-cases (ltb n 10)) [
  | inl small ↦ let p = ltb→lt n 10 small in rw small (omega arith)
  | inr large ↦ rw large (
      Ascii-append (digits fuel (n / 10)) ((48 + n % 10) ∷ []) (digits-Ascii fuel (n / 10))
        (omega arith))
]

repr-Ascii : (i : ℤ) → Ascii (repr i)
unfolding repr
repr-Ascii (pos n) = digits-Ascii (suc n) n
repr-Ascii (negsuc n) = (omega arith, digits-Ascii (suc (suc n)) (suc n))

hex_digit-Printable : (n : ℕ) → Printable (hex_digit (n % 16))
unfolding hex_digit
hex_digit-Printable n = ground arith

unicode_escape-Ascii : (c : ℕ) → Ascii (unicode_escape c)
unfolding unicode_escape
unicode_escape-Ascii c = (
  omega arith,
  (
    omega arith,
    (
      hex_digit-Printable (c / 4096),
      (hex_digit-Printable (c / 256), (hex_digit-Printable (c / 16), (hex_digit-Printable c, tt))),
    ),
  ),
)

if-Ascii : (b : Bool) (s t : Text) → (b ≡ true → Ascii s) → Ascii t → Ascii (if b then s else t)
if-Ascii true s t p q = p refl
if-Ascii false s t p q = q

in_range : (c : ℕ) → (leb 32 c && leb c 126) ≡ true → Ascii (c ∷ [])
in_range c h = ground arith

escape_char-Ascii : (c : ℕ) → Ascii (escape_char c)
unfolding escape_char
escape_char-Ascii c =
    if-Ascii (c == quote) _ _ (λ _. omega arith)
      (if-Ascii (c == backslash) _ _ (λ _. omega arith)
        (if-Ascii (leb 32 c && leb c 126) _ _ (in_range c) (
          if-Ascii (c == 10) _ _ (λ _. omega arith)
            (if-Ascii (c == 13) _ _ (λ _. omega arith)
              (if-Ascii (c == 9) _ _ (λ _. omega arith)
                (if-Ascii (c == 12) _ _ (λ _. omega arith)
                  (if-Ascii (c == 8) _ _ (λ _. omega arith)
                    (if-Ascii (leb c 0xffff) _ _ (λ _. unicode_escape-Ascii c)
                      (Ascii-append (unicode_escape (0xd800 + (c - 0x10000) / 1024))
                        (unicode_escape (0xdc00 + c % 1024))
                        (unicode_escape-Ascii (0xd800 + (c - 0x10000) / 1024))
                        (unicode_escape-Ascii (0xdc00 + c % 1024)))))))))))

escape-Ascii : (s : Text) → Ascii (escape s)
unfolding escape
escape-Ascii [] = tt
escape-Ascii (c ∷ s) =
    Ascii-append (escape_char c) (escape s) (escape_char-Ascii c) (escape-Ascii s)

pub encode_str-Ascii : (s : Text) → Ascii (encode_str s)
unfolding encode_str
encode_str-Ascii s =
    (omega arith, Ascii-append (escape s) (quote ∷ []) (escape-Ascii s) (omega arith))

join-Ascii : (ts : List Text) → All Ascii ts → Ascii (join ts)
unfolding join
join-Ascii [] a = tt
join-Ascii (t ∷ []) a = a.0
join-Ascii (t ∷ u ∷ ts) a =
    Ascii-append t (b',' ∷ join (u ∷ ts)) a.0 (omega arith, join-Ascii (u ∷ ts) a.1)

-- Every encoded value among the members is ASCII.
abbrev Values : List (Text × Text) → Type 0
Values ps = All (λ (p : Text × Text). Ascii p.1) ps

member-Ascii : (p : Text × Text) → Ascii p.1 → Ascii (member p)
unfolding member
member-Ascii p a =
    Ascii-append (encode_str p.0) (b':' ∷ p.1) (encode_str-Ascii p.0) (omega arith, a)

join_members-Ascii : (ps : List (Text × Text)) → Values ps → Ascii (join_members ps)
unfolding join_members
join_members-Ascii [] a = tt
join_members-Ascii (p ∷ []) a = member-Ascii p a.0
join_members-Ascii (p ∷ q ∷ ps) a =
    Ascii-append (member p) (b',' ∷ join_members (q ∷ ps)) (member-Ascii p a.0)
      (omega arith, join_members-Ascii (q ∷ ps) a.1)

insert-Values :
    (p : Text × Text) (ps : List (Text × Text)) → Ascii p.1 → Values ps → Values (insert p ps)
unfolding insert
insert-Values p [] a b = (a, tt)
insert-Values p (q ∷ qs) a b = elim (Bool-cases (text_lt q.0 p.0)) [
  | inl before ↦ rw before (b.0, insert-Values p qs a b.1)
  | inr after ↦ rw after (a, b)
]

sort-Values : (ps : List (Text × Text)) → Values ps → Values (sort ps)
unfolding sort
sort-Values [] a = tt
sort-Values (p ∷ ps) a = insert-Values p (sort ps) a.0 (sort-Values ps a.1)

mutual
  unfolding dumps dumps_items dumps_fields clean clean_items clean_fields

  dumps-Ascii : (v : Value) → clean v ≡ true → Ascii (dumps v)
  dumps-Ascii null c = omega arith
  dumps-Ascii (bool true) c = omega arith
  dumps-Ascii (bool false) c = omega arith
  dumps-Ascii (int i) c = repr-Ascii i
  dumps-Ascii (float f) c = cc
  dumps-Ascii (str s) c = encode_str-Ascii s
  dumps-Ascii (arr xs) c = (
    omega arith,
    Ascii-append (join (dumps_items xs)) (b']' ∷ [])
        (join-Ascii (dumps_items xs) (items-Ascii xs c)) (omega arith),
  )
  dumps-Ascii (tuple xs) c = (
    omega arith,
    Ascii-append (join (dumps_items xs)) (b']' ∷ [])
        (join-Ascii (dumps_items xs) (items-Ascii xs c)) (omega arith),
  )
  dumps-Ascii (obj fs) c = (
    omega arith,
    Ascii-append (join_members (sort (dumps_fields fs))) (b'}' ∷ [])
        (join_members-Ascii (sort (dumps_fields fs))
          (sort-Values (dumps_fields fs) (fields-Ascii fs c)))
        (omega arith),
  )

  items-Ascii : (xs : Items) → clean_items xs ≡ true → All Ascii (dumps_items xs)
  items-Ascii nil c = tt
  items-Ascii (cons v xs) c =
      let p = (&&_iff (clean v) (clean_items xs)).0 c in (dumps-Ascii v p.0, items-Ascii xs p.1)

  fields-Ascii : (fs : Fields) → clean_fields fs ≡ true → Values (dumps_fields fs)
  fields-Ascii end c = tt
  fields-Ascii (field k v fs) c =
      let p = (&&_iff (clean_key k) (clean v && clean_fields fs)).0 c in
      let q = (&&_iff (clean v) (clean_fields fs)).0 p.1 in (dumps-Ascii v q.0, fields-Ascii fs q.1)

-- Every character of a text that canonical_bytes gives lies between the space and the tilde.
pub canonical_bytes-Ascii : (v : Value) (t : Text) → canonical_bytes v ≡ ok t → Ascii t
canonical_bytes-Ascii v t h = let c = canonical_bytes-ok v t h in rw c.2 at (dumps-Ascii v c.1)
