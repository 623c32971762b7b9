-- ===== src/Canonical/Encode.antt =====
-- `canonical_bytes` of cra_evidence/canonical.py: json.dumps with sorted keys, the separators "," and
-- ":", ensure_ascii and no NaN, of a value that `_refuse_floats` let through.
use cra_evidence.Prelude.{
  ℕ, zero, suc, ◌+◌, ◌-◌, ◌/◌, ◌%◌, Text, Bool, true, false, ◌&&◌, ltb, leb, ◌==◌, if◌then◌else◌,
  List, [], ◌∷◌, ◌++◌, codes, Result, ok, ◌>>◌,
}
use Prim.Native.Nat.{compare, Ordering}
use cra_evidence.Json.{
  Float, nan, infinite, finite, ℤ, pos, negsuc, Key, name, nonstr, Value, null, bool, int, float,
  str, arr, tuple, obj, Items, nil, cons, Fields, end, field,
}
use cra_evidence.Canonical.{refuse_floats}

abbrev pub quote : ℕ
quote = 34

abbrev pub backslash : ℕ
backslash = 92

-- The decimal digits of a number, on fuel above it.
unfoldable pub digits : ℕ → ℕ → Text
digits zero n = []
digits (suc fuel) n =
    let more = digits fuel (n / 10) in
    if ltb n 10 then (48 + n) ∷ [] else more ++ (48 + n % 10) ∷ []

-- int.__repr__
unfoldable pub repr : ℤ → Text
unfolding digits
repr (pos n) = digits (suc n) n
repr (negsuc n) = b'-' ∷ digits (suc (suc n)) (suc n)

unfoldable pub hex_digit : ℕ → ℕ
hex_digit n = if ltb n 10 then 48 + n else 87 + n

-- "\\u{0:04x}"
unfoldable pub unicode_escape : ℕ → Text
unfolding hex_digit
unicode_escape c =
    backslash
    ∷ b'u'
    ∷ hex_digit (c / 4096 % 16)
    ∷ hex_digit (c / 256 % 16)
    ∷ hex_digit (c / 16 % 16)
    ∷ hex_digit (c % 16)
    ∷ []

-- One character of a string under ensure_ascii; beyond U+FFFF, a surrogate pair.
unfoldable pub escape_char : ℕ → Text
unfolding unicode_escape
escape_char c =
    if c == quote
    then backslash ∷ quote ∷ []
    else if c == backslash
    then backslash ∷ backslash ∷ []
    else if leb 32 c && leb c 126
    then c ∷ []
    else if c == 10
    then backslash ∷ b'n' ∷ []
    else if c == 13
    then backslash ∷ b'r' ∷ []
    else if c == 9
    then backslash ∷ b't' ∷ []
    else if c == 12
    then backslash ∷ b'f' ∷ []
    else if c == 8
    then backslash ∷ b'b' ∷ []
    else if leb c 0xffff
    then unicode_escape c
    else unicode_escape (0xd800 + (c - 0x10000) / 1024) ++ unicode_escape (0xdc00 + c % 1024)

unfoldable pub escape : Text → Text
escape [] = []
escape (c ∷ s) = escape_char c ++ escape s

unfoldable pub encode_str : Text → Text
unfolding escape
encode_str s = quote ∷ (escape s ++ quote ∷ [])

-- `<` of Python's str
unfoldable pub text_lt : Text → Text → Bool
text_lt s [] = false
text_lt [] (y ∷ t) = true
text_lt (x ∷ s) (y ∷ t) = elim (compare x y) [
  | Ordering.lt ↦ true
  | Ordering.eq ↦ text_lt s t
  | Ordering.gt ↦ false
]

-- sorted(d.items()), with each value encoded; the keys of a dict are different from one another
unfoldable pub insert : Text × Text → List (Text × Text) → List (Text × Text)
unfolding text_lt
insert p [] = p ∷ []
insert p (q ∷ qs) = let rest = insert p qs in if text_lt q.0 p.0 then q ∷ rest else p ∷ q ∷ qs

unfoldable pub sort : List (Text × Text) → List (Text × Text)
unfolding insert
sort [] = []
sort (p ∷ ps) = insert p (sort ps)

unfoldable pub member : Text × Text → Text
unfolding encode_str
member p = encode_str p.0 ++ b':' ∷ p.1

-- ",".join
unfoldable pub join_members : List (Text × Text) → Text
unfolding member
join_members [] = []
join_members (p ∷ []) = member p
join_members (p ∷ q ∷ ps) = member p ++ b',' ∷ join_members (q ∷ ps)

unfoldable pub join : List Text → Text
join [] = []
join (t ∷ []) = t
join (t ∷ u ∷ ts) = t ++ b',' ∷ join (u ∷ ts)

-- A key that is no string and a float are refused before; json.dumps would print their `repr`.
unfoldable pub key_text : Key → Text
key_text (name k) = k
key_text (nonstr k) = k

unfoldable pub float_text : Float → Text
float_text nan = codes "NaN"
float_text infinite = codes "Infinity"
float_text (finite r) = r

unfoldable mutual
  unfolding repr encode_str sort join_members join key_text float_text

  pub dumps : Value → Text
  dumps null = codes "null"
  dumps (bool true) = codes "true"
  dumps (bool false) = codes "false"
  dumps (int i) = repr i
  dumps (float f) = float_text f
  dumps (str s) = encode_str s
  dumps (arr xs) = b'[' ∷ (join (dumps_items xs) ++ b']' ∷ [])
  dumps (tuple xs) = b'[' ∷ (join (dumps_items xs) ++ b']' ∷ [])
  dumps (obj fs) = b'{' ∷ (join_members (sort (dumps_fields fs)) ++ b'}' ∷ [])

  pub dumps_items : Items → List Text
  dumps_items nil = []
  dumps_items (cons v xs) = dumps v ∷ dumps_items xs

  pub dumps_fields : Fields → List (Text × Text)
  dumps_fields end = []
  dumps_fields (field k v fs) = (key_text k, dumps v) ∷ dumps_fields fs

-- The text is ASCII, so its code points are its UTF-8 bytes.
unfoldable pub canonical_bytes : Value → Result Text
unfolding refuse_floats dumps
canonical_bytes v = do refuse_floats 0 v; ok (dumps v)
