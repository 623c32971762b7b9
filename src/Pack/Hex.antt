-- ===== src/Pack/Hex.antt =====
-- The shapes of texts that cra_evidence/signing.py and verify_pack.py test: hexadecimal keys and
-- digests, and instants.
use cra_evidence.Prelude.{
  ℕ, ◌+◌, ◌-◌, ◌*◌, ◌%◌, ◌^◌, Text, Bytes, Bool, true, false, not, ◌&&◌, ◌||◌, leb, ◌==◌,
  if◌then◌else◌, List, [], ◌∷◌, Option, none, some, length, all, any, codes, text_eq, take, drop,
}
use cra_evidence.Json.{Value, str}

abbrev is_digit : ℕ → Bool
is_digit c = leb b'0' c && leb c b'9'

unfoldable pub is_hex_digit : ℕ → Bool
is_hex_digit c = is_digit c || (leb b'a' c && leb c b'f')

-- `re.compile(r"[0-9a-f]{n}").fullmatch(s)`
unfoldable pub is_hex : ℕ → Text → Bool
unfolding is_hex_digit
is_hex n s = (length s == n) && all is_hex_digit s

unfoldable pub hex_value : ℕ → ℕ
hex_value c = if leb c b'9' then c - 48 else c - 87

-- bytes.fromhex, of lower-case digits
unfoldable pub from_hex : Text → Bytes
unfolding hex_value
from_hex (a ∷ b ∷ s) = (hex_value a * 16 + hex_value b) ∷ from_hex s
from_hex _ = []

-- int.from_bytes(b, "little")
unfoldable pub little_endian : Bytes → ℕ
little_endian [] = 0
little_endian (b ∷ bs) = b + 256 * little_endian bs

-- WEAK_ED25519_KEYS
abbrev pub weak_keys : List Text
weak_keys =
    codes "0100000000000000000000000000000000000000000000000000000000000000"
    ∷ codes "ecffffffffffffffffffffffffffffffffffffffffffffffffffffffffffff7f"
    ∷ codes "0000000000000000000000000000000000000000000000000000000000000000"
    ∷ codes "0000000000000000000000000000000000000000000000000000000000000080"
    ∷ codes "26e8958fc2b227b045c3f489f2ef98f0d5dfac05d3c63339b13802886d53fc05"
    ∷ codes "c7176a703d4dd84fba3c0b760d10670f2a2053fa2c39ccc64ec7fd7792ac037a"
    ∷ codes "26e8958fc2b227b045c3f489f2ef98f0d5dfac05d3c63339b13802886d53fc85"
    ∷ codes "c7176a703d4dd84fba3c0b760d10670f2a2053fa2c39ccc64ec7fd7792ac03fa"
    ∷ codes "0100000000000000000000000000000000000000000000000000000000000080"
    ∷ codes "ecffffffffffffffffffffffffffffffffffffffffffffffffffffffffffffff"
    ∷ []

unfoldable pub weak_ed25519_key : Text → Bool
unfolding from_hex little_endian
weak_ed25519_key pub_hex =
    any (text_eq pub_hex) weak_keys
    || leb (2 ^ 255 - 19) (little_endian (from_hex pub_hex) % 2 ^ 255)

-- `_hex_ok`
unfoldable pub hex_ok : Option Value → ℕ → Bool
unfolding is_hex
hex_ok (some (str s)) n = is_hex n s
hex_ok _ n = false

-- A fixed part of INSTANT_RE: `d` stands for a digit, all else for itself; the rest of the text.
unfoldable pub match_shape : Text → Text → Option Text
match_shape [] s = some s
match_shape (p ∷ ps) [] = none
match_shape (p ∷ ps) (c ∷ s) =
    let rest = match_shape ps s in if (if p == b'd' then is_digit c else c == p) then rest else none

unfoldable pub drop_digits : Text → Text
drop_digits [] = []
drop_digits (c ∷ s) = if is_digit c then drop_digits s else c ∷ s

-- `(\.[0-9]{1,9})?`
unfoldable pub match_fraction : Text → Option Text
unfolding drop_digits
match_fraction [] = some []
match_fraction (c ∷ s) =
    let n = length s - length (drop_digits s) in
    if not (c == b'.')
    then some (c ∷ s)
    else if leb 1 n && leb n 9
    then some (drop_digits s)
    else none

is_end : Option Text → Bool
is_end (some []) = true
is_end _ = false

-- `(Z|[+-][0-9]{2}:[0-9]{2})` to the end
unfoldable pub match_zone : Text → Bool
unfolding match_shape is_end
match_zone s =
    text_eq s (codes "Z")
    || is_end (match_shape (codes "+dd:dd") s)
    || is_end (match_shape (codes "-dd:dd") s)

unfoldable pub instant_shape : Text → Bool
unfolding match_shape match_fraction match_zone
instant_shape s = elim (match_shape (codes "dddd-dd-ddTdd:dd:dd") s) [
  | none ↦ false
  | some t ↦ elim (match_fraction t) [ none ↦ false | some z ↦ match_zone z ]
]

-- int(s), of digits
unfoldable pub int_of : ℕ → Text → ℕ
int_of acc [] = acc
int_of acc (c ∷ s) = int_of (acc * 10 + (c - 48)) s

abbrev slice : ℕ → ℕ → Text → ℕ
slice from len s = int_of 0 (take len (drop from s))

pub is_leap : ℕ → Bool
is_leap y = ((y % 4 == 0) && not (y % 100 == 0)) || (y % 400 == 0)

pub month_length : ℕ → ℕ → ℕ
unfolding is_leap
month_length y m =
    if m == 2
    then (if is_leap y then 29 else 28)
    else if (m == 4) || ((m == 6) || ((m == 9) || (m == 11)))
    then 30
    else 31

unfoldable pub ends_in_z : Text → Bool
ends_in_z [] = false
ends_in_z (c ∷ []) = c == b'Z'
ends_in_z (c ∷ d ∷ s) = ends_in_z (d ∷ s)

unfoldable pub is_instant : Text → Bool
unfolding instant_shape int_of is_leap month_length ends_in_z
is_instant s =
    instant_shape s
    && (leb 1 (slice 5 2 s)
        && (leb (slice 5 2 s) 12
            && (leb 1 (slice 8 2 s)
                && (leb (slice 8 2 s) (month_length (slice 0 4 s) (slice 5 2 s))
                    && (leb (slice 11 2 s) 23
                        && (leb (slice 14 2 s) 59
                            && (leb (slice 17 2 s) 59
                                && (ends_in_z s
                                    || (leb (slice (length s - 5) 2 s) 23
                                        && leb (slice (length s - 2) 2 s) 59)))))))))
