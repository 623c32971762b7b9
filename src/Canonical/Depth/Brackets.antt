-- ===== src/Canonical/Depth/Brackets.antt =====
-- The pre-scan of a canonical text counts the nesting of the value that it encodes.
use mathlib.Core.List.{foldl, foldl-append}
use cra_evidence.Prelude.{
  ℕ, suc, ◌+◌, ◌-◌, ◌/◌, ◌%◌, ◌≢◌, ◌≤◌, ◌<◌, ◌≡◌, refl, Text, true, false, [], ◌∷◌, ◌++◌, arith,
  max, ltb, ◌∙◌, ap, Bool-cases, inl, inr, ltb→lt, zero,
}
use cra_evidence.Json.{ℤ, pos, negsuc, Value, arr, tuple, obj, Items, nil, cons, Fields, end, field}
use cra_evidence.Canonical.Encode.{
  digits, repr, hex_digit, quote, backslash, unicode_escape, escape_char, escape, encode_str,
}
use cra_evidence.Canonical.Depth.{Scan, start, step, nesting_depth}

-- Outside a string, at depth `d`; and inside one.
abbrev pub at : ℕ → ℕ → Scan
at d b = record { depth = pos d; best = b; in_str = false; esc = false }

abbrev inside : ℕ → ℕ → Scan
inside d b = record { depth = pos d; best = b; in_str = true; esc = false }

-- A text that leaves the scan where it was, but for having gone `h` levels deeper.
abbrev pub Goes : Text → ℕ → Type 0
Goes t h = (d b : ℕ) → d ≤ b → foldl step (at d b) t ≡ at d (max b (d + h))

pub nesting_depth-Goes : (t : Text) (h : ℕ) → Goes t h → nesting_depth t ≡ h
unfolding nesting_depth start
nesting_depth-Goes t h g = ap (λ (s : Scan). s.best) (g 0 0 (omega arith)) ∙ omega arith

-- Inside a string.
step-inside : (c d b : ℕ) → c ≢ 34 → c ≢ 92 → step (inside d b) c ≡ inside d b
unfolding step
step-inside c d b q s = ground arith

step-escaped : (c d b : ℕ) → step (step (inside d b) 92) c ≡ inside d b
unfolding step
step-escaped c d b = refl

hex_digit_ne : (n : ℕ) → (hex_digit (n % 16) ≢ 34) × (hex_digit (n % 16) ≢ 92)
unfolding hex_digit
hex_digit_ne n = ground arith

unicode_escape-inside : (c d b : ℕ) → foldl step (inside d b) (unicode_escape c) ≡ inside d b
unfolding unicode_escape
unicode_escape-inside c d b = rw (step-escaped b'u' d b) (hex4 (c / 4096) (c / 256) (c / 16) c)
  where
    hex1 : (n : ℕ) → step (inside d b) (hex_digit (n % 16)) ≡ inside d b
    hex1 n = step-inside (hex_digit (n % 16)) d b (hex_digit_ne n).0 (hex_digit_ne n).1

    hex4 :
        (k l m n : ℕ)
        → step
            (step
              (step (step (inside d b) (hex_digit (k % 16))) (hex_digit (l % 16)))
              (hex_digit (m % 16)))
            (hex_digit (n % 16))
          ≡ inside d b
    hex4 k l m n = rw (hex1 k, hex1 l, hex1 m, hex1 n)

escape_char-inside : (c d b : ℕ) → foldl step (inside d b) (escape_char c) ≡ inside d b
unfolding escape_char
escape_char-inside c d b = ground (
  arith,
  step-escaped quote d b,
  step-escaped backslash d b,
  step-escaped b'n' d b,
  step-escaped b'r' d b,
  step-escaped b't' d b,
  step-escaped b'f' d b,
  step-escaped b'b' d b,
  step-inside c d b,
  unicode_escape-inside c d b,
  pair,
)
  where
    pair :
        foldl step
          (inside d b)
          (unicode_escape (0xd800 + (c - 0x10000) / 1024) ++ unicode_escape (0xdc00 + c % 1024))
        ≡ inside d b
    pair = rw foldl-append (
        rw (unicode_escape-inside (0xd800 + (c - 0x10000) / 1024) d b)
          (unicode_escape-inside (0xdc00 + c % 1024) d b))

escape-inside : (s : Text) (d b : ℕ) → foldl step (inside d b) (escape s) ≡ inside d b
unfolding escape
escape-inside [] d b = refl
escape-inside (c ∷ s) d b = rw foldl-append (rw (escape_char-inside c d b) (escape-inside s d b))

pub at-eq : (d b c : ℕ) → b ≡ c → at d b ≡ at d c
at-eq d b c h = rw h

pub fold-cons :
    (s s' : Scan) (c : ℕ) (t : Text) → step s c ≡ s' → foldl step s (c ∷ t) ≡ foldl step s' t
fold-cons s s' c t e = ap (λ (z : Scan). foldl step z t) e

open_quote : (d b : ℕ) → step (at d b) quote ≡ inside d b
unfolding step
open_quote d b = refl

close_quote : (d b : ℕ) → step (inside d b) quote ≡ at d b
unfolding step
close_quote d b = refl

pub encode_str-Goes : (s : Text) → Goes (encode_str s) 0
unfolding encode_str
encode_str-Goes s d b h =
    fold-cons (at d b) (inside d b) quote (escape s ++ quote ∷ []) (open_quote d b)
    ∙ rw foldl-append
        (rw (escape-inside s d b) (close_quote d b ∙ at-eq d b (max b (d + 0)) (omega arith)))

-- Outside a string, characters that open and close nothing.
pub step-outside :
    (c d b : ℕ) → c ≢ 34 → c ≢ b'[' → c ≢ b'{' → c ≢ b']' → c ≢ b'}' → step (at d b) c ≡ at d b
unfolding step
step-outside c d b p q r s t = ground arith

step-digit : (n d b : ℕ) → n < 10 → step (at d b) (48 + n) ≡ at d b
step-digit n d b h =
    step-outside (48 + n) d b (omega arith) (omega arith) (omega arith) (omega arith) (omega arith)

digits-outside : (fuel n d b : ℕ) → foldl step (at d b) (digits fuel n) ≡ at d b
unfolding digits
digits-outside zero n d b = refl
digits-outside (suc fuel) n d b = elim (Bool-cases (ltb n 10)) [
  | inl small ↦ rw small (step-digit n d b (ltb→lt n 10 small))
  | inr large ↦ rw large (
      rw foldl-append
        (rw (digits-outside fuel (n / 10) d b) (step-digit (n % 10) d b (omega arith))))
]

pub repr-outside : (i : ℤ) (d b : ℕ) → foldl step (at d b) (repr i) ≡ at d b
unfolding repr step
repr-outside (pos n) d b = digits-outside (suc n) n d b
repr-outside (negsuc n) d b =
    rw (step-outside b'-' d b (omega arith) (omega arith) (omega arith) (omega arith) (omega arith))
      (digits-outside (suc (suc n)) (suc n) d b)

-- How deep the lists and objects of a value nest.
unfoldable mutual
  pub brackets : Value → ℕ
  brackets (arr xs) = suc (brackets_items xs)
  brackets (tuple xs) = suc (brackets_items xs)
  brackets (obj fs) = suc (brackets_fields fs)
  brackets _ = 0

  pub brackets_items : Items → ℕ
  brackets_items nil = 0
  brackets_items (cons v xs) = max (brackets v) (brackets_items xs)

  pub brackets_fields : Fields → ℕ
  brackets_fields end = 0
  brackets_fields (field k v fs) = max (brackets v) (brackets_fields fs)
