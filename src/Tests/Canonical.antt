-- ===== src/Tests/Canonical.antt =====
-- canonical.py at concrete values.
use cra_evidence.Prelude.{◌+◌, ◌≤◌, ◌≡◌, ◌↔◌, refl, true, codes, ok, raised, type_error, Text}
use cra_evidence.Json.{
  pos, negsuc, name, Value, int, str, float, finite, arr, tuple, obj, nil, cons, end, field,
}
use cra_evidence.Canonical.{max_depth, floatfree, names_only, refuse_floats}
use cra_evidence.Canonical.Accept.{height, clean, refuse_floats_iff}
use cra_evidence.Canonical.Ascii.{Ascii, canonical_bytes-Ascii}
use cra_evidence.Canonical.Depth.{nesting_depth}
use cra_evidence.Canonical.Depth.Brackets.{brackets}
use cra_evidence.Canonical.Depth.Agree.{nesting_depth-canonical_bytes}
use cra_evidence.Canonical.Encode.{canonical_bytes, escape_char}
use cra_evidence.Canonical.Floats.{float_free, floatfree_lem}

-- {"b": [1, -2], "a": "x[\"\\"}
abbrev sample : Value
sample = obj (
    field (name (codes "b")) (arr (cons (int (pos 1)) (cons (int (negsuc 1)) nil)))
      (field (name (codes "a")) (str (codes "x[\"\\")) end))

abbrev sample_text : Text
sample_text = codes "{\"a\":\"x[\\\"\\\\\",\"b\":[1,-2]}"

sample_bytes : canonical_bytes sample ≡ ok sample_text
unfolding canonical_bytes escape_char
sample_bytes = refl

nesting_depth-canonical_bytes_example :
    (nesting_depth sample_text ≡ brackets sample) × (nesting_depth sample_text ≤ 513)
nesting_depth-canonical_bytes_example =
    nesting_depth-canonical_bytes sample sample_text sample_bytes

canonical_bytes-Ascii_example : Ascii sample_text
canonical_bytes-Ascii_example = canonical_bytes-Ascii sample sample_text sample_bytes

refuse_floats_iff_example :
    (refuse_floats 511 sample ≡ ok tt) ↔ ((511 + height sample ≤ max_depth) × (clean sample ≡ true))
refuse_floats_iff_example = refuse_floats_iff 511 sample

-- A tuple of a float and an object.
abbrev floaty : Value
floaty = tuple (cons (float (finite (codes "1.5"))) (cons (obj end) nil))

abbrev unfloated : Value
unfloated = arr (cons (str (codes "1.5")) (cons (obj end) nil))

floatfree_run : floatfree floaty ≡ ok unfloated
unfolding floatfree names_only
floatfree_run = refl

floatfree_lem_example :
    (float_free unfloated ≡ true)
    × (height unfloated ≡ height floaty)
    × (floatfree unfloated ≡ ok unfloated)
floatfree_lem_example = floatfree_lem floaty unfloated floatfree_run

float_refused : refuse_floats 0 floaty ≡ raised type_error
unfolding refuse_floats
float_refused = refl

stray_brackets : nesting_depth (codes "]][[") ≡ 0
unfolding nesting_depth
stray_brackets = refl
