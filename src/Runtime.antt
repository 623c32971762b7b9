-- ===== src/Runtime.antt =====
-- What the program takes from Python's standard library and does not implement: the digests of
-- hashlib as hexadecimal texts, the UTF-8 decoder, and the scanner of json.loads with none of its
-- hooks. In a scanned tree the items of an object are its pairs in order, twice the same key
-- included, and a float is known by its token: `finite` for a number with a fraction or an exponent,
-- `nan` and `infinite` for the constants NaN, Infinity and -Infinity.
use cra_evidence.Prelude.{Text, Bytes, Option}
use cra_evidence.Json.{Value}

pub record Runtime : Type 0 where
  pub sha256 : Bytes → Text
  pub sha3_256 : Bytes → Text
  pub decode_utf8 : Bytes → Option Text
  pub scan_json : Text → Option Value
