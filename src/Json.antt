-- ===== src/Json.antt =====
-- The values that canonical.py serialises and that json.loads gives.
pub mod Assign
use cra_evidence.Prelude.{ℕ, suc, Text, Bool, false, Option, none, some, text_eq, if◌then◌else◌}

-- A float is known by its `repr`; NaN and the infinities are told apart.
pub data Float : Type 0 where
  nan : Float
  infinite : Float
  finite : Text → Float

-- `negsuc n` is -(n + 1).
pub data ℤ : Type 0 where
  pos : ℕ → ℤ
  negsuc : ℕ → ℤ

abbrev pub abs : ℤ → ℕ
abs (pos n) = n
abs (negsuc n) = suc n

-- A Python dict may have keys that are no strings; they are known by their `repr`.
pub data Key : Type 0 where
  name : Text → Key
  nonstr : Text → Key

-- A dict lists its items in insertion order.
mutual
  pub data Value : Type 0 where
    null : Value
    bool : Bool → Value
    int : ℤ → Value
    float : Float → Value
    str : Text → Value
    arr : Items → Value
    tuple : Items → Value
    obj : Fields → Value

  pub data Items : Type 0 where
    nil : Items
    cons : Value → Items → Items

  pub data Fields : Type 0 where
    end : Fields
    field : Key → Value → Fields → Fields

unfoldable pub is_name : Text → Key → Bool
is_name t (name k) = text_eq k t
is_name t (nonstr k) = false

-- d.get(k), with `none` for a missing key
unfoldable pub get : Text → Fields → Option Value
unfolding is_name
get t end = none
get t (field k v fs) = if is_name t k then some v else get t fs

-- {k: v for k, v in d.items() if k != t}
unfoldable pub without : Text → Fields → Fields
unfolding is_name
without t end = end
without t (field k v fs) = let rest = without t fs in if is_name t k then rest else field k v rest

-- `fields[k] = v`
unfoldable pub set_field : Text → Value → Fields → Fields
unfolding is_name
set_field k v end = field (name k) v end
set_field k v (field j w fs) =
    let rest = set_field k v fs in if is_name k j then field j v fs else field j w rest
