-- ===== src/Prelude/Value.antt =====
-- JSON-like Python values (`dict[str, Any]`, `Any`). A float is kept as the text that denotes it.
use Prim.Native.String.{String}
use mathlib.Core.Bool.{Bool, true, false, not, ◌||◌}
use mathlib.Core.Option.{Option, none, some}
use mathlib.Core.List.{List, [], ◌∷◌}
use mathlib.Core.Path.{◌≡◌}
use native.Mathlib.Omega.{arith}
use text.Mathlib.TextEquality.{eq_iff}
use text.Mathlib.Text.{◌==◌ as str_eq}
use neuronium.Prelude.Tests.{if◌then◌else◌, or_else}
use neuronium.Prelude.Int.{ℤ, is_zero}

mutual
  -- a dict, in insertion order
  pub data Fields : Type 0 where
    end : Fields
    field : String → Value → Fields → Fields

  pub data Value : Type 0 where
    null : Value
    bool : Bool → Value
    int : ℤ → Value
    float : String → Value
    str : String → Value
    arr : Items → Value
    obj : Fields → Value

  -- a list
  pub data Items : Type 0 where
    nil : Items
    cons : Value → Items → Items

-- `list(xs)`
unfoldable pub items : Items → List Value
items nil = []
items (cons v xs) = v ∷ items xs

unfoldable pub of_items : List Value → Items
of_items [] = nil
of_items (v ∷ xs) = cons v (of_items xs)

-- `d.get(k)`, with `none` for a missing key
unfoldable pub get_field : String → Fields → Option Value
get_field k end = none
get_field k (field j v fs) = if str_eq j k then some v else get_field k fs

-- `d[k] = v`
unfoldable pub put_field : String → Value → Fields → Fields
put_field k v end = field k v end
put_field k v (field j w fs) = if str_eq j k then field j v fs else field j w (put_field k v fs)

-- `del d[k]`, for a key that is there
unfoldable pub drop_field : String → Fields → Fields
drop_field k end = end
drop_field k (field j w fs) = if str_eq j k then fs else field j w (drop_field k fs)

-- `bool(v)`
abbrev pub truthy : Value → Bool
truthy null = false
truthy (bool b) = b
truthy (int z) = not (is_zero z)
truthy (float t) = not (str_eq t "0.0" || str_eq t "-0.0")
truthy (str s) = not (str_eq s "")
truthy (arr nil) = false
truthy (arr (cons v xs)) = true
truthy (obj end) = false
truthy (obj (field k v fs)) = true

-- `d.update(e)`
unfoldable pub update_fields : Fields → Fields → Fields
update_fields d end = d
update_fields d (field k v e) = update_fields (put_field k v d) e

-- `d.get(k, default)`
abbrev pub get_value : String → Value → Fields → Value
get_value key default fs = or_else (get_field key fs) default

-- `v is None`
abbrev pub is_null : Value → Bool
is_null null = true
is_null v = false

pub get_field-put_field :
    (k j : String) (v : Value) (fs : Fields)
    → get_field j (put_field k v fs) ≡ (if str_eq k j then some v else get_field j fs)
unfolding get_field put_field
get_field-put_field k j v end = ground arith
get_field-put_field k j v (field i w fs) =
    ground (arith, eq_iff k j, eq_iff i k, eq_iff i j, get_field-put_field k j v fs)
