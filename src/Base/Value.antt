-- ===== src/Base/Value.antt =====
-- The dynamic values that the provider receives from JSON documents, callers and the host.
use Prim.Native.String.{String}
use mathlib.Core.Bool.{Bool, false, ◌||◌}
use mathlib.Core.Option.{Option, none, some}
use hermes_cashew.Base.Tests.{if◌then◌else◌}
use hermes_cashew.Base.Int.{ℤ}
use text.Mathlib.Text.{◌==◌ as str_eq}

-- A double is one of the three special values or a multiple of 2 ^ -1074, the least positive one:
-- `finite z` is z * 2 ^ -1074, which is exact for every finite double.
pub data Float : Type 0 where
  nan : Float
  inf : Float
  minus_inf : Float
  finite : ℤ → Float

-- A list or a dictionary holds values, so the three types stand in one block. A dictionary keeps
-- its keys in insertion order, each once.
mutual
  pub data Value : Type 0 where
    null : Value
    bool : Bool → Value
    int : ℤ → Value
    float : Float → Value
    str : String → Value
    seq : Items → Value
    dict : Fields → Value

  pub data Items : Type 0 where
    nil : Items
    cons : Value → Items → Items

  pub data Fields : Type 0 where
    end : Fields
    field : String → Value → Fields → Fields

-- `d.get(key)`, without its default.
unfoldable pub get : String → Fields → Option Value
get key end = none
get key (field k v rest) = if str_eq k key then some v else get key rest

-- `d[key] = v`: the place of a key that is there, the end otherwise.
unfoldable pub put : String → Value → Fields → Fields
put key v end = field key v end
put key v (field k w rest) = if str_eq k key then field k v rest else field k w (put key v rest)

-- `{**d, **e}`
unfoldable pub merge : Fields → Fields → Fields
merge d end = d
merge d (field k v rest) = merge (put k v d) rest

-- `{k: v for k, v in d.items() if keep(k)}`
unfoldable pub filter_keys : (String → Bool) → Fields → Fields
filter_keys keep end = end
filter_keys keep (field k v rest) =
    let kept = filter_keys keep rest in if keep k then field k v kept else kept

-- A key stands in a dictionary once.
unfoldable pub has_key : String → Fields → Bool
has_key key end = false
has_key key (field k v rest) = str_eq k key || has_key key rest
