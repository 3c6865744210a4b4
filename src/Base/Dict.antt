-- ===== src/Base/Dict.antt =====
-- The laws of the dictionaries.
use mathlib.Core.Path.{◌≡◌, refl, ap, ◌∙◌}
use mathlib.Core.Logic.{inl, inr}
use mathlib.Core.Bool.{Bool, false, ◌||◌}
use mathlib.Core.Option.{Option, none, some}
use Prim.Native.String.{String}
use native.Mathlib.Omega.{arith}
use text.Mathlib.Text.{◌==◌ as str_eq}
use text.Mathlib.TextEquality.{eq_iff}
use hermes_cashew.Base.Tests.{if◌then◌else◌, Bool-cases}
use hermes_cashew.Base.Value.{Value, Fields, end, field, get, put, merge, filter_keys, has_key}

pub get-put :
    (k j : String) (v : Value) (d : Fields)
    → get j (put k v d) ≡ (if str_eq k j then some v else get j d)
unfolding get put
get-put k j v end = refl
get-put k j v (field i w rest) =
    ground (arith, eq_iff k j, eq_iff i k, eq_iff i j, get-put k j v rest)

pub get-filter_keys :
    (keep : String → Bool) (j : String) (d : Fields)
    → get j (filter_keys keep d) ≡ (if keep j then get j d else none)
unfolding get filter_keys
get-filter_keys keep j end = ground arith
get-filter_keys keep j (field k v rest) = elim (Bool-cases (str_eq k j)) [
  | inl same ↦ let e = (eq_iff k j).0 same in ground (arith, get-filter_keys keep j rest, ap keep e)
  | inr other ↦ ground (arith, get-filter_keys keep j rest)
]

pub get-absent : (j : String) (d : Fields) → has_key j d ≡ false → get j d ≡ none
unfolding get has_key
get-absent j end h = refl
get-absent j (field k v rest) h = ground (arith, get-absent j rest)

-- A dictionary has each of its keys once.
abbrev pub Unique : Fields → Type 0
Unique end = Unit
Unique (field k v rest) = (has_key k rest ≡ false) × Unique rest

pub has_key-put :
    (k j : String) (v : Value) (d : Fields) → has_key j (put k v d) ≡ str_eq k j || has_key j d
unfolding has_key put
has_key-put k j v end = refl
has_key-put k j v (field i w rest) =
    ground (arith, eq_iff k j, eq_iff i k, eq_iff i j, has_key-put k j v rest)

pub Unique-put : (k : String) (v : Value) (d : Fields) → Unique d → Unique (put k v d)
unfolding put has_key
Unique-put k v end u = (refl, tt)
Unique-put k v (field i w rest) u =
    ground (arith, eq_iff i k, eq_iff k i, has_key-put k i v rest, Unique-put k v rest u.1)

pub Unique-merge : (d e : Fields) → Unique d → Unique (merge d e)
unfolding merge
Unique-merge d end u = u
Unique-merge d (field k v rest) u = Unique-merge (put k v d) rest (Unique-put k v d u)

pub has_key-filter_keys :
    (keep : String → Bool) (j : String) (d : Fields)
    → has_key j d ≡ false
    → has_key j (filter_keys keep d) ≡ false
unfolding has_key filter_keys
has_key-filter_keys keep j end h = refl
has_key-filter_keys keep j (field k v rest) h = ground (arith, has_key-filter_keys keep j rest)

pub Unique-filter_keys :
    (keep : String → Bool) (d : Fields) → Unique d → Unique (filter_keys keep d)
unfolding filter_keys
Unique-filter_keys keep end u = tt
Unique-filter_keys keep (field k v rest) u =
    ground (arith, has_key-filter_keys keep k rest u.0, Unique-filter_keys keep rest u.1)

abbrev pub or_else : Option Value → Option Value → Option Value
or_else none o = o
or_else (some v) o = some v

merge_step :
    (k j : String) (v : Value) (d rest : Fields)
    → get k rest ≡ none
    → or_else (get j rest) (if str_eq k j then some v else get j d)
      ≡ or_else (get j (field k v rest)) (get j d)
unfolding get
merge_step k j v d rest h = elim (Bool-cases (str_eq k j)) [
  | inl same ↦ ground (arith, ap (λ i. get i rest) ((eq_iff k j).0 same))
  | inr other ↦ rw other
]

-- `{**d, **e}[j]` is `e[j]`, and `d[j]` where `e` has no `j`.
pub get-merge :
    (j : String) (d e : Fields) → Unique e → get j (merge d e) ≡ or_else (get j e) (get j d)
unfolding merge
get-merge j d end u = unfold get in refl
get-merge j d (field k v rest) u =
    let ih = get-merge j (put k v d) rest u.1 in
    ih
    ∙ ap (or_else (get j rest)) (get-put k j v d)
    ∙ merge_step k j v d rest (get-absent k rest u.0)
