-- ===== src/Prelude/Json.antt =====
-- JSON values: the dictionaries that jobs carry as payloads and results. A float is held by its
-- shortest decimal text, which is what Python prints and what it reads back.
use Prim.Native.Nat.{zero}
use Prim.Native.String.{String}
use mathlib.Core.Path.{◌≡◌, refl}
use mathlib.Core.Bool.{Bool, true, false, not, ◌||◌}
use mathlib.Core.Option.{Option, none, some}
use native.Mathlib.Omega.{arith}
use text.Mathlib.Text.{◌==◌ as str_eq}
use text.Mathlib.TextEquality.{eq_iff}
use imagin.Prelude.Tests.{if◌then◌else◌}
use imagin.Prelude.Int.{ℤ, pos}

mutual
  pub data Json : Type 0 where
    null : Json
    boolean : Bool → Json
    integer : ℤ → Json
    float : String → Json
    string : String → Json
    array : Items → Json
    object : Fields → Json

  pub data Items : Type 0 where
    nil : Items
    cons : Json → Items → Items

  pub data Fields : Type 0 where
    end : Fields
    field : String → Json → Fields → Fields

-- `d.get(key)`; a dictionary has each key once.
unfoldable pub get : String → Fields → Option Json
get key end = none
get key (field k v rest) = if str_eq k key then some v else get key rest

-- `d[key] = v`, and one entry of `{**d, key: v}`: a key that is there keeps its place.
unfoldable pub put : String → Json → Fields → Fields
put key v end = field key v end
put key v (field k w rest) = if str_eq k key then field k v rest else field k w (put key v rest)

pub get-put :
    (j k : String) (v : Json) (d : Fields)
    → get j (put k v d) ≡ (if str_eq k j then some v else get j d)
unfolding get put
get-put j k v end = refl
get-put j k v (field i w rest) =
    ground (arith, eq_iff i k, eq_iff i j, eq_iff k j, get-put j k v rest)

-- `bool(x)` of a value, and of `None` for a key that is missing.
abbrev pub truthy : Json → Bool
truthy null = false
truthy (boolean b) = b
truthy (integer (pos zero)) = false
truthy (integer _) = true
truthy (float r) = not (str_eq r "0.0" || str_eq r "-0.0")
truthy (string s) = not (str_eq s "")
truthy (array nil) = false
truthy (array (cons _ _)) = true
truthy (object end) = false
truthy (object (field _ _ _)) = true

abbrev pub truthy_at : Option Json → Bool
truthy_at none = false
truthy_at (some v) = truthy v
