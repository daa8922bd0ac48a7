-- ===== src/Base/Json.antt =====
-- Values of `JSON.parse`. A field that is not there reads as `undefined`, here `none`.
use Prim.Native.String.{String}
use mathlib.Core.Bool.{Bool}
use mathlib.Core.Option.{Option, none, some}
use mathlib.Core.List.{List, [], ◌∷◌}
use text.Mathlib.Text.{◌==◌ as str_eq}
use apipool_v.Base.Tests.{if◌then◌else◌}
use apipool_v.Base.Numbers.{JsNumber}

mutual
  pub data Json : Type 0 where
    null : Json
    boolean : Bool → Json
    number : JsNumber → Json
    string : String → Json
    array : Items → Json
    object : Fields → Json

  pub data Items : Type 0 where
    nil : Items
    cons : Json → Items → Items

  pub data Fields : Type 0 where
    end : Fields
    field : String → Json → Fields → Fields

unfoldable pub elems : Items → List Json
elems nil = []
elems (cons v vs) = v ∷ elems vs

-- `Object.entries`
unfoldable pub entries : Fields → List (String × Json)
entries end = []
entries (field k v fs) = (k, v) ∷ entries fs

-- `value[key]`, `Object.hasOwn(value, key)`
unfoldable pub get : String → Fields → Option Json
get k end = none
get k (field j v fs) = if str_eq j k then some v else get k fs
