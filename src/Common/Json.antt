-- ===== src/Common/Json.antt =====
-- JSON values as the source reads them with `unknown`: an object is its own properties in order, and
-- a number is the text that JavaScript prints for it.
use drfed.Common.{ℕ, String, Bool, Option, none, some, List, [], ◌∷◌, str_eq, if◌then◌else◌}
use drfed.Common.Text.{codes}

mutual
  pub data Json : Type 0 where
    null : Json
    bool : Bool → Json
    num : String → Json
    text : String → Json
    array : Items → Json
    object : Fields → Json

  pub data Items : Type 0 where
    nil : Items
    cons : Json → Items → Items

  pub data Fields : Type 0 where
    end : Fields
    field : String → Json → Fields → Fields

-- `value.key`, none where it is undefined.
unfoldable pub property : String → Fields → Option Json
property k end = none
property k (field j v fs) = if str_eq j k then some v else property k fs

-- `Object.keys(value)`
unfoldable pub keys : Fields → List (List ℕ)
keys end = []
keys (field k v fs) = codes k ∷ keys fs
