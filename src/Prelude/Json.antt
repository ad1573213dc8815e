-- ===== src/Prelude/Json.antt =====
-- JSON values as Python's `json` reads them. A number is kept as the text of its literal.
use Prim.Native.String.{String}
use mathlib.Core.Bool.{Bool}

mutual
  pub data Json : Type 0 where
    null : Json
    bool : Bool → Json
    number : String → Json
    text : String → Json
    array : Items → Json
    object : Fields → Json

  pub data Items : Type 0 where
    nil : Items
    cons : Json → Items → Items

  pub data Fields : Type 0 where
    end : Fields
    field : String → Json → Fields → Fields
