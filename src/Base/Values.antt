-- ===== src/Base/Values.antt =====
-- Values of the JSON library as far as the program builds and reads them. How a value is written
-- out and read in is the library's; the models take both as parameters. An integer is a `num` of any
-- size; a real number is known by what the library says of it: isInt, asInt with `none` for an
-- exception, and asString.
use mathlib.Core.Bool.{Bool}
use mathlib.Core.Option.{Option}
use dev_hub.Base.Bytes.{Text}
use dev_hub.Base.Int.{ℤ}

mutual
  pub data Json : Type 0 where
    null : Json
    bool : Bool → Json
    num : ℤ → Json
    real : Bool → Option ℤ → Text → Json
    str : Text → Json
    arr : Items → Json
    obj : Fields → Json

  pub data Items : Type 0 where
    nil : Items
    cons : Json → Items → Items

  pub data Fields : Type 0 where
    end : Fields
    field : Text → Json → Fields → Fields
