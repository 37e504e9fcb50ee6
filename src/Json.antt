-- ===== src/Json.antt =====
-- Values of unknown type, as `JSON.parse` returns them and `JSON.stringify` takes them. A number is
-- carried by the text that `String` gives for it; members stand in the order of `Object.entries`.
use profit_decision_engine.Prelude.{String, Option, none, some, Bool, ◌==◌, if◌then◌else◌}

mutual
  pub data Json : Type 0 where
    undefined null : Json
    bool : Bool → Json
    num : String → Json
    str : String → Json
    arr : Items → Json
    obj : Fields → Json

  pub data Items : Type 0 where
    nil : Items
    cons : Json → Items → Items

  pub data Fields : Type 0 where
    end : Fields
    field : String → Json → Fields → Fields

-- `object[key]`, for a key that objects do not inherit
abbrev pub member : String → Fields → Option Json
member key end = none
member key (field k v rest) = if k == key then some v else member key rest
