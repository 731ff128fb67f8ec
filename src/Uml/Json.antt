-- ===== src/Uml/Json.antt =====
-- The JSON values that the code walks without a type. No code modelled here reads
-- the value of a number. An object keeps the order of its entries.
use uml_class_designer_be.Common.{String, Bool}

mutual
  pub data Json : Type 0 where
    null : Json
    bool : Bool → Json
    number : Json
    string : String → Json
    array : Items → Json
    object : Entries → Json

  pub data Items : Type 0 where
    end_of_array : Items
    item : Json → Items → Items

  pub data Entries : Type 0 where
    end_of_object : Entries
    entry : String → Json → Entries → Entries
