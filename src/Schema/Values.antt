-- ===== src/Schema/Values.antt =====
-- JSON values: request and response bodies, audit snapshots, event payloads and the detail trees
-- of the exceptions.
use be_py_eco.Prelude.{ℕ, Bool, Text}

mutual
  pub data Json : Type 0 where
    null : Json
    bool : Bool → Json
    num : ℕ → Json
    str : Text → Json
    arr : Items → Json
    obj : Fields → Json

  pub data Items : Type 0 where
    nil : Items
    cons : Json → Items → Items

  pub data Fields : Type 0 where
    end : Fields
    field : Text → Json → Fields → Fields
