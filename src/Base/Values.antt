-- ===== src/Base/Values.antt =====
-- JSON values, for what the gateway builds and marshals.
use Prim.Native.Nat.{ℕ}
use mathlib.Core.Bool.{Bool}
use ocu_mcp_gateway.Base.Text.{Str}
use ocu_mcp_gateway.Base.Ints.{ℤ}

mutual
  pub data Json : Type 0 where
    null : Json
    bool : Bool → Json
    num : ℕ → Json
    int : ℤ → Json
    str : Str → Json
    arr : Items → Json
    obj : Fields → Json
    -- A text that is JSON already, json.RawMessage.
    raw : Str → Json

  pub data Items : Type 0 where
    nil : Items
    cons : Json → Items → Items

  pub data Fields : Type 0 where
    end : Fields
    field : Str → Json → Fields → Fields
