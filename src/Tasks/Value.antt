-- ===== src/Tasks/Value.antt =====
-- The JSON values that a task carries as its request, result and context.
use comet_rag.Prelude.{ℕ, Bool, String}

mutual
  pub data Value : Type 0 where
    null : Value
    truth : Bool → Value
    number : ℕ → Value
    str : String → Value
    array : Values → Value
    object : Members → Value

  pub data Values : Type 0 where
    nil : Values
    cons : Value → Values → Values

  pub data Members : Type 0 where
    end : Members
    member : String → Value → Members → Members
