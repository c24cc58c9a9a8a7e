-- ===== src/Json.antt =====
-- JSON values as the crates match on them: `serde_json::Value`, with a map given by its entries in
-- the order in which a `for` loop visits them. `N` is `serde_json::Number`.
use parq.Prelude.{Bool, Bytes}

mutual
  pub data Value (N : Type 0) : Type 0 where
    null : Value N
    bool : Bool → Value N
    number : N → Value N
    string : Bytes → Value N
    array : Items N → Value N
    object : Fields N → Value N

  pub data Items (N : Type 0) : Type 0 where
    nil : Items N
    cons : Value N → Items N → Items N

  pub data Fields (N : Type 0) : Type 0 where
    end : Fields N
    entry : Bytes → Value N → Fields N → Fields N
