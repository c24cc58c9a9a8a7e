-- ===== src/Parser/Simd/Meaning.antt =====
-- When a value of simd_json and one of serde_json stand for the same JSON, and `simd_to_serde`.
use parq.Prelude.Int.{ℤ}
use parq.Prelude.{Bool, ℕ, some, ◌≡◌, refl, ap, Bytes}
use parq.Json.{Value, null, bool, number, string, array, object, Items, nil, cons, Fields, end}
use parq.Crates.{Crates}
use parq.Parser.Simd.{
  null_node, bool_node, i64_node, u64_node, f64_node, BorrowedValue, static_value, string_value,
  array_value, object_value, BorrowedItems, no_item, item, BorrowedFields, no_field, field,
  SimdJson, static_to_serde, simd_to_serde, items_to_serde, collect_fields,
}

module _ (X : Crates) (J : SimdJson X) where
  -- A value of simd_json and one of serde_json that stand for the same JSON. A number is the one that
  -- serde_json makes of the i64, of the u64 or of the finite f64; an object is the map that holds
  -- the same values at the same keys, entered in the order in which simd_json lists them.
  mutual
    pub data IsSame : BorrowedValue X.F64 → Value X.Number → Type 0 where
      same_null : IsSame (static_value null_node) null
      same_bool : {b : Bool} → IsSame (static_value (bool_node b)) (bool b)
      same_i64 : {i : ℤ} → IsSame (static_value (i64_node i)) (number (J.from_i64 i))
      same_u64 : {n : ℕ} → IsSame (static_value (u64_node n)) (number (J.from_u64 n))
      same_f64 :
          {f : X.F64} {n : X.Number}
          → J.from_f64 f ≡ some n
          → IsSame (static_value (f64_node f)) (number n)
      same_string : {s : Bytes} → IsSame (string_value s) (string s)
      same_array :
          {ws : BorrowedItems X.F64} {vs : Items X.Number}
          → AreSame ws vs
          → IsSame (array_value ws) (array vs)
      same_object :
          {fs : BorrowedFields X.F64} {m : Fields X.Number}
          → Enters fs end m
          → IsSame (object_value fs) (object m)

    pub data AreSame : BorrowedItems X.F64 → Items X.Number → Type 0 where
      same_nil : AreSame no_item nil
      same_cons :
          {w : BorrowedValue X.F64} {v : Value X.Number} {ws : BorrowedItems X.F64}
          {vs : Items X.Number}
          → IsSame w v
          → AreSame ws vs
          → AreSame (item w ws) (cons v vs)

    -- the entries make the first map the second
    pub data Enters : BorrowedFields X.F64 → Fields X.Number → Fields X.Number → Type 0 where
      all_entered : {m : Fields X.Number} → Enters no_field m m
      entered :
          {k : Bytes} {w : BorrowedValue X.F64} {v : Value X.Number} {fs : BorrowedFields X.F64}
          {m m' : Fields X.Number}
          → IsSame w v
          → Enters fs (X.insert m k v) m'
          → Enters (field k w fs) m m'

  f64_node_lem :
      (f : X.F64) {n : X.Number}
      → J.from_f64 f ≡ some n
      → static_to_serde X J (f64_node f) ≡ number n
  unfolding static_to_serde
  f64_node_lem f e = rw (e, static_to_serde) refl

  -- The conversion gives the value that stands for the same JSON.
  mutual
    unfolding static_to_serde simd_to_serde

    pub simd_to_serde_lem :
        (w : BorrowedValue X.F64) {v : Value X.Number} → IsSame w v → simd_to_serde X J w ≡ v
    simd_to_serde_lem (static_value null_node) same_null = refl
    simd_to_serde_lem (static_value (bool_node b)) same_bool = refl
    simd_to_serde_lem (static_value (i64_node i)) same_i64 = refl
    simd_to_serde_lem (static_value (u64_node n)) same_u64 = refl
    simd_to_serde_lem (static_value (f64_node f)) (same_f64 e) = f64_node_lem f e
    simd_to_serde_lem (string_value s) same_string = refl
    simd_to_serde_lem (array_value ws) (same_array h) = ap array (items_to_serde_lem ws h)
    simd_to_serde_lem (object_value fs) (same_object h) = ap object (collect_fields_lem fs h)

    items_to_serde_lem :
        (ws : BorrowedItems X.F64) {vs : Items X.Number}
        → AreSame ws vs
        → items_to_serde X J ws ≡ vs
    items_to_serde_lem no_item same_nil = refl
    items_to_serde_lem (item w ws) (same_cons h k) =
        rw (simd_to_serde_lem w h, items_to_serde_lem ws k) refl

    collect_fields_lem :
        (fs : BorrowedFields X.F64) {m m' : Fields X.Number}
        → Enters fs m m'
        → collect_fields X J fs m ≡ m'
    collect_fields_lem no_field all_entered = refl
    collect_fields_lem (field k w fs) (entered h g) =
        rw (simd_to_serde_lem w h) (collect_fields_lem fs g)
