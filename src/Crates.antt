-- ===== src/Crates.antt =====
-- What the crates use of serde_json, arrow, std's floats and the file system: a parameter of the
-- model, with the documented behaviour that the theorems rest on.
pub mod Toy
use parq.Prelude.{Bool, Option, none, some, List, ◌∷◌, ◌≡◌, ◌↔◌, Bytes, str_eq, true, if◌then◌else◌}
use parq.Prelude.Int.{ℤ}
use parq.Prelude.Results.{Result, ok, err}
use parq.Json.{Value, null, bool, string, object, Fields, end, entry}

pub record Crates : Type 1 where
  pub Number : Type 0
  pub F64 : Type 0
  pub JsonError : Type 0
  pub ArrowError : Type 0
  pub ParquetError : Type 0
  pub IoError : Type 0
  -- `Number::is_i64`, `as_i64`, `as_f64`
  pub is_i64 : Number → Bool
  pub as_i64 : Number → Option ℤ
  pub as_f64 : Number → Option F64
  pub is_i64-as_i64 : (n : Number) → (is_i64 n ≡ true) ↔ ((z : ℤ) × (as_i64 n ≡ some z))
  -- `0.0`, `f64::NAN`, `x as i64`, `s.parse::<f64>()`
  pub f64_zero : F64
  pub f64_nan : F64
  pub f64_as_i64 : F64 → ℤ
  pub parse_f64 : Bytes → Option F64
  -- `serde_json::from_slice::<Value>`, and the error of `from_str::<Value>("!")`
  pub from_slice : Bytes → Result JsonError (Value Number)
  pub bang_error : JsonError
  -- `from_str::<Vec<Value>>` and `to_string_pretty`
  pub from_str_vec : Bytes → Result JsonError (List (Value Number))
  pub to_string_pretty : List (Value Number) → Bytes
  pub to_string_pretty-head :
      (vs : List (Value Number)) → (s : Bytes) × (to_string_pretty vs ≡ b'[' ∷ s)
  -- `value.to_string()` and `format!("{value:?}")`
  pub to_string : Value Number → Bytes
  pub debug : Value Number → Bytes
  -- `Map::get` and `Map::insert`
  pub get : Fields Number → Bytes → Option (Value Number)
  pub insert : Fields Number → Bytes → Value Number → Fields Number
  pub get-end : (k : Bytes) → get end k ≡ none
  pub get-entry :
      (j k : Bytes) (v : Value Number) (m : Fields Number)
      → get (entry j v m) k ≡ (if str_eq j k then some v else get m k)
  pub get-insert :
      (m : Fields Number) (j k : Bytes) (v : Value Number)
      → get (insert m j v) k ≡ (if str_eq j k then some v else get m k)
  -- `value["key"]`, `as_str`, `as_bool`
  pub index : Value Number → Bytes → Value Number
  pub index-object :
      (m : Fields Number) (k : Bytes) {v : Value Number} → get m k ≡ some v → index (object m) k ≡ v
  pub as_str : Value Number → Option Bytes
  pub as_str-string : (s : Bytes) → as_str (string s) ≡ some s
  pub as_bool : Value Number → Option Bool
  pub as_bool-bool : (b : Bool) → as_bool (bool b) ≡ some b
