-- ===== src/Columns.antt =====
-- `ColBuilder` of crates/parq-parser/src/lib.rs. An Arrow builder is the list of what was appended
-- to it, `none` for a null. Such a list has no bound: the capacities that Arrow's builders are made
-- with, and the panic of a `StringBuilder` beyond i32::MAX bytes, are left out; see `Parser.Capacity`.
pub mod Cells
pub mod Types
use parq.Prelude.{
  ℕ, ◌+◌, ◌-◌, ◌*◌, ◌^◌, Bool, ◌&&◌, Option, none, some, List, [], ◌∷◌, ◌++◌, Bytes, codes, leb,
  ◌==◌, if◌then◌else◌,
}
use parq.Prelude.Int.{ℤ, pos, neg}
use parq.Prelude.Results.{Result, ok, err}
use parq.Json.{Value, bool, number, string}
use parq.Json
use parq.DataType.{
  DataType, null, boolean, int8, int16, int32, int64, uint8, uint16, uint32, uint64, float32,
  float64,
}
use parq.Crates.{Crates}
use parq.Error.{Failure, parq_error, type_mismatch}
use parq.Schema.{unwrap_or}

-- The digits of an integer behind `acc`, with std's overflow test at `limit`.
unfoldable pub parse_digits : ℕ → ℕ → Bytes → Option ℕ
parse_digits limit acc [] = some acc
parse_digits limit acc (c ∷ s) =
    let rest = parse_digits limit (acc * 10 + (c - b'0')) s in
    if leb b'0' c && leb c b'9' && leb (acc * 10 + (c - b'0')) limit then rest else none

-- A sign or none, and at least one digit.
unfoldable pub parse_magnitude : ℕ → Bytes → Option ℕ
unfolding parse_digits
parse_magnitude limit [] = none
parse_magnitude limit (c ∷ s) = parse_digits limit 0 (c ∷ s)

abbrev pub map_option {ℓ} : {A B : Type ℓ} → (A → B) → Option A → Option B
map_option f none = none
map_option f (some a) = some (f a)

-- `s.parse::<i64>().ok()`
unfoldable pub parse_i64 : Bytes → Option ℤ
unfolding parse_magnitude
parse_i64 [] = none
parse_i64 (c ∷ s) =
    if c == b'-'
    then map_option neg (parse_magnitude (2 ^ 63) s)
    else if c == b'+'
    then map_option pos (parse_magnitude (2 ^ 63 - 1) s)
    else map_option pos (parse_magnitude (2 ^ 63 - 1) (c ∷ s))

module _ (X : Crates) where
  open X use {
    Number, F64, as_i64, as_f64, f64_zero, f64_nan, f64_as_i64, parse_f64, to_string, debug,
  }

  pub data ColBuilder : Type 0 where
    null_builder : (len : ℕ) → ColBuilder
    bool_builder : List (Option Bool) → ColBuilder
    int64_builder : List (Option ℤ) → ColBuilder
    float64_builder : List (Option F64) → ColBuilder
    str_builder : List (Option Bytes) → ColBuilder

  unfoldable pub new_builder : DataType → ColBuilder
  new_builder null = null_builder 0
  new_builder boolean = bool_builder []
  new_builder int8 = int64_builder []
  new_builder int16 = int64_builder []
  new_builder int32 = int64_builder []
  new_builder int64 = int64_builder []
  new_builder uint8 = int64_builder []
  new_builder uint16 = int64_builder []
  new_builder uint32 = int64_builder []
  new_builder uint64 = int64_builder []
  new_builder float32 = float64_builder []
  new_builder float64 = float64_builder []
  new_builder _ = str_builder []

  -- The four `match val` blocks of `append`.
  unfoldable pub append_bool :
      List (Option Bool) → Option (Value Number) → ℕ → Bool → Result (Failure X) ColBuilder
  append_bool b (some (bool v)) line ignore_errors = ok (bool_builder (b ++ some v ∷ []))
  append_bool b (some Json.null) line ignore_errors = ok (bool_builder (b ++ none ∷ []))
  append_bool b none line ignore_errors = ok (bool_builder (b ++ none ∷ []))
  append_bool b (some v) line ignore_errors =
      if ignore_errors
      then ok (bool_builder (b ++ none ∷ []))
      else err (parq_error (type_mismatch (codes "bool_field") (codes "Boolean") (debug v) line))

  unfoldable pub int64_cell : Option (Value Number) → Option ℤ
  int64_cell (some (number n)) =
      some (unwrap_or (as_i64 n) (f64_as_i64 (unwrap_or (as_f64 n) f64_zero)))
  int64_cell (some (string s)) = parse_i64 s
  int64_cell _ = none

  unfoldable pub float64_cell : Option (Value Number) → Option F64
  float64_cell (some (number n)) = some (unwrap_or (as_f64 n) f64_nan)
  float64_cell (some (string s)) = parse_f64 s
  float64_cell _ = none

  unfoldable pub str_cell : Option (Value Number) → Option Bytes
  str_cell none = none
  str_cell (some Json.null) = none
  str_cell (some (string s)) = some s
  str_cell (some v) = some (to_string v)

  unfoldable pub append :
      ColBuilder → Option (Value Number) → ℕ → Bool → Result (Failure X) ColBuilder
  unfolding append_bool int64_cell float64_cell str_cell
  append (null_builder len) val line ignore_errors = ok (null_builder (len + 1))
  append (bool_builder b) val line ignore_errors = append_bool b val line ignore_errors
  append (int64_builder b) val line ignore_errors = ok (int64_builder (b ++ int64_cell val ∷ []))
  append (float64_builder b) val line ignore_errors =
      ok (float64_builder (b ++ float64_cell val ∷ []))
  append (str_builder b) val line ignore_errors = ok (str_builder (b ++ str_cell val ∷ []))

  -- What `finish` returns, an Arrow array with the builder's cells.
  pub data Array : Type 0 where
    null_array : (len : ℕ) → Array
    bool_array : List (Option Bool) → Array
    int64_array : List (Option ℤ) → Array
    float64_array : List (Option F64) → Array
    str_array : List (Option Bytes) → Array

  unfoldable pub finish : ColBuilder → Array
  finish (null_builder len) = null_array len
  finish (bool_builder b) = bool_array b
  finish (int64_builder b) = int64_array b
  finish (float64_builder b) = float64_array b
  finish (str_builder b) = str_array b
