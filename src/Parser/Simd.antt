-- ===== src/Parser/Simd.antt =====
-- `parse_chunk` and `simd_to_serde` of crates/parq-parser/src/lib.rs with the `simd` feature. What the
-- two builds share is taken from `Parser`. simd_json is a parameter.
pub mod Meaning
pub mod Agreement
mod Examples
use parq.Prelude.{ℕ, ◌+◌, Bool, Option, none, some, List, [], ◌∷◌, ◌++◌, Bytes, if◌then◌else◌}
use parq.Prelude.Int.{ℤ}
use parq.Prelude.Results.{Result, ok, err, ◌>>=◌}
use parq.Text.{is_empty, split_lines, trim}
use parq.Json.{Value, null, bool, number, string, array, object, Items, nil, cons, Fields, end}
use parq.Crates.{Crates}
use parq.Parser.{
  Arrow, ParseConfig, ParseState, parse_start, Round, broke, went, round_of, limit_reached,
  parse_object, reject, Run, after_round, Parsed, finish_chunk,
}

-- `simd_json::StaticNode` and `simd_json::BorrowedValue`, a map given by its entries in the order in
-- which its iterator visits them.
pub data StaticNode (F : Type 0) : Type 0 where
  null_node : StaticNode F
  bool_node : Bool → StaticNode F
  i64_node : ℤ → StaticNode F
  u64_node : ℕ → StaticNode F
  f64_node : F → StaticNode F

mutual
  pub data BorrowedValue (F : Type 0) : Type 0 where
    static_value : StaticNode F → BorrowedValue F
    string_value : Bytes → BorrowedValue F
    array_value : BorrowedItems F → BorrowedValue F
    object_value : BorrowedFields F → BorrowedValue F

  pub data BorrowedItems (F : Type 0) : Type 0 where
    no_item : BorrowedItems F
    item : BorrowedValue F → BorrowedItems F → BorrowedItems F

  pub data BorrowedFields (F : Type 0) : Type 0 where
    no_field : BorrowedFields F
    field : Bytes → BorrowedValue F → BorrowedFields F → BorrowedFields F

-- `to_borrowed_value`, the conversions of numbers, and the error that serde_json has for the text of
-- an error of simd_json.
pub record SimdJson (X : Crates) : Type 1 where
  pub SimdError : Type 0
  pub to_borrowed_value : Bytes → Result SimdError (BorrowedValue X.F64)
  pub from_i64 : ℤ → X.Number
  pub from_u64 : ℕ → X.Number
  pub from_f64 : X.F64 → Option X.Number
  pub parse_error_text : SimdError → X.JsonError

module _ (X : Crates) (J : SimdJson X) where
  unfoldable pub static_to_serde : StaticNode X.F64 → Value X.Number
  static_to_serde null_node = null
  static_to_serde (bool_node b) = bool b
  static_to_serde (i64_node n) = number (J.from_i64 n)
  static_to_serde (u64_node n) = number (J.from_u64 n)
  static_to_serde (f64_node f) = elim (J.from_f64 f) [ none ↦ null | some n ↦ number n ]

  -- `collect` puts the entries into a map one after the other, here into `m`.
  mutual
    pub simd_to_serde : BorrowedValue X.F64 → Value X.Number
    simd_to_serde (static_value n) = static_to_serde n
    simd_to_serde (string_value s) = string s
    simd_to_serde (array_value vs) = array (items_to_serde vs)
    simd_to_serde (object_value fs) = object (collect_fields fs end)

    pub items_to_serde : BorrowedItems X.F64 → Items X.Number
    items_to_serde no_item = nil
    items_to_serde (item v vs) = cons (simd_to_serde v) (items_to_serde vs)

    pub collect_fields : BorrowedFields X.F64 → Fields X.Number → Fields X.Number
    collect_fields no_field m = m
    collect_fields (field k v fs) m = collect_fields fs (X.insert m k (simd_to_serde v))

  module _ (A : Arrow X) where
    -- The value of a record that is an object.
    unfoldable pub parse_value_simd :
        ParseConfig X A → Bytes → BorrowedValue X.F64 → ParseState X A → Round X A
    parse_value_simd c trimmed (object_value fs) st =
        round_of X A (parse_object X A c (collect_fields fs end) st)
    parse_value_simd c trimmed _ st = reject X A c trimmed X.bang_error st

    unfoldable pub parse_line_simd : ParseConfig X A → Bytes → ParseState X A → Round X A
    unfolding parse_value_simd
    parse_line_simd c line st =
        let st' : ParseState X A = record st { line_no = st.line_no + 1 } in
        if limit_reached c.limit st'.total_ok
        then broke st'
        else if is_empty (trim line)
        then went st' []
        else elim (J.to_borrowed_value (trim line)) [
          | ok value ↦ parse_value_simd c (trim line) value st'
          | err e ↦ reject X A c (trim line) (J.parse_error_text e) st'
        ]

    unfoldable pub parse_lines_simd :
        ParseConfig X A → List Bytes → ParseState X A → Run X A (ParseState X A)
    parse_lines_simd c [] st = record { sent = []; result = ok st }
    parse_lines_simd c (line ∷ lines) st =
        after_round X A (parse_line_simd c line st) (λ st'. parse_lines_simd c lines st')

    unfoldable pub parse_chunk_simd : ParseConfig X A → Bytes → Run X A (Parsed X A)
    unfolding parse_lines_simd
    parse_chunk_simd c bytes =
        let r = parse_lines_simd c (split_lines bytes) (parse_start X A c) in
        record { sent = r.sent; result = r.result >>= finish_chunk X A c }
