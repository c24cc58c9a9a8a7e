-- ===== src/Parser/Simd/Examples.antt =====
-- The two builds of the parser on a small chunk.
use parq.Prelude.{
  if◌then◌else◌, false, ℕ, ◌+◌, true, none, some, [], ◌∷◌, Bytes, codes, str_eq, All,
}
use parq.Prelude.Int.{ℤ, pos}
use parq.Prelude.Results.{Result, ok, err}
use parq.Text.{split_lines, trim, keep_records, records}
use parq.DataType.{int64}
use parq.Crates.Toy.{toy, toy_parse, toy_fields, toy_value, toy_insert}
use parq.Parser.{ParseConfig, parse_chunk}
use parq.Parser.Toy.{toy_arrow}
use parq.Parser.Simd.{
  BorrowedValue, static_value, i64_node, object_value, field, no_field, SimdJson, simd_to_serde,
  static_to_serde, parse_chunk_simd,
}
use parq.Parser.Simd.Meaning.{same_object, entered, same_i64, all_entered}
use parq.Parser.Simd.Agreement.{
  both_values, both_errors, IsReadAlike, IsSameRun, parse_chunk_simd-IsSameRun,
}

-- One text is read, as the object with 1 at `a`.
abbrev toy_borrowed : Bytes → Result ℕ (BorrowedValue ℤ)
toy_borrowed s =
    if str_eq s (codes "{a1")
    then ok (object_value (field (codes "a") (static_value (i64_node (pos 1))) no_field))
    else err 5

abbrev toy_simd : SimdJson toy
toy_simd = record {
  SimdError = ℕ;
  to_borrowed_value = toy_borrowed;
  from_i64 = λ z. z;
  from_u64 = λ n. pos n;
  from_f64 = λ x. some x;
  parse_error_text = λ e. e + 100;
}

abbrev strict : ParseConfig toy toy_arrow
strict = record {
  schema = record { name = codes "a"; data_type = int64; nullable = true } ∷ [];
  batch_size = 2;
  ignore_errors = false;
  flatten_json = false;
  limit = none;
  has_dead_letter = true;
}

abbrev rows : Bytes
rows = codes "{a1\nxx\n"

rows_agree : All (IsReadAlike toy toy_simd) (records rows)
unfolding records keep_records split_lines trim toy_parse str_eq toy_fields toy_value toy_insert
    simd_to_serde static_to_serde
rows_agree = (both_values (same_object (entered same_i64 all_entered)), (both_errors, tt))

parse_chunk_simd-IsSameRun_example :
    IsSameRun toy toy_simd toy_arrow
      (parse_chunk_simd toy toy_simd toy_arrow strict rows)
      (parse_chunk toy toy_arrow strict rows)
parse_chunk_simd-IsSameRun_example =
    parse_chunk_simd-IsSameRun toy toy_simd toy_arrow strict rows rows_agree
