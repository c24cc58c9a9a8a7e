-- ===== src/Parser/Nested/Examples.antt =====
-- The theorem on the lost column at two records, the first with an object at `a`.
use parq.Prelude.{
  ℕ, subst, sym, ◌≡◌, refl, true, false, none, some, [], ◌∷◌, Bytes, codes, length, str_eq, All,
  arith,
}
use mathlib.Core.List.{Memᴰ}
use parq.Prelude.Int.{ℤ, pos}
use parq.Prelude.Results.{ok}
use parq.Text.{keep_records, records, split_lines, trim}
use parq.DataType.{int64, utf8, merge}
use parq.Dict.{lookup, put}
use parq.Crates.Toy.{toy, toy_get, toy_insert, toy_parse}
use parq.Json.{object, number, Fields, entry, end}
use parq.Flatten.{flatten_object, full_key}
use parq.Flatten.Nested.{NestedAt}
use parq.Schema.Sample.{sample}
use parq.Parser.Nested.{name_at, IsNullCell, nested_column_lost}
use parq.Schema.{
  Schema, infer_schema, infer_line, infer_lines, infer_value, infer_entry, infer_entries,
  infer_field, finish_schema, strip_bom, promote, value_type,
}
use parq.Columns.{int64_array, str_array, new_builder, append, finish}
use parq.Parser.{ParseConfig, Parsed, parse_chunk, parse_line, flush_batch, append_fields}
use parq.Parser.Toy.{toy_new, toy_arrow}
use parq.Parser.Outcome.{accepted}
use parq.Parser.Cells.{column_of}

abbrev schema_nested : Schema
schema_nested =
    record { name = codes "a"; data_type = utf8; nullable = true }
    ∷ record { name = codes "b"; data_type = int64; nullable = true }
    ∷ []

abbrev nested_rows : Bytes
nested_rows = codes "{aob1\n{b2\n"

abbrev flattening : ParseConfig toy toy_arrow
flattening = record {
  schema = schema_nested;
  batch_size = 2;
  ignore_errors = true;
  flatten_json = true;
  limit = none;
  has_dead_letter = false;
}

abbrev flattened_result : Parsed toy toy_arrow
flattened_result = record {
  batches =
      (str_array (none ∷ none ∷ []) ∷ int64_array (some (pos 1) ∷ some (pos 2) ∷ []) ∷ []) ∷ [];
  rows_ok = 2;
  rows_skipped = 0;
}

flattened_run : (parse_chunk toy toy_arrow flattening nested_rows).result ≡ ok flattened_result
unfolding parse_chunk parse_line flush_batch append_fields append new_builder finish split_lines
    trim toy_parse toy_get toy_insert toy_new str_eq flatten_object full_key
flattened_run = refl

nested_schema : infer_schema toy nested_rows 10000 ≡ ok schema_nested
unfolding infer_schema infer_line infer_value infer_entries infer_entry infer_field finish_schema
    strip_bom promote value_type lookup put split_lines trim toy_parse str_eq infer_lines merge
nested_schema = refl

abbrev row_with_object : Fields ℤ
row_with_object =
    entry (codes "a") (object (entry (codes "x") (number (pos 7)) end))
      (entry (codes "b") (number (pos 1)) end)

abbrev row_without : Fields ℤ
row_without = entry (codes "b") (number (pos 2)) end

nested_objects : accepted toy (records nested_rows) ≡ row_with_object ∷ row_without ∷ []
unfolding accepted records keep_records split_lines trim toy_parse
nested_objects = refl

nested_sample : accepted toy (sample nested_rows 10000) ≡ row_with_object ∷ row_without ∷ []
unfolding accepted sample keep_records split_lines strip_bom trim toy_parse
nested_sample = refl

object_at_a :
    toy_get row_with_object (codes "a") ≡ some (object (entry (codes "x") (number (pos 7)) end))
unfolding toy_get str_eq
object_at_a = refl

only_objects : All (NestedAt toy (codes "a")) (row_with_object ∷ row_without ∷ [])
unfolding str_eq
only_objects = ((λ p. ground arith, (refl, tt)), ((refl, tt), tt))

nested_column_lost_example :
    (i : ℕ) × (name_at i schema_nested ≡ some (codes "a"))
    × (length (column_of toy toy_arrow i flattened_result.batches)
        ≡ length (accepted toy (records nested_rows)))
    × All (IsNullCell toy) (column_of toy toy_arrow i flattened_result.batches)
nested_column_lost_example =
    nested_column_lost toy toy_arrow flattening refl refl nested_rows 10000 (codes "a")
      nested_schema (subst (Memᴰ row_with_object) (sym nested_sample) (Memᴰ.head refl)) object_at_a
      (omega arith) nested_rows
      (subst (All (NestedAt toy (codes "a"))) (sym nested_objects) only_objects) flattened_run
