-- ===== src/Parser/Examples.antt =====
-- Runs of `parse_chunk`, and its theorems at small inputs.
use parq.Prelude.{
  ℕ, inl, false, ◌++◌, ap, ◌≡◌, refl, true, false, none, some, [], ◌∷◌, Bytes, codes, str_eq,
}
use parq.Prelude.Int.{pos}
use parq.Prelude.Results.{ok, err}
use parq.Text.{records, split_lines, trim}
use parq.DataType.{int32, int64, boolean}
use parq.Crates.Toy.{toy, toy_get, toy_parse}
use parq.Schema.{Schema, infer_schema, strip_bom}
use parq.Columns.{int64_array, bool_array, new_builder, append, finish}
use parq.Parser.{
  limit_reached, ParseConfig, Parsed, parse_chunk, parse_line, flush_batch, append_fields,
}
use parq.Parser.Toy.{
  toy_new, toy_arrow, check_types, typed_arrow, typed_rejects, typed-RejectsEmpty,
}
use parq.Error.{parq_error, json_parse, type_mismatch}
use parq.Parser.Bom.{bom, RejectsBom, bom_not_stripped}
use parq.Parser.Reported.{mismatch_names_bool}
use parq.Parser.FirstError.{IsFirstReject, parse_chunk-IsFirstReject}
use parq.Parser.Sizes.{IsCut, parse_chunk-IsCut}
use parq.Parser.Mismatch.{parse_chunk-mismatch}
use parq.Parser.Outcome.{accepted}
use parq.Parser.Cells.{column_of}
use parq.Parser.Table.{rows_column, parse_chunk-column}

abbrev schema_ab : Schema
schema_ab =
    record { name = codes "a"; data_type = int64; nullable = true }
    ∷ record { name = codes "b"; data_type = boolean; nullable = true }
    ∷ []

abbrev lenient : ParseConfig toy toy_arrow
lenient = record {
  schema = schema_ab;
  batch_size = 2;
  ignore_errors = true;
  flatten_json = false;
  limit = none;
  has_dead_letter = true;
}

abbrev three_rows : Bytes
three_rows = codes "{a1bt\nxx\n{a2\n \nn\n{b5\n"

abbrev lenient_result : Parsed toy toy_arrow
lenient_result = record {
  batches =
      (int64_array (some (pos 1) ∷ some (pos 2) ∷ []) ∷ bool_array (some true ∷ none ∷ []) ∷ [])
      ∷ (int64_array (none ∷ []) ∷ bool_array (none ∷ []) ∷ [])
      ∷ [];
  rows_ok = 3;
  rows_skipped = 2;
}

lenient_run :
    parse_chunk toy toy_arrow lenient three_rows
    ≡ record { sent = codes "xx" ∷ codes "n" ∷ []; result = ok lenient_result }
unfolding parse_chunk parse_line flush_batch append_fields append new_builder finish split_lines
    trim toy_parse toy_get toy_new str_eq
lenient_run = refl

abbrev limited : ParseConfig toy toy_arrow
limited = record lenient { limit = some 2 }

abbrev limited_result : Parsed toy toy_arrow
limited_result = record {
  batches =
      (int64_array (some (pos 1) ∷ some (pos 2) ∷ []) ∷ bool_array (some true ∷ none ∷ []) ∷ [])
      ∷ [];
  rows_ok = 2;
  rows_skipped = 1;
}

limited_run :
    parse_chunk toy toy_arrow limited three_rows
    ≡ record { sent = codes "xx" ∷ []; result = ok limited_result }
unfolding parse_chunk parse_line flush_batch append_fields append new_builder finish split_lines
    trim toy_parse toy_get toy_new str_eq
limited_run = refl

abbrev strict : ParseConfig toy toy_arrow
strict = record lenient { ignore_errors = false }

abbrev good_rows : Bytes
good_rows = codes "{a1bt\n{a2bt\n"

abbrev strict_result : Parsed toy toy_arrow
strict_result = record {
  batches =
      (int64_array (some (pos 1) ∷ some (pos 2) ∷ [])
        ∷ bool_array (some true ∷ some true ∷ [])
        ∷ [])
      ∷ [];
  rows_ok = 2;
  rows_skipped = 0;
}

strict_run : (parse_chunk toy toy_arrow strict good_rows).result ≡ ok strict_result
unfolding parse_chunk parse_line flush_batch append_fields append new_builder finish split_lines
    trim toy_parse toy_get toy_new str_eq
strict_run = refl

parse_chunk-column_example :
    column_of toy toy_arrow 1 lenient_result.batches
    ≡ rows_column toy toy_arrow lenient 1 (accepted toy (records three_rows))
parse_chunk-column_example =
    parse_chunk-column toy toy_arrow lenient refl three_rows 1 (ap (λ r. r.result) lenient_run)

parse_chunk-IsCut_example : IsCut toy toy_arrow lenient lenient_result
parse_chunk-IsCut_example =
    parse_chunk-IsCut toy toy_arrow lenient three_rows (ap (λ r. r.result) lenient_run)

abbrev narrow : ParseConfig toy typed_arrow
narrow = record {
  schema = record { name = codes "a"; data_type = int32; nullable = true } ∷ [];
  batch_size = 2;
  ignore_errors = true;
  flatten_json = false;
  limit = none;
  has_dead_letter = true;
}

abbrev no_rows : Parsed toy typed_arrow
no_rows = record { batches = []; rows_ok = 0; rows_skipped = 1 }

narrow_run : (parse_chunk toy typed_arrow narrow (codes "xx\n")).result ≡ ok no_rows
unfolding parse_chunk parse_line flush_batch append_fields append new_builder finish split_lines
    trim toy_parse toy_get check_types str_eq
narrow_run = refl

parse_chunk-mismatch_example : no_rows.rows_ok ≡ 0
parse_chunk-mismatch_example =
    parse_chunk-mismatch toy typed_arrow narrow typed_rejects typed-RejectsEmpty
      (inl (λ h. let e = h.0 in cc)) (codes "xx\n") narrow_run

malformed_run :
    (parse_chunk toy toy_arrow strict (codes "{a1\n\nxx\n")).result
    ≡ err (parq_error (json_parse 3 b'x'))
unfolding parse_chunk parse_line flush_batch append_fields append new_builder finish split_lines
    trim toy_parse toy_get toy_new str_eq
malformed_run = refl

parse_chunk-IsFirstReject_example : IsFirstReject toy (split_lines (codes "{a1\n\nxx\n")) 0 3
parse_chunk-IsFirstReject_example =
    parse_chunk-IsFirstReject toy toy_arrow strict refl (codes "{a1\n\nxx\n") malformed_run

mismatch_run :
    (parse_chunk toy toy_arrow strict (codes "{b1\n")).result
    ≡ err (parq_error (type_mismatch (codes "bool_field") (codes "Boolean") (codes "?") 1))
unfolding parse_chunk parse_line flush_batch append_fields append new_builder finish split_lines
    trim toy_parse toy_get toy_new str_eq
mismatch_run = refl

mismatch_names_bool_example :
    (strict.ignore_errors ≡ false)
    × (codes "bool_field" ≡ codes "bool_field")
    × (codes "Boolean" ≡ codes "Boolean")
mismatch_names_bool_example = mismatch_names_bool toy toy_arrow strict (codes "{b1\n") mismatch_run

toy_rejects_bom : RejectsBom toy
unfolding toy_parse
toy_rejects_bom s = (239, refl)

good_unmarked : strip_bom good_rows ≡ good_rows
unfolding strip_bom
good_unmarked = refl

strict_unlimited : limit_reached strict.limit 0 ≡ false
unfolding limit_reached
strict_unlimited = refl

bom_not_stripped_example :
    (infer_schema toy (bom ++ good_rows) 10 ≡ infer_schema toy good_rows 10)
    × (e : ℕ) × ((parse_chunk toy toy_arrow strict (bom ++ good_rows)).result
        ≡ err (parq_error (json_parse 1 e)))
bom_not_stripped_example =
    bom_not_stripped toy toy_arrow strict toy_rejects_bom refl strict_unlimited good_rows 10
      good_unmarked
