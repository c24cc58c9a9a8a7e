-- ===== src/Schema/Examples.antt =====
-- The theorems on schemas at small inputs.
use parq.Prelude.{ℕ, ◌≡◌, refl, true, [], ◌∷◌, map, Bytes, codes}
use parq.Prelude.Results.{Result, ok}
use parq.DataType.{int64, boolean, datatype_to_str}
use parq.Crates.Toy.{toy, toy_entries}
use parq.Schema.{Schema, infer_schema, load_schema_from_file, field_to_json, schema_to_json_string}
use parq.Schema.Sample.{sample, first_failure}
use parq.Schema.Errors.{last_state, fields_of, schema_outcome, infer_schema-outcome}
use parq.Schema.File.{renamed, load_schema-written}

abbrev two_records : Bytes
two_records = codes "{a1bt\n\n{btan\n"

abbrev schema_ab : Schema
schema_ab =
    record { name = codes "a"; data_type = int64; nullable = true }
    ∷ record { name = codes "b"; data_type = boolean; nullable = true }
    ∷ []

infer_schema-outcome_example :
    infer_schema toy (codes "{a1\n\nxx\n") 10
    ≡ schema_outcome toy
        (first_failure toy 0 (sample (codes "{a1\n\nxx\n") 10))
        (sample (codes "{a1\n\nxx\n") 10)
        (fields_of toy (last_state toy (codes "{a1\n\nxx\n") 10))
infer_schema-outcome_example = infer_schema-outcome toy (codes "{a1\n\nxx\n") 10

abbrev schema_id : Schema
schema_id = record { name = codes "a"; data_type = int64; nullable = true } ∷ []

abbrev read_any : Bytes → Result ℕ Bytes
read_any path = ok (codes "[]")

load_schema-written_example :
    load_schema_from_file toy read_any (codes "schema.json") ≡ ok (map renamed schema_id)
unfolding toy_entries field_to_json datatype_to_str schema_to_json_string
load_schema-written_example =
    load_schema-written toy schema_id (codes "schema.json") read_any (codes "[]") [] refl refl refl
