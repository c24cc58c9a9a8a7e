-- ===== src/Schema/Errors.antt =====
-- How `infer_schema` ends, on every branch.
use parq.Prelude.{
  ℕ, ◌+◌, ◌≡◌, refl, sym, ◌∙◌, Option, none, some, List, [], ◌∷◌, arith, Bytes, map, length,
}
use parq.Prelude.Results.{Result, ok, err, ◌>>=◌}
use parq.Json.{Value}
use parq.Crates.{Crates}
use parq.Error.{Failure, parq_error, json_parse, insufficient_data}
use parq.Schema.{
  Schema, InferState, infer_start, infer_value, infer_field, finish_schema, infer_schema,
}
use parq.Schema.Sample.{
  sample, parsed, first_failure, infer_values, record_outcome, infer_lines-outcome,
  rows-infer_value,
}

module _ (X : Crates) where
  open X use {Number, from_slice}

  rows-infer_values :
      (vs : List (Value Number)) (st : InferState X)
      → (infer_values X vs st).rows_seen ≡ st.rows_seen + length vs
  unfolding infer_values
  rows-infer_values [] st = omega arith
  rows-infer_values (v ∷ vs) st =
      omega (arith, rows-infer_values vs (infer_value X v st), rows-infer_value X v st)

  length-parsed :
      (i : ℕ) (rs : List Bytes) → first_failure X i rs ≡ none → length (parsed X rs) ≡ length rs
  unfolding parsed first_failure
  length-parsed i [] h = refl
  length-parsed i (r ∷ rs) h = ground (arith, length-parsed (i + 1) rs)

  -- The schema that a state gives.
  abbrev pub fields_of : InferState X → Schema
  fields_of st = map (infer_field X st) st.field_order

  -- The state after the whole sample.
  abbrev pub last_state : Bytes → ℕ → InferState X
  last_state bytes n = infer_values X (parsed X (sample bytes n)) (infer_start X)

  abbrev pub schema_outcome :
      Option (ℕ × X.JsonError) → List Bytes → Schema → Result (Failure X) Schema
  schema_outcome (some (line, e)) rs schema = err (parq_error (json_parse line e))
  schema_outcome none [] schema = err (parq_error (insufficient_data 0))
  schema_outcome none (r ∷ rs) schema = ok schema

  finish-outcome :
      (rs : List Bytes)
      → (record_outcome X (first_failure X 0 rs) (infer_values X (parsed X rs) (infer_start X))
          >>= finish_schema X)
        ≡ schema_outcome
            (first_failure X 0 rs)
            rs
            (fields_of (infer_values X (parsed X rs) (infer_start X)))
  unfolding finish_schema
  finish-outcome [] = unfold first_failure parsed infer_values in refl
  finish-outcome (r ∷ rs) =
      ground
        (arith, length-parsed 0 (r ∷ rs), rows-infer_values (parsed X (r ∷ rs)) (infer_start X))

  -- The sample is the records among the first `n` lines, where a blank line is no record but uses up
  -- one of the `n`. Inference fails on the first sampled record that is no JSON, with its place among
  -- the sampled records as the line; otherwise, if no record is sampled, with InsufficientData;
  -- otherwise it returns a schema.
  pub infer_schema-outcome :
      (bytes : Bytes) (n : ℕ)
      → infer_schema X bytes n
        ≡ schema_outcome
            (first_failure X 0 (sample bytes n))
            (sample bytes n)
            (fields_of (last_state bytes n))
  unfolding infer_schema finish_schema sample
  infer_schema-outcome bytes n = rw (infer_lines-outcome, ◌>>=◌) (finish-outcome (sample bytes n))

  schema_outcome-eq_ok :
      (f : Option (ℕ × X.JsonError)) (rs : List Bytes) (s : Schema) {schema : Schema}
      → schema_outcome f rs s ≡ ok schema
      → schema ≡ s
  schema_outcome-eq_ok (some (line, e)) rs s h = cc
  schema_outcome-eq_ok none [] s h = cc
  schema_outcome-eq_ok none (r ∷ rs) s h = cc

  -- The schema of a call that returned one.
  pub infer_schema-fields :
      (bytes : Bytes) (n : ℕ) {schema : Schema}
      → infer_schema X bytes n ≡ ok schema
      → schema ≡ fields_of (last_state bytes n)
  infer_schema-fields bytes n h =
      schema_outcome-eq_ok (first_failure X 0 (sample bytes n)) (sample bytes n) _
        (sym (infer_schema-outcome bytes n) ∙ h)
