-- ===== src/Cli/Reload.antt =====
-- The schema that crates/parq/src/main.rs prints, given back to `run_pipeline` as a schema file.
use parq.Prelude.{
  ◌≡◌, refl, sym, ap, ◌∙◌, true, some, none, [], ◌∷◌, ◌++◌, map, arith, Bytes, newline,
}
use parq.Prelude.Results.{Result, ok}
use parq.Crates.{Crates}
use parq.Error.{Failure}
use parq.Error.Display.{Shown}
use parq.Schema.{Schema, infer_schema, field_to_json, schema_to_json_string}
use parq.Schema.File.{load_schema-written}
use parq.Schema.Reload.{renamed-inferred}
use parq.Metrics.{Floats, ProcessingMetrics}
use parq.Parser.{Arrow}
use parq.Prepare.{PipelineConfig, pipeline_schema}
use parq.Cli.Subscriber.{Tracing}
use parq.Cli.{Cli, Ended, line, log_setup, print_schema, main}

module _ (X : Crates) (S : Shown X) (A : Arrow X) (R : Floats) (to_lowercase : Bytes → Bytes)
    (map_input read_to_string : Bytes → Result X.IoError Bytes) where
  -- What serde_json prints for a schema.
  abbrev pub schema_text : Schema → Bytes
  schema_text schema = X.to_string_pretty (map (field_to_json X) schema)

  -- The process that has printed a schema.
  abbrev pub prints_schema : Schema → Ended
  prints_schema schema = record { stdout = line (schema_text schema); stderr = []; code = 0 }

  print_schema-inferred :
      (cli : Cli) (bytes : Bytes) {schema : Schema}
      → map_input cli.input ≡ ok bytes
      → infer_schema X bytes 10000 ≡ ok schema
      → print_schema X S map_input cli ≡ prints_schema schema
  unfolding print_schema schema_to_json_string
  print_schema-inferred cli bytes e h = rw (e, print_schema, h) refl

  -- If the arguments ask for the schema only, and a schema is inferred from the input, and nothing
  -- is logged, then the process ends with 0 and prints the schema; and if what it has printed is
  -- in a file, and serde_json reads that text back as the values that it was made of, then
  -- `run_pipeline` takes from that file the same schema as it infers from the input.
  pub printed_schema_reloads :
      (T : Tracing) (run_pipeline : PipelineConfig → Result (Failure X) ProcessingMetrics)
      (cli : Cli) (bytes path : Bytes) {schema : Schema}
      → cli.infer_schema_only ≡ true
      → map_input cli.input ≡ ok bytes
      → infer_schema X bytes 10000 ≡ ok schema
      → T.logged (log_setup T cli) ≡ []
      → read_to_string path ≡ ok (main X S R to_lowercase T map_input run_pipeline cli).stdout
      → X.from_str_vec (schema_text schema ++ newline ∷ []) ≡ ok (map (field_to_json X) schema)
      → (main X S R to_lowercase T map_input run_pipeline cli ≡ prints_schema schema)
        × (pipeline_schema X A read_to_string (some path) bytes
            ≡ pipeline_schema X A read_to_string none bytes)
  unfolding main pipeline_schema
  printed_schema_reloads T run cli bytes path {schema} only e h quiet file back =
      let printed : main X S R to_lowercase T map_input run cli ≡ prints_schema schema =
        ground (arith, only, quiet, print_schema-inferred cli bytes e h) in
      let loaded =
        load_schema-written X schema path read_to_string (schema_text schema) (newline ∷ [])
          (unfold schema_to_json_string in refl) (file ∙ ap (λ r. ok r.stdout) printed) back in
      (printed, loaded ∙ ap ok (renamed-inferred X bytes 10000 h) ∙ sym h)
