-- ===== src/Python/Agreement.antt =====
-- `convert` of crates/parq-python/src/lib.rs and `main` of crates/parq/src/main.rs on the same
-- arguments.
use parq.Prelude.{
  ◌==◌, ◌≡◌, inl, inr, refl, Bool, true, false, Option, none, some, arith, Bytes, codes, str_eq,
}
use parq.Prelude.Results.{Result, ok, err, Result-cases}
use parq.Crates.{Crates}
use parq.Error.{Failure}
use parq.Error.Display.{Shown}
use parq.Metrics.{Floats, ProcessingMetrics}
use parq.Io.{parse_compression}
use parq.Io
use parq.Prepare.{PipelineConfig, default_config}
use parq.Cli.Subscriber.{Tracing}
use parq.Cli.{Cli, default_cli, cli_config, finish_main, convert_to, main}
use parq.Python.{Arguments, default_arguments, codec, convert_config, convert_result, convert}

-- The command line that has the arguments of a call, with telemetry or without.
abbrev pub as_cli : Bool → Arguments → Cli
as_cli telemetry a = record {
  input = a.input_path;
  output = some a.output_path;
  compression = a.compression;
  threads = a.threads;
  batch_size = a.batch_size;
  channel_depth = a.channel_depth;
  ignore_errors = a.ignore_errors;
  flatten = a.flatten;
  limit = a.limit;
  schema = a.schema;
  chunk_size = a.chunk_size;
  dead_letter_path = a.dead_letter_path;
  machine_telemetry = telemetry;
  infer_schema_only = false;
  verbose = 0;
  quiet = false;
}

-- The value, if there is one.
abbrev pub value_of {ℓ κ} : {E : Type ℓ} {B : Type κ} → Result E B → Option B
value_of (ok b) = some b
value_of (err e) = none

module _ (X : Crates) (S : Shown X) (R : Floats) (to_lowercase : Bytes → Bytes) where
  codec-agree : (s : Bytes) → value_of (codec s) ≡ value_of (Io.codec X to_lowercase s)
  unfolding codec Io.codec
  codec-agree s = ground arith

  config-agree :
      (a : Arguments) (telemetry : Bool)
      → value_of (convert_config to_lowercase a)
        ≡ value_of (cli_config X S R to_lowercase (as_cli telemetry a) a.output_path)
  unfolding convert_config cli_config parse_compression
  config-agree a telemetry = ground (arith, codec-agree (to_lowercase a.compression))

  -- Whether a call or a process is a success.
  abbrev pub is_ok {ℓ κ} : {E : Type ℓ} {B : Type κ} → Result E B → Bool
  is_ok (ok b) = true
  is_ok (err e) = false

  end-agree :
      (cli : Cli) (r : Result (Failure X) ProcessingMetrics)
      → is_ok (convert_result X S r) ≡ ((finish_main X S R to_lowercase cli r).code == 0)
  unfolding convert_result finish_main
  end-agree cli (ok m) = refl
  end-agree cli (err e) = ground arith

  outcome-agree :
      (T : Tracing) (map_input : Bytes → Result X.IoError Bytes) (a : Arguments) (telemetry : Bool)
      (run : PipelineConfig → Result (Failure X) ProcessingMetrics)
      → is_ok (convert X S to_lowercase run a)
        ≡ ((main X S R to_lowercase T map_input run (as_cli telemetry a)).code == 0)
  unfolding convert main convert_to
  outcome-agree T map_input a telemetry run =
      let same = config-agree a telemetry in
      let cli = cli_config X S R to_lowercase (as_cli telemetry a) a.output_path in
      elim (Result-cases (convert_config to_lowercase a)) [
        | inl (config, e) ↦ elim (Result-cases cli) [
          | inl (config', f) ↦
              let eq : config ≡ config' = ground arith in
              ground (
                arith,
                end-agree (as_cli telemetry a) (run config),
                end-agree (as_cli telemetry a) (run config'),
              )
          | inr (x, f) ↦ absurd (ground arith)
        ]
        | inr (x, e) ↦ elim (Result-cases cli) [
          | inl (config', f) ↦ absurd (ground arith)
          | inr (y, f) ↦ ground arith
        ]
      ]

  -- Python and the command line agree on the same arguments: they give `run_pipeline` the same
  -- configuration or both reject the codec, and the call returns metrics exactly if the process
  -- ends with exit code 0. The defaults of both are the same, and, if `to_lowercase` leaves
  -- "snappy" alone, they are those of `PipelineConfig`.
  pub convert-agree :
      to_lowercase (codes "snappy") ≡ codes "snappy"
      → (T : Tracing) (map_input : Bytes → Result X.IoError Bytes) (a : Arguments)
        (telemetry : Bool) (run : PipelineConfig → Result (Failure X) ProcessingMetrics)
      → (value_of (convert_config to_lowercase a)
          ≡ value_of (cli_config X S R to_lowercase (as_cli telemetry a) a.output_path))
        × (is_ok (convert X S to_lowercase run a)
            ≡ ((main X S R to_lowercase T map_input run (as_cli telemetry a)).code == 0))
        × (as_cli false (default_arguments a.input_path a.output_path)
            ≡ default_cli a.input_path a.output_path)
        × (convert_config to_lowercase (default_arguments a.input_path a.output_path)
            ≡ ok (record default_config { input_path = a.input_path; output_path = a.output_path }))
  unfolding convert_config codec str_eq
  convert-agree lower T map_input a telemetry run =
      (config-agree a telemetry, outcome-agree T map_input a telemetry run, refl, rw lower)
