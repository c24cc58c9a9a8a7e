-- ===== src/Cli.antt =====
-- crates/parq/src/main.rs: `main` as a function of the parsed arguments. clap's parsing and the global
-- allocator are left out; the pipeline's run, which depends on a schedule, the input file and what a
-- log subscriber writes are arguments. A text is the list of its characters.
pub mod Subscriber
pub mod Payload
pub mod Telemetry
pub mod Outcome
pub mod Success
pub mod Reload
pub mod Toy
mod Examples
use parq.Prelude.{
  ℕ, ◌+◌, Bool, true, false, not, ◌&&◌, ◌||◌, Option, none, some, List, [], ◌∷◌, ◌++◌, Bytes, codes,
  newline, ◌==◌, if◌then◌else◌,
}
use parq.Prelude.Results.{Result, ok, err, ◌>>=◌}
use parq.Text.Decimal.{decimal}
use parq.Crates.{Crates}
use parq.Error.{
  Failure, ParqError, parq_error, io_error, json_parse, type_mismatch, insufficient_data,
}
use parq.Error.Display.{Shown, parq_text, failure_text}
use parq.Schema.{infer_schema, schema_to_json_string, unwrap_or}
use parq.Metrics.{Floats, ProcessingMetrics, print_report}
use parq.Io.{parse_compression}
use parq.Prepare.{PipelineConfig}
use parq.Cli.Subscriber.{Tracing, LogSetup}

pub record Cli : Type 0 where
  pub input : Bytes
  pub output : Option Bytes
  pub compression : Bytes
  pub threads : ℕ
  pub batch_size : ℕ
  pub channel_depth : ℕ
  pub ignore_errors : Bool
  pub flatten : Bool
  pub limit : Option ℕ
  pub schema : Option Bytes
  pub chunk_size : Option ℕ
  pub dead_letter_path : Option Bytes
  pub machine_telemetry : Bool
  pub infer_schema_only : Bool
  pub verbose : ℕ
  pub quiet : Bool

-- The arguments for an input and an output file, with the defaults that the attributes give.
abbrev pub default_cli : Bytes → Bytes → Cli
default_cli input output = record {
  input = input;
  output = some output;
  compression = codes "snappy";
  threads = 0;
  batch_size = 65536;
  channel_depth = 8;
  ignore_errors = false;
  flatten = false;
  limit = none;
  schema = none;
  chunk_size = none;
  dead_letter_path = none;
  machine_telemetry = false;
  infer_schema_only = false;
  verbose = 0;
  quiet = false;
}

-- How the process ends: what it has printed, and its exit code.
pub record Ended : Type 0 where
  pub stdout : Bytes
  pub stderr : Bytes
  pub code : ℕ

-- `match cli.verbose`
unfoldable pub log_level : ℕ → Bytes
log_level verbose =
    if verbose == 0
    then codes "warn"
    else if verbose == 1
    then codes "info"
    else if verbose == 2
    then codes "debug"
    else codes "trace"

-- The subscriber that is installed, if any.
unfoldable pub log_setup : (T : Tracing) → Cli → Option (LogSetup T.EnvFilter)
unfolding log_level
log_setup T cli =
    if not cli.quiet && not cli.machine_telemetry
    then some (record {
      filter = unwrap_or T.try_from_default_env (T.new_filter (log_level cli.verbose));
      with_target = false;
      compact = true;
    })
    else none

-- A process that has logged a text to stdout before anything else was printed.
abbrev pub after_logging : Bytes → Ended → Ended
after_logging text r = record r { stdout = text ++ r.stdout }

-- `println!` of a text
abbrev pub line : Bytes → Bytes
line s = s ++ newline ∷ []

module _ (X : Crates) (S : Shown X) where
  -- The telemetry of an error.
  unfoldable pub parq_telemetry : ParqError X → Bytes
  parq_telemetry (json_parse line source) =
      codes "{\"status\":\"failed\",\"error_type\":\"JsonParse\",\"details\":{\"line\":"
      ++ decimal line
      ++ codes ",\"message\":"
      ++ S.quoted (S.json_text source)
      ++ codes "}}"
  parq_telemetry (type_mismatch field expected found line) =
      codes "{\"status\":\"failed\",\"error_type\":\"TypeMismatch\",\"details\":{\"field\":"
      ++ S.quoted field
      ++ codes ",\"expected\":"
      ++ S.quoted expected
      ++ codes ",\"found\":"
      ++ S.quoted found
      ++ codes ",\"line\":"
      ++ decimal line
      ++ codes "}}"
  parq_telemetry (insufficient_data rows) =
      codes "{\"status\":\"failed\",\"error_type\":\"InsufficientData\",\"details\":{\"rows\":"
      ++ decimal rows
      ++ codes "}}"
  parq_telemetry other =
      codes "{\"status\":\"failed\",\"error_type\":\"Runtime\",\"message\":"
      ++ S.quoted (parq_text X S other)
      ++ codes "}"

  -- `err.downcast_ref::<ParqError>()`
  unfoldable pub telemetry : Failure X → Bytes
  unfolding parq_telemetry
  telemetry (parq_error e) = parq_telemetry e
  telemetry e =
      codes "{\"status\":\"failed\",\"error_type\":\"Generic\",\"message\":"
      ++ S.quoted (failure_text X S e)
      ++ codes "}"

  -- `return Err(e)` from `main`
  abbrev pub returned_error : Failure X → Ended
  returned_error e = record {
    stdout = [];
    stderr = line (codes "Error: " ++ S.debug_error e);
    code = 1;
  }

  -- `--infer-schema-only`
  unfoldable pub print_schema : (map_input : Bytes → Result X.IoError Bytes) → Cli → Ended
  print_schema map_input cli = elim (map_input cli.input) [
    | err e ↦ returned_error (io_error e)
    | ok bytes ↦ elim (infer_schema X bytes 10000 >>= schema_to_json_string X) [
      | err e ↦ returned_error e
      | ok text ↦ record { stdout = line text; stderr = []; code = 0 }
    ]
  ]

  module _ (R : Floats) (to_lowercase : Bytes → Bytes) where
    -- The end of `main` behind `run_pipeline`.
    unfoldable pub finish_main : Cli → Result (Failure X) ProcessingMetrics → Ended
    unfolding telemetry
    finish_main cli (ok m) = record {
      stdout =
          if cli.machine_telemetry
          then line (
              codes "{\"status\":\"success\",\"rows_processed\":"
              ++ decimal m.rows_processed
              ++ codes "}")
          else print_report R m;
      stderr = [];
      code = 0;
    }
    finish_main cli (err e) =
        if cli.machine_telemetry
        then record { stdout = []; stderr = line (telemetry e); code = 1 }
        else returned_error e

    -- The configuration; `expect` on the output panics without one.
    unfoldable pub cli_config : Cli → Bytes → Result (Failure X) PipelineConfig
    cli_config cli output = parse_compression X to_lowercase cli.compression >>= λ compression.
        ok (record {
          input_path = cli.input;
          output_path = output;
          batch_size = cli.batch_size;
          compression = compression;
          num_threads = cli.threads;
          ignore_errors = cli.ignore_errors;
          flatten = cli.flatten;
          limit = cli.limit;
          schema_path = cli.schema;
          channel_depth = cli.channel_depth;
          chunk_size = cli.chunk_size;
          dead_letter_path = cli.dead_letter_path;
        })

    -- The conversion, with the output of the arguments.
    unfoldable pub convert_to :
        (run_pipeline : PipelineConfig → Result (Failure X) ProcessingMetrics)
        → Cli
        → Option Bytes
        → Ended
    unfolding cli_config finish_main
    convert_to run_pipeline cli none = record {
      stdout = [];
      stderr = codes "--output required";
      code = 101;
    }
    convert_to run_pipeline cli (some output) = elim (cli_config cli output) [
      | err e ↦ returned_error e
      | ok config ↦ finish_main cli (run_pipeline config)
    ]

    unfoldable pub main :
        (T : Tracing)
        → (map_input : Bytes → Result X.IoError Bytes)
        → (run_pipeline : PipelineConfig → Result (Failure X) ProcessingMetrics) → Cli
        → Ended
    unfolding print_schema convert_to log_setup
    main T map_input run_pipeline cli = after_logging (T.logged (log_setup T cli)) (
        if cli.infer_schema_only
        then print_schema map_input cli
        else convert_to run_pipeline cli cli.output)
