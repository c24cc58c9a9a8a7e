-- ===== src/Prepare.antt =====
-- `PipelineConfig` and what `run_pipeline` of crates/parq-core/src/lib.rs does before its threads
-- start: it maps the input, gets a schema and cuts the input into chunks. The file system is a pair
-- of functions from paths; logging is left out, and the provenance hash is in `Run`.
use parq.Prelude.{ℕ, Bool, true, false, Option, none, some, List, [], Bytes}
use parq.Prelude.Results.{Result, ok, err}
use parq.Crates.{Crates}
use parq.Error.{Failure, io_error}
use parq.Schema.{Schema, infer_schema, load_schema_from_file}
use parq.Chunk.{fixed_chunks}
use parq.Parser.{Arrow, ParseConfig}

-- `parquet::basic::Compression`, at the default levels.
pub data Compression : Type 0 where
  snappy gzip brotli zstd lz4 uncompressed : Compression

pub record PipelineConfig : Type 0 where
  pub input_path : Bytes
  pub output_path : Bytes
  pub batch_size : ℕ
  pub compression : Compression
  pub num_threads : ℕ
  pub ignore_errors : Bool
  pub flatten : Bool
  pub limit : Option ℕ
  pub schema_path : Option Bytes
  pub channel_depth : ℕ
  pub chunk_size : Option ℕ
  pub dead_letter_path : Option Bytes

abbrev pub default_config : PipelineConfig
default_config = record {
  input_path = [];
  output_path = [];
  batch_size = 65536;
  compression = snappy;
  num_threads = 0;
  ignore_errors = false;
  flatten = false;
  limit = none;
  schema_path = none;
  channel_depth = 8;
  chunk_size = none;
  dead_letter_path = none;
}

abbrev pub is_some {ℓ} : {A : Type ℓ} → Option A → Bool
is_some none = false
is_some (some a) = true

-- What stops a call before its threads start: an error that it returns, or the splitter, which has
-- panicked or not come to an end.
pub data Halt (X : Crates) : Type 0 where
  failed : Failure X → Halt X
  stuck : Halt X

module _ (X : Crates) (A : Arrow X) where
  -- The arguments that every task gives to `parse_chunk`.
  abbrev pub task_config : PipelineConfig → Schema → ParseConfig X A
  task_config config schema = record {
    schema = schema;
    batch_size = config.batch_size;
    ignore_errors = config.ignore_errors;
    flatten_json = config.flatten;
    limit = config.limit;
    has_dead_letter = is_some config.dead_letter_path;
  }

  pub record Prepared : Type 0 where
    pub bytes : Bytes
    pub schema : Schema
    pub chunks : List Bytes

  unfoldable pub pipeline_schema :
      (read_to_string : Bytes → Result X.IoError Bytes)
      → Option Bytes
      → Bytes
      → Result (Failure X) Schema
  pipeline_schema read_to_string (some path) bytes = load_schema_from_file X read_to_string path
  pipeline_schema read_to_string none bytes = infer_schema X bytes 10000

  unfoldable pub split_input : Bytes → Option ℕ → Schema → Result (Halt X) Prepared
  split_input bytes chunk_size schema = elim (fixed_chunks bytes chunk_size) [
    | none ↦ err stuck
    | some chunks ↦ ok (record { bytes = bytes; schema = schema; chunks = chunks })
  ]

  -- Opening and mapping the input, the schema, and the chunks.
  unfoldable pub prepare :
      (map_input read_to_string : Bytes → Result X.IoError Bytes)
      → PipelineConfig
      → Result (Halt X) Prepared
  unfolding pipeline_schema split_input
  prepare map_input read_to_string config = elim (map_input config.input_path) [
    | err e ↦ err (failed (io_error e))
    | ok bytes ↦ elim (pipeline_schema read_to_string config.schema_path bytes) [
      | err e ↦ err (failed e)
      | ok schema ↦ split_input bytes config.chunk_size schema
    ]
  ]
