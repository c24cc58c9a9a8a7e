-- ===== src/Python.antt =====
-- crates/parq-python/src/lib.rs: `convert` as a function of its arguments and of the pipeline's run.
-- PyO3 and the release of the GIL are left out: an exception is the text that it is made of.
pub mod Agreement
mod Examples
use parq.Prelude.{
  ℕ, Bool, true, false, Option, none, some, List, [], ◌∷◌, ◌++◌, Bytes, codes, str_eq,
  if◌then◌else◌,
}
use parq.Prelude.Results.{Result, ok, err, ◌>>=◌}
use parq.Crates.{Crates}
use parq.Error.{Failure}
use parq.Error.Display.{Shown, failure_text}
use parq.Metrics.{ProcessingMetrics}
use parq.Prepare.{Compression, snappy, gzip, brotli, zstd, lz4, uncompressed, PipelineConfig}

pub record ConversionMetrics : Type 0 where
  pub input_bytes : ℕ
  pub output_bytes : ℕ
  pub rows_processed : ℕ
  pub rows_errored : ℕ
  pub threads_used : ℕ
  pub total_duration_ms : ℕ
  pub parse_duration_ms : ℕ
  pub write_duration_ms : ℕ

-- The arguments of `convert`.
pub record Arguments : Type 0 where
  pub input_path : Bytes
  pub output_path : Bytes
  pub compression : Bytes
  pub threads : ℕ
  pub batch_size : ℕ
  pub channel_depth : ℕ
  pub ignore_errors : Bool
  pub flatten : Bool
  pub limit : Option ℕ
  pub schema : Option Bytes
  pub chunk_size : Option ℕ
  pub dead_letter_path : Option Bytes

-- The defaults of the signature.
abbrev pub default_arguments : Bytes → Bytes → Arguments
default_arguments input_path output_path = record {
  input_path = input_path;
  output_path = output_path;
  compression = codes "snappy";
  threads = 0;
  batch_size = 65536;
  channel_depth = 8;
  ignore_errors = false;
  flatten = false;
  limit = none;
  schema = none;
  chunk_size = none;
  dead_letter_path = none;
}

-- The `match` on the name in lower case.
unfoldable pub codec : Bytes → Result Bytes Compression
codec s =
    if str_eq s (codes "snappy")
    then ok snappy
    else if str_eq s (codes "gzip")
    then ok gzip
    else if str_eq s (codes "brotli")
    then ok brotli
    else if str_eq s (codes "zstd")
    then ok zstd
    else if str_eq s (codes "lz4")
    then ok lz4
    else if str_eq s (codes "none")
    then ok uncompressed
    else if str_eq s (codes "uncompressed")
    then ok uncompressed
    else err (
        codes "Unknown compression codec '"
        ++ s
        ++ codes "'. Options: snappy, gzip, brotli, zstd, lz4, none")

unfoldable pub convert_config :
    (to_lowercase : Bytes → Bytes) → Arguments → Result Bytes PipelineConfig
unfolding codec
convert_config to_lowercase a = codec (to_lowercase a.compression) >>= λ comp. ok (record {
  input_path = a.input_path;
  output_path = a.output_path;
  batch_size = a.batch_size;
  compression = comp;
  num_threads = a.threads;
  ignore_errors = a.ignore_errors;
  flatten = a.flatten;
  limit = a.limit;
  schema_path = a.schema;
  channel_depth = a.channel_depth;
  chunk_size = a.chunk_size;
  dead_letter_path = a.dead_letter_path;
})

abbrev conversion_metrics : ProcessingMetrics → ConversionMetrics
conversion_metrics m = record {
  input_bytes = m.input_bytes;
  output_bytes = m.output_bytes;
  rows_processed = m.rows_processed;
  rows_errored = m.rows_errored;
  threads_used = m.threads_used;
  total_duration_ms = m.total_duration_ms;
  parse_duration_ms = m.parse_duration_ms;
  write_duration_ms = m.write_duration_ms;
}

module _ (X : Crates) (S : Shown X) where
  -- `match result { … }`
  unfoldable pub convert_result :
      Result (Failure X) ProcessingMetrics → Result Bytes ConversionMetrics
  convert_result (ok m) = ok (conversion_metrics m)
  convert_result (err e) = err (codes "Parquet conversion failed: " ++ failure_text X S e)

  unfoldable pub convert :
      (to_lowercase : Bytes → Bytes)
      → (run_pipeline : PipelineConfig → Result (Failure X) ProcessingMetrics) → Arguments
      → Result Bytes ConversionMetrics
  unfolding convert_config convert_result
  convert to_lowercase run_pipeline a =
      convert_config to_lowercase a >>= λ config. convert_result (run_pipeline config)
