-- ===== src/Run.antt =====
-- `run_pipeline` of crates/parq-core/src/lib.rs as a whole: `Prepare`, then the threads of
-- `Pipeline`, then the statistics. What it returns depends on the schedule and on the clock, so a
-- call is a relation between the configuration, the batches that it has written and its result. A call
-- whose splitter panics or does not end has no result.
pub mod Table
pub mod File
pub mod Ending
pub mod Lenient
pub mod Strict
pub mod Toy
mod Examples
use parq.Prelude.{ℕ, ◌≡◌, Option, none, some, List, [], Bytes, length, ◌==◌, if◌then◌else◌}
use parq.Prelude.Results.{Result, ok, err}
use parq.Crates.{Crates}
use parq.Error.{Failure}
use parq.Metrics.{ProcessingMetrics}
use parq.Parser.{Arrow}
use parq.Prepare.{PipelineConfig, failed, Prepared, prepare, task_config}
use parq.Pipeline.{System, Reach, Rows, returned}

-- What one call reads off its machine: the processors, the clock, and the size of the output file,
-- or 0 where that cannot be read.
pub record Readings : Type 0 where
  pub num_cpus : ℕ
  pub output_size : ℕ
  pub total_ms : ℕ
  pub parse_ms : ℕ
  pub write_ms : ℕ

-- What is used of the crate sha2: `new`, `update`, `finalize`, and the digits of `{:x}`.
pub record Digest : Type 1 where
  pub Hasher : Type 0
  pub new : Hasher
  pub update : Hasher → Bytes → Hasher
  pub finalize : Hasher → Bytes
  pub lower_hex : Bytes → Bytes

unfoldable pub provenance_hash : Digest → Bytes → Bytes
provenance_hash D raw_bytes = D.lower_hex (D.finalize (D.update D.new raw_bytes))

unfoldable pub threads_used : PipelineConfig → Readings → ℕ
threads_used config now = if config.num_threads == 0 then now.num_cpus else config.num_threads

module _ (X : Crates) (A : Arrow X) where
  unfoldable pub metrics_of : PipelineConfig → Readings → Bytes → Rows X A → ProcessingMetrics
  unfolding threads_used
  metrics_of config now bytes rows = record {
    input_bytes = length bytes;
    output_bytes = now.output_size;
    rows_processed = rows.rows_processed;
    rows_errored = rows.rows_errored;
    threads_used = threads_used config now;
    total_duration_ms = now.total_ms;
    parse_duration_ms = now.parse_ms;
    write_duration_ms = now.write_ms;
  }

  abbrev with_metrics :
      PipelineConfig
      → Readings
      → Bytes
      → Result (Failure X) (Rows X A)
      → Result (Failure X) ProcessingMetrics
  with_metrics config now bytes (ok rows) = ok (metrics_of config now bytes rows)
  with_metrics config now bytes (err e) = err e

  module _ (map_input read_to_string : Bytes → Result X.IoError Bytes) where
    pub data PipelineReturns (config : PipelineConfig)
        : List A.RecordBatch → Result (Failure X) ProcessingMetrics → Type 0 where
      not_prepared :
          {e : Failure X}
          → prepare X A map_input read_to_string config ≡ err (failed e)
          → PipelineReturns config [] (err e)
      threads_ended :
          {p : Prepared X A} {a : System X A} {r : Result (Failure X) (Rows X A)} (now : Readings)
          → prepare X A map_input read_to_string config ≡ ok p
          → Reach X A (task_config X A config p.schema) config.channel_depth p.chunks a
          → returned X A a ≡ some r
          → PipelineReturns config a.shared.written (with_metrics config now p.bytes r)
