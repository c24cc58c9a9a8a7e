-- ===== src/Run/File.antt =====
-- The output file of a call of `run_pipeline`: its writer thread, which parq-io has, against the
-- statistics that the call returns.
use parq.Prelude.{ℕ, ◌≡◌, some, List, Bytes, length}
use parq.Prelude.Results.{Result}
use parq.Crates.{Crates}
use parq.Error.{Failure}
use parq.Schema.{Schema}
use parq.Metrics.{ProcessingMetrics}
use parq.Parser.{Arrow}
use parq.Parser.Cells.{column}
use parq.Prepare.{PipelineConfig}
use parq.Io.{Parquet, ParquetStreamWriter, properties, writer_thread}
use parq.Run.{Digest, provenance_hash}

module _ (X : Crates) (A : Arrow X) (num_rows : A.RecordBatch → ℕ) where
  -- The rows of a batch are the cells of its first column.
  abbrev pub CountsRows : Type 0
  CountsRows = (b : A.RecordBatch) → num_rows b ≡ length (column X 0 (A.columns b))

module _ (X : Crates) (A : Arrow X) (Q : Parquet X A) (D : Digest)
    (map_input read_to_string : Bytes → Result X.IoError Bytes) (config : PipelineConfig) where
  -- The writer thread of a call, for the batches that it receives.
  unfoldable pub output_writer :
      Schema
      → (raw_bytes unix_ts : Bytes) → List A.RecordBatch
      → Result (Failure X) (ParquetStreamWriter X A Q)
  output_writer schema raw_bytes unix_ts batches =
      writer_thread X A Q config.output_path schema config.compression
        (some (provenance_hash D raw_bytes)) unix_ts batches

  -- The file that a writer has left, against the input and the statistics.
  pub record IsStored (bytes unix_ts : Bytes) (written : List A.RecordBatch)
      (w : ParquetStreamWriter X A Q) (m : ProcessingMetrics) : Type 0 where
    pub settings :
        Q.settings w.inner ≡ properties config.compression (some (provenance_hash D bytes)) unix_ts
    pub content : Q.content w.inner ≡ written
    pub batches : w.batches_written ≡ length written
    pub rows : w.rows_written ≡ m.rows_processed
