-- ===== src/Run/Table.antt =====
-- A call of `run_pipeline` that returns metrics, against the input file.
use parq.Prelude.{
  Option-cases, inl, inr, ℕ, ◌≤◌, ◌≡◌, refl, ap, subst, none, some, List, arith, Bytes, length,
}
use parq.Prelude.Results.{Result, ok, err, Result-cases}
use parq.Text.{records}
use parq.Crates.{Crates}
use parq.Error.{Failure}
use parq.Schema.{Schema}
use parq.Chunk.{isize_max, fixed_chunks}
use parq.Chunk.Partition.{IsUsize}
use parq.Metrics.{ProcessingMetrics}
use parq.Parser.{Arrow}
use parq.Parser.Outcome.{accepted, rejected}
use parq.Parser.Cells.{column_of}
use parq.Parser.Table.{rows_column}
use parq.Prepare.{PipelineConfig, Prepared, prepare, task_config, pipeline_schema, split_input}
use parq.Pipeline.{System, Reach, Rows, returned}
use parq.Pipeline.Success.{success_records}
use parq.Pipeline.Output.{bag_of, output-table}
use parq.Run.{Readings, metrics_of, with_metrics, PipelineReturns, not_prepared, threads_ended}

module _ (X : Crates) (A : Arrow X) (map_input read_to_string : Bytes → Result X.IoError Bytes)
    (config : PipelineConfig) where
  -- What a call that goes on to its threads has prepared.
  pub record IsPrepared (bytes : Bytes) (p : Prepared X A) : Type 0 where
    pub same_bytes : p.bytes ≡ bytes
    pub schema_eq : pipeline_schema X A read_to_string config.schema_path bytes ≡ ok p.schema
    pub chunks_eq : fixed_chunks bytes config.chunk_size ≡ some p.chunks

  pub prepare-IsPrepared :
      (bytes : Bytes) {p : Prepared X A}
      → map_input config.input_path ≡ ok bytes
      → prepare X A map_input read_to_string config ≡ ok p
      → IsPrepared bytes p
  unfolding prepare split_input
  prepare-IsPrepared bytes {p} m h =
      elim (Result-cases (pipeline_schema X A read_to_string config.schema_path bytes)) [
        | inl (schema, e) ↦ elim (Option-cases (fixed_chunks bytes config.chunk_size)) [
          | inl n ↦ absurd (ground arith)
          | inr (chunks, f) ↦
              let same : record { bytes = bytes; schema = schema; chunks = chunks } ≡ p =
                ground arith in
              subst (IsPrepared bytes) same
                (record { same_bytes = refl; schema_eq = e; chunks_eq = f })
        ]
        | inr (x, e) ↦ absurd (ground arith)
      ]

  -- What the file holds is the table of the input.
  pub record IsTable (schema : Schema) (bytes : Bytes) (written : List A.RecordBatch) : Type 0 where
    pub table : List A.RecordBatch
    pub same_batches : bag_of written ≡ bag_of table
    pub table_columns :
        (i : ℕ)
        → column_of X A i table
          ≡ rows_column X A (task_config X A config schema) i (accepted X (records bytes))

  -- The statistics of a call, and the file, against the records of the input.
  pub record IsConverted (schema : Schema) (bytes : Bytes) (written : List A.RecordBatch)
      (m : ProcessingMetrics) : Type 0 where
    pub input_size : m.input_bytes ≡ length bytes
    pub processed : m.rows_processed ≡ length (accepted X (records bytes))
    pub errored : m.rows_errored ≡ length (rejected X (records bytes))
    pub output : IsTable schema bytes written

  threads-IsConverted :
      (bytes : Bytes) {p : Prepared X A} {a : System X A} {m : ProcessingMetrics} (now : Readings)
      (r : Result (Failure X) (Rows X A))
      → config.limit ≡ none
      → length bytes ≤ isize_max
      → IsUsize config.chunk_size
      → IsPrepared bytes p
      → Reach X A (task_config X A config p.schema) config.channel_depth p.chunks a
      → returned X A a ≡ some r
      → with_metrics X A config now p.bytes r ≡ ok m
      → IsConverted p.schema bytes a.shared.written m
  threads-IsConverted bytes now (err e) u l s q reach h same = absurd (ground arith)
  threads-IsConverted bytes {p} {a} {m} now (ok rows) u l s q reach h same =
      let (processed, errored) =
        success_records X A (task_config X A config p.schema) config.channel_depth u bytes
          config.chunk_size l s q.chunks_eq reach h in
      let (table, bag, columns) =
        output-table X A (task_config X A config p.schema) config.channel_depth u bytes
          config.chunk_size l s q.chunks_eq reach h in
      let whole : metrics_of X A config now p.bytes rows ≡ m = cc in
      subst (IsConverted p.schema bytes a.shared.written) whole (record {
        input_size = unfold metrics_of in ap length q.same_bytes;
        processed = unfold metrics_of in processed;
        errored = unfold metrics_of in errored;
        output = record { table = table; same_batches = bag; table_columns = columns };
      })

  -- If a call without a row limit returns metrics, then the input could be read, a schema was
  -- inferred from it or loaded, the metrics count the records of the input that are objects and
  -- those that are not, and the file holds, up to the order of its batches, the table of the input:
  -- each column has one cell for each record that is an object, in order. The input has at most
  -- `isize::MAX` bytes.
  pub run_pipeline-IsConverted :
      config.limit ≡ none
      → IsUsize config.chunk_size
      → (bytes : Bytes) → map_input config.input_path ≡ ok bytes
      → length bytes ≤ isize_max
      → {written : List A.RecordBatch} {r : Result (Failure X) ProcessingMetrics}
      → PipelineReturns X A map_input read_to_string config written r
      → {m : ProcessingMetrics} → r ≡ ok m
      → (schema : Schema) × (pipeline_schema X A read_to_string config.schema_path bytes
          ≡ ok schema)
        × IsConverted schema bytes written m
  run_pipeline-IsConverted u s bytes e l (not_prepared h) same = absurd (ground arith)
  run_pipeline-IsConverted u s bytes e l (threads_ended {p} {a} {r} now h reach q) same =
      let ready = prepare-IsPrepared bytes e h in
      (p.schema, ready.schema_eq, threads-IsConverted bytes now r u l s ready reach q same)
