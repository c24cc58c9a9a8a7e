-- ===== src/Run/Ending.antt =====
-- Every call of `run_pipeline` can end, and the sources of its errors.
use parq.Prelude.{
  ℕ, ◌+◌, ◌≡◌, Option-cases, ◌⊎◌, inl, inr, ap, ◌∙◌, subst, some, List, arith, Bytes,
}
use parq.Prelude.Results.{Result, ok, err, Result-cases}
use parq.Crates.{Crates}
use parq.Error.{Failure, io_error}
use parq.Chunk.{fixed_chunks}
use parq.Metrics.{ProcessingMetrics}
use parq.Parser.{Arrow, ParseConfig}
use parq.Prepare.{PipelineConfig, failed, prepare, task_config, pipeline_schema, split_input}
use parq.Pipeline.{waiting, broken}
use parq.Pipeline.Sums.{sum_by}
use parq.Pipeline.Ends.{task_work}
use parq.Pipeline.Failures.{SomeFails, failure_source}
use parq.Run.{PipelineReturns, not_prepared, threads_ended}

module _ (X : Crates) (A : Arrow X) (c : ParseConfig X A) (depth : ℕ) (chunks : List Bytes) where
  abbrev bound : ℕ
  bound = 2 + sum_by (λ k. task_work X A c depth (waiting k)) chunks

module _ (X : Crates) (A : Arrow X) (map_input read_to_string : Bytes → Result X.IoError Bytes)
    (config : PipelineConfig) where
  -- Why a call has failed before its threads start.
  pub data IsUnprepared (e : Failure X) : Type 0 where
    unreadable :
        {x : X.IoError} → map_input config.input_path ≡ err x → e ≡ io_error x → IsUnprepared e
    no_schema :
        {bytes : Bytes}
        → map_input config.input_path ≡ ok bytes
        → pipeline_schema X A read_to_string config.schema_path bytes ≡ err e
        → IsUnprepared e

  -- Where the error of this very call comes from: what stopped it before its threads, a chunk of its
  -- input with its schema, or one of its two writer threads in the state in which it has ended.
  unfoldable pub ErrorSource :
      {written : List A.RecordBatch} {r : Result (Failure X) ProcessingMetrics}
      → PipelineReturns X A map_input read_to_string config written r
      → Failure X
      → Type 0
  ErrorSource (not_prepared h) e = IsUnprepared e
  ErrorSource (threads_ended {p} {a} now h reach q) e =
      SomeFails X A (task_config X A config p.schema) config.channel_depth e p.chunks
      ⊎ (a.shared.writer ≡ broken e)
      ⊎ (a.shared.dead_writer ≡ broken e)

  prepare-IsUnprepared :
      {e : Failure X}
      → prepare X A map_input read_to_string config ≡ err (failed e)
      → IsUnprepared e
  unfolding prepare split_input
  prepare-IsUnprepared {e} h = elim (Result-cases (map_input config.input_path)) [
    | inr (x, m) ↦ unreadable m (ground arith)
    | inl (bytes, m) ↦
        elim (Result-cases (pipeline_schema X A read_to_string config.schema_path bytes)) [
          | inr (x, q) ↦ let same : x ≡ e = ground arith in no_schema m (q ∙ ap err same)
          | inl (schema, q) ↦ elim (Option-cases (fixed_chunks bytes config.chunk_size)) [
            | inl f ↦ absurd (ground arith)
            | inr (chunks, f) ↦ absurd (ground arith)
          ]
        ]
  ]

  -- If a call returns an error before its threads start, then it is the file system's for the input
  -- or that of the schema; otherwise it is the error of one of the chunks of the input, parsed with
  -- the schema of the call, or the error with which the writer thread or the quarantine thread of
  -- this call has broken down.
  pub run_pipeline-ErrorSource :
      {written : List A.RecordBatch} {r : Result (Failure X) ProcessingMetrics}
      (call : PipelineReturns X A map_input read_to_string config written r)
      → {e : Failure X} → r ≡ err e
      → ErrorSource call e
  unfolding ErrorSource
  run_pipeline-ErrorSource (not_prepared {e = x} h) {e} same =
      let same_error : x ≡ e = cc in subst IsUnprepared same_error (prepare-IsUnprepared h)
  run_pipeline-ErrorSource (threads_ended {r = ok rows} now h reach q) same = absurd (ground arith)
  run_pipeline-ErrorSource (threads_ended {p} {a} {r = err x} now h reach q) {e} same =
      let same_error : x ≡ e = cc in
      failure_source X A (task_config X A config p.schema) config.channel_depth reach
        (q ∙ ap (λ y. some (err y)) same_error)
