-- ===== src/Run/Lenient.antt =====
-- A lenient call of `run_pipeline` that infers its schema.
use parq.Prelude.{
  ℕ, ◌≤◌, ◌≡◌, ◌≢◌, ◌⊎◌, inl, inr, subst, true, none, some, List, [], ◌∷◌, arith, Bytes, length,
}
use parq.Prelude.Results.{Result, ok, err}
use parq.Crates.{Crates}
use parq.Error.{Failure}
use parq.Schema.{Schema, infer_schema}
use parq.Chunk.{isize_max}
use parq.Chunk.Partition.{IsUsize}
use parq.Metrics.{ProcessingMetrics}
use parq.Parser.{Arrow, ParseConfig, parse_chunk}
use parq.Parser.Total.{AcceptsMatching, parse_chunk_total}
use parq.Prepare.{
  PipelineConfig, failed, Prepared, prepare, task_config, pipeline_schema, split_input,
}
use parq.Pipeline.{System, Reach, returned, WriterFailure, DeadWriterFailure}
use parq.Pipeline.Failures.{SomeFails, failure_source}
use parq.Pipeline.Writers.{writer-failure}
use parq.Run.Table.{prepare-IsPrepared}
use parq.Chunk.Cuts.{fixed_chunks-lossless}
use parq.Run.{PipelineReturns, not_prepared, threads_ended}

module _ (X : Crates) (A : Arrow X) where
  none_fails :
      (c : ParseConfig X A) (depth : ℕ) (e : Failure X)
      → ((bytes : Bytes) → (parse_chunk X A c bytes).result ≢ err e)
      → (chunks : List Bytes) → ¬ SomeFails X A c depth e chunks
  none_fails c depth e h [] f = f
  none_fails c depth e h (k ∷ ks) (inl f) = h k f
  none_fails c depth e h (k ∷ ks) (inr f) = none_fails c depth e h ks f

module _ (X : Crates) (A : Arrow X) (map_input read_to_string : Bytes → Result X.IoError Bytes)
    (config : PipelineConfig) where
  inferred :
      (bytes : Bytes) {schema : Schema}
      → config.schema_path ≡ none
      → pipeline_schema X A read_to_string config.schema_path bytes ≡ ok schema
      → infer_schema X bytes 10000 ≡ ok schema
  unfolding pipeline_schema
  inferred bytes {schema} n h =
      subst (λ path. pipeline_schema X A read_to_string path bytes ≡ ok schema) n h

  prepare-ok :
      (bytes : Bytes) {schema : Schema} {e : Failure X}
      → config.schema_path ≡ none
      → IsUsize config.chunk_size
      → map_input config.input_path ≡ ok bytes
      → length bytes ≤ isize_max
      → infer_schema X bytes 10000 ≡ ok schema
      → prepare X A map_input read_to_string config ≢ err (failed e)
  unfolding prepare pipeline_schema split_input
  prepare-ok bytes n s m l i h =
      let (chunks, f, whole) = fixed_chunks-lossless bytes config.chunk_size l s in
      absurd (ground (arith, n, m, i, f, h))

  threads-lenient :
      (p : Prepared X A) {a : System X A} {e : Failure X}
      → config.ignore_errors ≡ true
      → AcceptsMatching X A
      → (bytes : Bytes) → infer_schema X bytes 10000 ≡ ok p.schema
      → p.schema ≢ []
      → Reach X A (task_config X A config p.schema) config.channel_depth p.chunks a
      → returned X A a ≡ some (err e)
      → WriterFailure X A e ⊎ DeadWriterFailure X A e
  threads-lenient p {a} {e} lenient accepts bytes i some_field reach h =
      let c = task_config X A config p.schema in
      let total = parse_chunk_total X A c lenient bytes 10000 i some_field accepts in
      let no_error : (k : Bytes) → (parse_chunk X A c k).result ≢ err e =
        λ k q. (let (parsed, t) = total k in cc) in
      elim (failure_source X A c config.channel_depth reach h) [
        | inl f ↦ absurd (none_fails X A c config.channel_depth e no_error p.chunks f)
        | inr b ↦ writer-failure X A c config.channel_depth reach b
      ]

  -- A lenient call that infers its schema fails only with the error of one of its writer threads,
  -- whatever the records behind the inferred head are, if the input can be read and has at most
  -- `isize::MAX` bytes, the inferred schema has a field, and Arrow takes columns with the types of
  -- the fields and with one length.
  pub run_pipeline-lenient :
      config.ignore_errors ≡ true
      → config.schema_path ≡ none
      → AcceptsMatching X A
      → IsUsize config.chunk_size
      → (bytes : Bytes) → map_input config.input_path ≡ ok bytes
      → length bytes ≤ isize_max
      → {schema : Schema} → infer_schema X bytes 10000 ≡ ok schema
      → schema ≢ []
      → {written : List A.RecordBatch} {r : Result (Failure X) ProcessingMetrics}
      → PipelineReturns X A map_input read_to_string config written r
      → {e : Failure X} → r ≡ err e
      → WriterFailure X A e ⊎ DeadWriterFailure X A e
  run_pipeline-lenient lenient n accepts s bytes m l i some_field (not_prepared h) same =
      absurd (prepare-ok bytes n s m l i h)
  run_pipeline-lenient lenient n accepts s bytes m l {schema} i some_field
        (threads_ended {p} {r = ok rows} now h reach q) same =
      absurd (ground arith)
  run_pipeline-lenient lenient n accepts s bytes m l {schema} i some_field
        (threads_ended {p} {a} {r = err x} now h reach q) {e} same =
      let ready = prepare-IsPrepared X A map_input read_to_string config bytes m h in
      let i' = inferred bytes n ready.schema_eq in
      let same_schema : schema ≡ p.schema = cc in
      let same_error : x ≡ e = cc in
      subst (λ y. WriterFailure X A y ⊎ DeadWriterFailure X A y) same_error
        (threads-lenient p lenient accepts bytes i' (subst (λ fs. fs ≢ []) same_schema some_field)
          reach q)
