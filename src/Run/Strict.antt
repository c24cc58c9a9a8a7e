-- ===== src/Run/Strict.antt =====
-- A call of `run_pipeline` in strict mode that returns metrics, against the records of the input.
mod Examples
use parq.Prelude.{
  ℕ, ◌+◌, ◌≤◌, ◌≡◌, refl, sym, ap, subst, ◌∙◌, false, Option, none, some, List, [], ◌∷◌, ◌++◌, map,
  arith, Bytes, length, concat, Option-cases, inl, inr,
}
use parq.Prelude.Results.{Result, ok, err}
use parq.Text.{records}
use parq.Crates.{Crates}
use parq.Error.{Failure}
use parq.Chunk.{isize_max, fixed_chunks}
use parq.Chunk.Partition.{IsUsize}
use parq.Chunk.Records.{fixed_chunks-records}
use parq.Metrics.{ProcessingMetrics}
use parq.Parser.{Arrow, ParseConfig, parse_chunk}
use parq.Parser.Outcome.{object_in, accepted, rejected}
use parq.Parser.Modes.{parse_chunk-strict}
use parq.Prepare.{PipelineConfig, prepare, task_config}
use parq.Pipeline.{System, Reach, Rows, returned}
use parq.Pipeline.Totals.{failures_of, over_chunks}
use parq.Pipeline.Success.{success_totals, no_failures}
use parq.Run.{with_metrics, PipelineReturns, not_prepared, threads_ended}
use parq.Run.Table.{prepare-IsPrepared, run_pipeline-IsConverted}

module _ (X : Crates) where
  -- a list of records without a rejected one
  rejected-append_nil :
      (rs ss : List Bytes) → rejected X rs ≡ [] → rejected X ss ≡ [] → rejected X (rs ++ ss) ≡ []
  unfolding rejected
  rejected-append_nil [] ss h k = k
  rejected-append_nil (r ∷ rs) ss h k = elim (Option-cases (object_in X (X.from_slice r))) [
    | inl e ↦ absurd (ground arith)
    | inr (m, e) ↦
        let rest : rejected X rs ≡ [] = ground arith in
        ground (arith, rejected-append_nil rs ss rest k)
  ]

  length-accepted : (rs : List Bytes) → rejected X rs ≡ [] → length (accepted X rs) ≡ length rs
  unfolding accepted rejected
  length-accepted [] h = refl
  length-accepted (r ∷ rs) h = elim (Option-cases (object_in X (X.from_slice r))) [
    | inl e ↦ absurd (ground arith)
    | inr (m, e) ↦
        let rest : rejected X rs ≡ [] = ground arith in ground (arith, length-accepted rs rest)
  ]

module _ (X : Crates) (A : Arrow X) (c : ParseConfig X A) (depth : ℕ) where
  chunks_strict :
      c.limit ≡ none
      → c.ignore_errors ≡ false
      → (ks : List Bytes) → over_chunks X A c depth (failures_of X A c depth) ks ≡ 0
      → rejected X (concat (map records ks)) ≡ []
  chunks_strict u s [] h = unfold rejected in refl
  chunks_strict u s (k ∷ ks) h =
      let ((p, e), rest) = no_failures X A c depth k ks h in
      rejected-append_nil X (records k) (concat (map records ks)) (parse_chunk-strict X A c u s k e)
        (chunks_strict u s ks rest)

module _ (X : Crates) (A : Arrow X) (map_input read_to_string : Bytes → Result X.IoError Bytes)
    (config : PipelineConfig) where
  -- what the threads of a strict call have seen
  strict_input :
      config.limit ≡ none
      → config.ignore_errors ≡ false
      → IsUsize config.chunk_size
      → (bytes : Bytes) → map_input config.input_path ≡ ok bytes
      → length bytes ≤ isize_max
      → {written : List A.RecordBatch} {r : Result (Failure X) ProcessingMetrics}
      → PipelineReturns X A map_input read_to_string config written r
      → {m : ProcessingMetrics} → r ≡ ok m
      → rejected X (records bytes) ≡ []
  strict_input u s z bytes e l (not_prepared h) same = absurd (ground arith)
  strict_input u s z bytes e l (threads_ended {r = err x} now h reach q) same =
      absurd (ground arith)
  strict_input u s z bytes e l (threads_ended {p} {r = ok rows} now h reach q) same =
      let ready = prepare-IsPrepared X A map_input read_to_string config bytes e h in
      let (fails, processed, errored, written) =
        success_totals X A (task_config X A config p.schema) config.channel_depth reach q in
      subst (λ rs. rejected X rs ≡ [])
        (fixed_chunks-records bytes config.chunk_size l z ready.chunks_eq)
        (chunks_strict X A (task_config X A config p.schema) config.channel_depth u s p.chunks
          fails)

  -- In strict mode and without a row limit, a call returns metrics only if every record of the
  -- input is an object; then all of them are counted as processed and none as errored. The input
  -- has at most `isize::MAX` bytes.
  pub run_pipeline-strict :
      config.limit ≡ none
      → config.ignore_errors ≡ false
      → IsUsize config.chunk_size
      → (bytes : Bytes) → map_input config.input_path ≡ ok bytes
      → length bytes ≤ isize_max
      → {written : List A.RecordBatch} {r : Result (Failure X) ProcessingMetrics}
      → PipelineReturns X A map_input read_to_string config written r
      → {m : ProcessingMetrics} → r ≡ ok m
      → (rejected X (records bytes) ≡ [])
        × (m.rows_processed ≡ length (records bytes))
        × (m.rows_errored ≡ 0)
  run_pipeline-strict u s z bytes e l ends {m} done =
      let clean = strict_input u s z bytes e l ends done in
      let (schema, loaded, converted) =
        run_pipeline-IsConverted X A map_input read_to_string config u z bytes e l ends done in
      (
        clean,
        converted.processed ∙ length-accepted X (records bytes) clean,
        converted.errored ∙ ap length clean,
      )
