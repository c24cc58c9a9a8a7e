-- ===== src/Run/Strict/Examples.antt =====
-- A strict call of `run_pipeline` over one chunk, and the theorem at it.
use parq.Prelude.{
  ℕ, true, ◌≡◌, refl, none, some, List, [], ◌∷◌, arith, Bytes, codes, length, str_eq,
}
use parq.Prelude.Int.{pos}
use parq.Prelude.Results.{Result, ok}
use parq.Text.{records, split_lines, trim}
use parq.Crates.Toy.{toy, toy_get, toy_parse}
use parq.DataType.{merge}
use parq.Dict.{lookup, put}
use parq.Schema.{
  infer_schema, infer_line, infer_lines, infer_value, infer_entry, infer_entries, infer_field,
  finish_schema, strip_bom, promote, value_type,
}
use parq.Chunk.{fixed_chunks, snap_to_newline, slice, push}
use parq.Columns.{Array, int64_array, bool_array, new_builder, append, finish}
use parq.Metrics.{ProcessingMetrics}
use parq.Parser.{parse_chunk, parse_line, flush_batch, append_fields}
use parq.Parser.Outcome.{rejected}
use parq.Parser.Toy.{toy_new, toy_arrow}
use parq.Prepare.{
  PipelineConfig, default_config, Prepared, pipeline_schema, split_input, prepare, task_config,
}
use parq.Pipeline.{
  done, start, count, send, finish_task, receive, close, closed, System, work, drain, Reach, here,
  next, returned,
}
use parq.Run.{threads_used, metrics_of, PipelineReturns, threads_ended}
use parq.Run.Toy.{no_file, now, schema_ab}
use parq.Run.Strict.{run_pipeline-strict}

abbrev good_input : Bytes
good_input = codes "{a1bt\n\n{a2\n"

abbrev map_good : Bytes → Result ℕ Bytes
map_good path = ok good_input

abbrev good_config : PipelineConfig
good_config = record default_config { batch_size = 2; channel_depth = 1; chunk_size = some 64 }

abbrev good_prepared : Prepared toy toy_arrow
good_prepared = record { bytes = good_input; schema = schema_ab; chunks = good_input ∷ [] }

good_prepare : prepare toy toy_arrow map_good no_file good_config ≡ ok good_prepared
unfolding prepare split_input fixed_chunks slice push snap_to_newline pipeline_schema infer_schema
    infer_line infer_value infer_entries infer_entry infer_field finish_schema strip_bom promote
    value_type lookup put split_lines trim toy_parse str_eq infer_lines merge
good_prepare = refl

abbrev good_batch : List (Array toy)
good_batch =
    int64_array (some (pos 1) ∷ some (pos 2) ∷ []) ∷ bool_array (some true ∷ none ∷ []) ∷ []

abbrev good_state : System toy toy_arrow
good_state = record {
  shared = record {
    total_rows = 2;
    error_rows = 0;
    parse_error = none;
    channel = [];
    written = good_batch ∷ [];
    writer = closed;
    dead_channel = [];
    dead_written = [];
    dead_writer = closed;
  };
  tasks = done ∷ [];
}

good_run :
    Reach toy toy_arrow
      (task_config toy toy_arrow good_config schema_ab)
      1
      (good_input ∷ [])
      good_state
unfolding parse_chunk parse_line flush_batch append_fields append new_builder finish split_lines
    trim toy_parse toy_get toy_new str_eq
good_run =
    let r1 = next here (work [] [] (start refl)) in
    let r2 = next r1 (work [] [] count) in
    let r3 = next r2 (work [] [] (send refl (omega arith))) in
    let r4 = next r3 (work [] [] finish_task) in
    next (next r4 (drain (receive refl refl))) (drain (close refl refl refl))

good_return :
    returned toy toy_arrow good_state ≡ some (ok (record { rows_processed = 2; rows_errored = 0 }))
unfolding returned
good_return = refl

abbrev good_metrics : ProcessingMetrics
good_metrics = record {
  input_bytes = 11;
  output_bytes = 99;
  rows_processed = 2;
  rows_errored = 0;
  threads_used = 8;
  total_duration_ms = 5;
  parse_duration_ms = 3;
  write_duration_ms = 4;
}

good_call :
    PipelineReturns toy toy_arrow map_good no_file good_config (good_batch ∷ []) (ok good_metrics)
unfolding metrics_of threads_used
good_call = threads_ended now good_prepare good_run good_return

run_pipeline-strict_example :
    (rejected toy (records good_input) ≡ [])
    × (good_metrics.rows_processed ≡ length (records good_input))
    × (good_metrics.rows_errored ≡ 0)
run_pipeline-strict_example =
    run_pipeline-strict toy toy_arrow map_good no_file good_config refl refl (omega arith)
      good_input refl (omega arith) good_call refl
