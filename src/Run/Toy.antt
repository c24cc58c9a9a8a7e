-- ===== src/Run/Toy.antt =====
-- Two calls of `run_pipeline` for tests, over the same two chunks: a lenient one that returns
-- metrics and a strict one that fails.
use parq.Prelude.{
  ◌≤◌, subst, ℕ, ◌≡◌, refl, true, false, none, some, List, [], ◌∷◌, arith, Bytes, codes, length,
  str_eq,
}
use parq.Prelude.Int.{pos}
use parq.Prelude.Results.{Result, ok, err}
use parq.Text.{split_lines, trim}
use parq.DataType.{int64, boolean, merge}
use parq.Crates.Toy.{toy, toy_get, toy_parse}
use parq.Dict.{lookup, put}
use parq.Error.{Failure, parq_error, io_error, json_parse}
use parq.Schema.{
  Schema, infer_schema, infer_line, infer_lines, infer_value, infer_entry, infer_entries,
  infer_field, finish_schema, strip_bom, promote, value_type,
}
use parq.Chunk.{isize_max, fixed_chunks, snap_to_newline, slice, push}
use parq.Columns.{Array, int64_array, bool_array, new_builder, append, finish}
use parq.Metrics.{ProcessingMetrics}
use parq.Parser.{parse_chunk, parse_line, flush_batch, append_fields}
use parq.Parser.Toy.{toy_new, toy_arrow}
use parq.Prepare.{
  PipelineConfig, default_config, Prepared, pipeline_schema, split_input, prepare, task_config,
}
use parq.Pipeline.{
  done, skip, start, quarantine, fail, count, send, hand_over, finish_task, receive, close,
  dead_receive, dead_close, break_down, io_failed, lose, broken, writing, closed, System, work,
  drain, Reach, here, next, returned,
}
use parq.Run.{Readings, threads_used, metrics_of, PipelineReturns, threads_ended}

abbrev pub input : Bytes
input = codes "{a1bt\nn\n{a2\n"

abbrev pub map_input : Bytes → Result ℕ Bytes
map_input path = ok input

abbrev pub no_file : Bytes → Result ℕ Bytes
no_file path = err 2

pub short : (bytes : Bytes) → map_input (codes "in") ≡ ok bytes → length bytes ≤ isize_max
short bytes h =
    let same : input ≡ bytes = cc in subst (λ b. length b ≤ isize_max) same (omega arith)

abbrev pub lenient_config : PipelineConfig
lenient_config = record default_config {
  input_path = codes "in";
  output_path = codes "out";
  batch_size = 2;
  ignore_errors = true;
  channel_depth = 1;
  chunk_size = some 4;
  dead_letter_path = some (codes "dead");
}

abbrev pub now : Readings
now = record { num_cpus = 8; output_size = 99; total_ms = 5; parse_ms = 3; write_ms = 4 }

abbrev pub schema_ab : Schema
schema_ab =
    record { name = codes "a"; data_type = int64; nullable = true }
    ∷ record { name = codes "b"; data_type = boolean; nullable = true }
    ∷ []

abbrev two_chunks : List Bytes
two_chunks = codes "{a1bt\n" ∷ codes "n\n{a2\n" ∷ []

abbrev prepared : Prepared toy toy_arrow
prepared = record { bytes = input; schema = schema_ab; chunks = two_chunks }

pub input_schema : pipeline_schema toy toy_arrow no_file none input ≡ ok schema_ab
unfolding pipeline_schema infer_schema infer_line infer_value infer_entries infer_entry infer_field
    finish_schema strip_bom promote value_type lookup put split_lines trim toy_parse str_eq
    infer_lines merge
input_schema = refl

prepare_run : prepare toy toy_arrow map_input no_file lenient_config ≡ ok prepared
unfolding prepare split_input fixed_chunks slice push snap_to_newline
prepare_run = rw (prepare, input_schema) refl

abbrev first_batch : List (Array toy)
first_batch = int64_array (some (pos 1) ∷ []) ∷ bool_array (some true ∷ []) ∷ []

abbrev second_batch : List (Array toy)
second_batch = int64_array (some (pos 2) ∷ []) ∷ bool_array (none ∷ []) ∷ []

abbrev pub written : List (List (Array toy))
written = second_batch ∷ first_batch ∷ []

-- The state after both chunks.
abbrev last_state : System toy toy_arrow
last_state = record {
  shared = record {
    total_rows = 2;
    error_rows = 1;
    parse_error = none;
    channel = [];
    written = written;
    writer = closed;
    dead_channel = [];
    dead_written = codes "n" ∷ [];
    dead_writer = closed;
  };
  tasks = done ∷ done ∷ [];
}

last_run :
    Reach toy toy_arrow (task_config toy toy_arrow lenient_config schema_ab) 1 two_chunks last_state
unfolding parse_chunk parse_line flush_batch append_fields append new_builder finish split_lines
    trim toy_parse toy_get toy_new str_eq
last_run =
    let r1 = next here (work [] (_ ∷ []) (start refl)) in
    let r2 = next r1 (work (_ ∷ []) [] (start refl)) in
    let r3 = next r2 (work (_ ∷ []) [] quarantine) in
    let r4 = next r3 (work (_ ∷ []) [] count) in
    let r5 = next r4 (work [] (_ ∷ []) count) in
    let r6 = next r5 (work (_ ∷ []) [] (hand_over refl refl)) in
    let r7 = next r6 (work [] (_ ∷ []) (send refl (omega arith))) in
    let r8 = next (next r7 (work (_ ∷ []) [] finish_task)) (work [] (_ ∷ []) finish_task) in
    let r9 = next (next r8 (drain (receive refl refl))) (drain (close refl refl refl)) in
    next (next r9 (drain (dead_receive refl refl))) (drain (dead_close refl refl refl))

last_rows :
    returned toy toy_arrow last_state ≡ some (ok (record { rows_processed = 2; rows_errored = 1 }))
unfolding returned
last_rows = refl

abbrev pub run_metrics : ProcessingMetrics
run_metrics = record {
  input_bytes = 12;
  output_bytes = 99;
  rows_processed = 2;
  rows_errored = 1;
  threads_used = 8;
  total_duration_ms = 5;
  parse_duration_ms = 3;
  write_duration_ms = 4;
}

pub lenient_call :
    PipelineReturns toy toy_arrow map_input no_file lenient_config written (ok run_metrics)
unfolding metrics_of threads_used
lenient_call = threads_ended now prepare_run last_run last_rows

abbrev pub strict_config : PipelineConfig
strict_config = record lenient_config { ignore_errors = false; dead_letter_path = none }

abbrev pub strict_error : Failure toy
strict_error = parq_error (json_parse 1 0)

strict_prepare : prepare toy toy_arrow map_input no_file strict_config ≡ ok prepared
unfolding prepare split_input fixed_chunks slice push snap_to_newline
strict_prepare = rw (prepare, input_schema) refl

-- The state after the second chunk has failed and the first one was not started.
abbrev failed_state : System toy toy_arrow
failed_state = record {
  shared = record {
    total_rows = 0;
    error_rows = 0;
    parse_error = some strict_error;
    channel = [];
    written = [];
    writer = writing;
    dead_channel = [];
    dead_written = [];
    dead_writer = closed;
  };
  tasks = done ∷ done ∷ [];
}

failed_run :
    Reach toy toy_arrow
      (task_config toy toy_arrow strict_config schema_ab)
      1
      two_chunks
      failed_state
unfolding parse_chunk parse_line flush_batch append_fields append new_builder finish split_lines
    trim toy_parse toy_get toy_new str_eq
failed_run =
    let r1 = next here (work (_ ∷ []) [] (start refl)) in
    let r2 = next r1 (work (_ ∷ []) [] fail) in next r2 (work [] (_ ∷ []) (skip refl))

failed_return : returned toy toy_arrow failed_state ≡ some (err strict_error)
unfolding returned
failed_return = refl

pub strict_call :
    PipelineReturns toy toy_arrow map_input no_file strict_config [] (err strict_error)
strict_call = threads_ended now strict_prepare failed_run failed_return

-- The state after the writer thread could not create its file.
abbrev broken_state : System toy toy_arrow
broken_state = record {
  shared = record {
    total_rows = 2;
    error_rows = 1;
    parse_error = none;
    channel = [];
    written = [];
    writer = broken (io_error 13);
    dead_channel = codes "n" ∷ [];
    dead_written = [];
    dead_writer = writing;
  };
  tasks = done ∷ done ∷ [];
}

broken_run :
    Reach toy toy_arrow
      (task_config toy toy_arrow lenient_config schema_ab)
      1
      two_chunks
      broken_state
unfolding parse_chunk parse_line flush_batch append_fields append new_builder finish split_lines
    trim toy_parse toy_get toy_new str_eq
broken_run =
    let r0 = next here (drain (break_down (io_failed 13) refl)) in
    let r1 = next r0 (work [] (_ ∷ []) (start refl)) in
    let r2 = next r1 (work (_ ∷ []) [] (start refl)) in
    let r3 = next r2 (work (_ ∷ []) [] quarantine) in
    let r4 = next r3 (work (_ ∷ []) [] count) in
    let r5 = next r4 (work [] (_ ∷ []) count) in
    let r6 = next r5 (work (_ ∷ []) [] (lose refl)) in
    let r7 = next r6 (work [] (_ ∷ []) (lose refl)) in
    next (next r7 (work (_ ∷ []) [] finish_task)) (work [] (_ ∷ []) finish_task)

broken_return : returned toy toy_arrow broken_state ≡ some (err (io_error 13))
unfolding returned
broken_return = refl

pub broken_call :
    PipelineReturns toy toy_arrow map_input no_file lenient_config [] (err (io_error 13))
broken_call = threads_ended now prepare_run broken_run broken_return

pub input_inferred : infer_schema toy input 10000 ≡ ok schema_ab
unfolding pipeline_schema
input_inferred = input_schema
