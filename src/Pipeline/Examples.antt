-- ===== src/Pipeline/Examples.antt =====
-- Runs of the pipeline over two chunks, and its theorems at them.
use parq.Prelude.{
  ℕ, ◌*◌, ◌+◌, ◌<◌, ◌^◌, ◌≡◌, ◌≤◌, ◌⊎◌, refl, true, false, none, some, List, [], ◌∷◌, arith, Bytes,
  codes, length, min, str_eq,
}
use parq.Prelude.Int.{pos}
use parq.Prelude.Results.{ok}
use parq.Text.{records, split_lines, trim}
use parq.DataType.{int64, boolean}
use parq.Crates.Toy.{toy, toy_get, toy_parse}
use parq.Schema.{Schema}
use parq.Chunk.{fixed_chunks, snap_to_newline, slice, push}
use parq.Columns.{Array, int64_array, bool_array, new_builder, append, finish}
use parq.Parser.{ParseConfig, parse_chunk, parse_line, flush_batch, append_fields}
use parq.Parser.Toy.{toy_new, toy_arrow}
use parq.Parser.Outcome.{accepted, rejected}
use parq.Pipeline.{
  waiting, done, start, quarantine, count, send, hand_over, finish_task, receive, close,
  dead_receive, dead_close, writing, closed, System, work, drain, Reach, here, next, Rows, returned,
}
use parq.Pipeline.Sums.{sum_by}
use parq.Pipeline.Counters.{counted_rows, counters_bounded}
use parq.Pipeline.Memory.{memory_bounded}
use parq.Parser.Cells.{column_of}
use parq.Parser.Sizes.{full}
use parq.Pipeline.Success.{success_limit}
use parq.Pipeline.Progress.{HasReturned, CanStep, progress}
use parq.Pipeline.Ends.{steps, task_work, steps_bounded}
use parq.Pipeline.Quarantine.{quarantine_complete}

abbrev schema_ab : Schema
schema_ab =
    record { name = codes "a"; data_type = int64; nullable = true }
    ∷ record { name = codes "b"; data_type = boolean; nullable = true }
    ∷ []

abbrev lenient : ParseConfig toy toy_arrow
lenient = record {
  schema = schema_ab;
  batch_size = 2;
  ignore_errors = true;
  flatten_json = false;
  limit = none;
  has_dead_letter = true;
}

abbrev input : Bytes
input = codes "{a1bt\nxx\n{a2\n"

abbrev two_chunks : List Bytes
two_chunks = codes "{a1bt\n" ∷ codes "xx\n{a2\n" ∷ []

chunks_of_input : fixed_chunks input (some 4) ≡ some two_chunks
unfolding fixed_chunks slice push snap_to_newline
chunks_of_input = refl

abbrev first_batch : List (Array toy)
first_batch = int64_array (some (pos 1) ∷ []) ∷ bool_array (some true ∷ []) ∷ []

abbrev second_batch : List (Array toy)
second_batch = int64_array (some (pos 2) ∷ []) ∷ bool_array (none ∷ []) ∷ []

-- The state after both chunks.
abbrev last_state : System toy toy_arrow
last_state = record {
  shared = record {
    total_rows = 2;
    error_rows = 1;
    parse_error = none;
    channel = [];
    written = second_batch ∷ first_batch ∷ [];
    writer = closed;
    dead_channel = [];
    dead_written = codes "xx" ∷ [];
    dead_writer = closed;
  };
  tasks = done ∷ done ∷ [];
}

abbrev two_rows : Rows toy toy_arrow
two_rows = record { rows_processed = 2; rows_errored = 1 }

-- the batch of the first chunk waits in the channel while the second task is under way
abbrev waiting_state : System toy toy_arrow
waiting_state = record {
  shared = record {
    total_rows = 2;
    error_rows = 1;
    parse_error = none;
    channel = first_batch ∷ [];
    written = second_batch ∷ [];
    writer = writing;
    dead_channel = codes "xx" ∷ [];
    dead_written = [];
    dead_writer = writing;
  };
  tasks = done ∷ done ∷ [];
}

waiting_run : Reach toy toy_arrow lenient 1 two_chunks waiting_state
unfolding parse_chunk parse_line flush_batch append_fields append new_builder finish split_lines
    trim toy_parse toy_get toy_new str_eq
waiting_run =
    let r1 = next here (work [] (_ ∷ []) (start refl)) in
    let r2 = next r1 (work (_ ∷ []) [] (start refl)) in
    let r3 = next r2 (work (_ ∷ []) [] quarantine) in
    let r4 = next r3 (work (_ ∷ []) [] count) in
    let r5 = next r4 (work [] (_ ∷ []) count) in
    let r6 = next r5 (work (_ ∷ []) [] (hand_over refl refl)) in
    let r7 = next r6 (work [] (_ ∷ []) (send refl (omega arith))) in
    next (next r7 (work (_ ∷ []) [] finish_task)) (work [] (_ ∷ []) finish_task)

last_run : Reach toy toy_arrow lenient 1 two_chunks last_state
last_run =
    let r1 = next waiting_run (drain (receive refl refl)) in
    let r2 = next r1 (drain (close refl refl refl)) in
    let r3 = next r2 (drain (dead_receive refl refl)) in next r3 (drain (dead_close refl refl refl))

last_rows : returned toy toy_arrow last_state ≡ some (ok two_rows)
unfolding returned
last_rows = refl

memory_bounded_example :
    (length waiting_state.shared.channel ≤ 1)
    × ((i : ℕ)
        → i < 2
        → length (column_of toy toy_arrow i waiting_state.shared.channel)
          ≤ 1 * full toy toy_arrow lenient)
memory_bounded_example = memory_bounded toy toy_arrow lenient 1 waiting_run

counters_bounded_example :
    (counted_rows toy toy_arrow lenient 1 waiting_state.shared ≤ length (records input))
    × (length (records input) ≤ length input)
    × (counted_rows toy toy_arrow lenient 1 waiting_state.shared < 2 ^ 64)
counters_bounded_example =
    counters_bounded toy toy_arrow lenient 1 input (some 4) (omega arith) (omega arith)
      chunks_of_input waiting_run

abbrev limited : ParseConfig toy toy_arrow
limited = record lenient { limit = some 1 }

limited_run : Reach toy toy_arrow limited 1 two_chunks last_state
unfolding parse_chunk parse_line flush_batch append_fields append new_builder finish split_lines
    trim toy_parse toy_get toy_new str_eq
limited_run =
    let r1 = next here (work [] (_ ∷ []) (start refl)) in
    let r2 = next r1 (work (_ ∷ []) [] (start refl)) in
    let r3 = next r2 (work (_ ∷ []) [] quarantine) in
    let r4 = next r3 (work (_ ∷ []) [] count) in
    let r5 = next r4 (work [] (_ ∷ []) count) in
    let r6 = next r5 (work (_ ∷ []) [] (hand_over refl refl)) in
    let r7 = next r6 (work [] (_ ∷ []) (hand_over refl refl)) in
    let r8 = next (next r7 (work (_ ∷ []) [] finish_task)) (work [] (_ ∷ []) finish_task) in
    let r9 = next r8 (drain (dead_receive refl refl)) in
    next (next r9 (drain (close refl refl refl))) (drain (dead_close refl refl refl))

success_limit_example :
    two_rows.rows_processed ≡ sum_by (λ k. min 1 (length (accepted toy (records k)))) two_chunks
success_limit_example = success_limit toy toy_arrow limited 1 1 refl limited_run last_rows

progress_example :
    HasReturned toy toy_arrow lenient 1 waiting_state
    ⊎ CanStep toy toy_arrow lenient 1 waiting_state
progress_example = progress toy toy_arrow lenient 1 waiting_run

steps_bounded_example :
    steps toy toy_arrow lenient 1 last_run
    ≤ 2 + sum_by (λ k. task_work toy toy_arrow lenient 1 (waiting k)) two_chunks
steps_bounded_example = steps_bounded toy toy_arrow lenient 1 last_run

quarantine_complete_example :
    sum_by length last_state.shared.dead_written ≡ sum_by length (rejected toy (records input))
quarantine_complete_example =
    quarantine_complete toy toy_arrow lenient 1 length refl refl input (some 4) (omega arith)
      (omega arith) chunks_of_input last_run last_rows
