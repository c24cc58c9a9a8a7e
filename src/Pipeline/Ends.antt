-- ===== src/Pipeline/Ends.antt =====
-- The length of a schedule of the threads of `run_pipeline`.
use parq.Prelude.{ℕ, ◌+◌, ◌*◌, ◌≤◌, ap, Bool, List, [], ◌∷◌, arith, Bytes, length, length-append}
use parq.Prelude.Results.{Result, ok, err}
use parq.Crates.{Crates}
use parq.Error.{Failure}
use parq.Parser.{Arrow, ParseConfig, Parsed, parse_chunk}
use parq.Pipeline.{
  Shared, Task, waiting, parsing, sending, done, Move, skip, start, quarantine, fail, count, send,
  hand_over, lose, finish_task, Drain, receive, close, break_down, dead_receive, dead_close,
  dead_break_down, System, Step, work, drain, start_system, Reach, here, next, Writer, writing,
}
use parq.Pipeline.Sums.{sum_by, sum_by-middle, sum_by-waiting}

module _ (X : Crates) (A : Arrow X) (c : ParseConfig X A) (depth : ℕ) where
  abbrev pub result_work : Result (Failure X) (Parsed X A) → ℕ
  result_work (err e) = 0
  result_work (ok p) = 1 + 2 * length p.batches

  -- The moves that a task has before it, with those by which a writer thread takes what it sends.
  abbrev pub task_work : Task X A → ℕ
  task_work (waiting k) =
      2 + 2 * length (parse_chunk X A c k).sent + result_work (parse_chunk X A c k).result
  task_work (parsing lines r) = 1 + 2 * length lines + result_work r
  task_work (sending bs) = 1 + 2 * length bs
  task_work done = 0

  abbrev writer_work : Writer X A → ℕ
  writer_work writing = 1
  writer_work _ = 0

  abbrev shared_work : Shared X A → ℕ
  shared_work s =
      length s.channel + length s.dead_channel + writer_work s.writer + writer_work s.dead_writer

  move_work :
      {s s' : Shared X A} {t t' : Task X A}
      → Move X A c depth s t s' t'
      → shared_work s' + task_work t' + 1 ≤ shared_work s + task_work t
  move_work (skip e) = omega arith
  move_work (start e) = omega arith
  move_work {s} (quarantine {line} {lines}) =
      omega (arith, length-append s.dead_channel (line ∷ []))
  move_work fail = omega arith
  move_work count = omega arith
  move_work {s} (send {b} w room) = omega (arith, length-append s.channel (b ∷ []))
  move_work (hand_over w e) = omega arith
  move_work (lose w) = omega arith
  move_work finish_task = omega arith

  Drain-work :
      {finished : Bool} {s s' : Shared X A}
      → Drain X A finished s s'
      → shared_work s' + 1 ≤ shared_work s
  Drain-work (receive w e) = omega (arith, ap length e)
  Drain-work (close w e d) = omega (arith, ap writer_work w)
  Drain-work (break_down e w) = omega (arith, ap writer_work w)
  Drain-work (dead_receive w e) = omega (arith, ap length e)
  Drain-work (dead_close w e d) = omega (arith, ap writer_work w)
  Drain-work (dead_break_down e w) = omega (arith, ap writer_work w)

  abbrev system_work : System X A → ℕ
  system_work a = shared_work a.shared + sum_by task_work a.tasks

  Step-work : {a b : System X A} → Step X A c depth a b → system_work b + 1 ≤ system_work a
  Step-work (work {t} {t'} before after m) = omega (
    arith,
    move_work m,
    sum_by-middle task_work before after t,
    sum_by-middle task_work before after t',
  )
  Step-work (drain d) = omega (arith, Drain-work d)

  -- The number of steps of a schedule.
  abbrev pub steps : {chunks : List Bytes} {a : System X A} → Reach X A c depth chunks a → ℕ
  steps here = 0
  steps (next r st) = steps r + 1

  steps-work :
      {chunks : List Bytes} {a : System X A}
      → (r : Reach X A c depth chunks a)
      → steps r + system_work a ≤ system_work (start_system X A c chunks)
  steps-work here = omega arith
  steps-work (next r st) = omega (arith, Step-work st, steps-work r)

  writer_work-le : (w : Writer X A) → writer_work w ≤ 1
  writer_work-le writing = omega arith
  writer_work-le _ = omega arith

  -- A schedule has at most two steps for each batch and each quarantined line of the chunks, three
  -- more for each chunk and two for the writer threads.
  pub steps_bounded :
      {chunks : List Bytes} {a : System X A} (r : Reach X A c depth chunks a)
      → steps r ≤ 2 + sum_by (λ k. task_work (waiting k)) chunks
  steps_bounded {chunks} r = omega (
    arith,
    steps-work r,
    writer_work-le (start_system X A c chunks).shared.dead_writer,
    sum_by-waiting X A task_work chunks,
  )
