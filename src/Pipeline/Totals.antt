-- ===== src/Pipeline/Totals.antt =====
-- What a pipeline that succeeds has counted and written, whatever the schedule.
use parq.Prelude.{ℕ, ◌+◌, ◌≡◌, refl, Bool, true, Option, none, some, List, [], arith, Bytes}
use parq.Prelude.Results.{Result, ok, err}
use parq.Crates.{Crates}
use parq.Error.{Failure}
use parq.Parser.{Arrow, ParseConfig, Parsed, parse_chunk}
use parq.Pipeline.{
  Shared, Task, waiting, parsing, sending, done, Move, skip, fail, count, Drain, receive, all_done,
  System, Reach, closed, first_error, Rows, returned,
}
use parq.Pipeline.Sums.{sum_by, conserved, all_done-due, sum_by-waiting}

module _ (X : Crates) (A : Arrow X) (c : ParseConfig X A) (depth : ℕ) where
  open A use {RecordBatch}

  abbrev pub rows_of : Result (Failure X) (Parsed X A) → ℕ
  rows_of (ok p) = p.rows_ok
  rows_of (err e) = 0

  abbrev pub skips_of : Result (Failure X) (Parsed X A) → ℕ
  skips_of (ok p) = p.rows_skipped
  skips_of (err e) = 0

  abbrev pub failures_of : Result (Failure X) (Parsed X A) → ℕ
  failures_of (ok p) = 0
  failures_of (err e) = 1

  abbrev pub batches_of : Result (Failure X) (Parsed X A) → List RecordBatch
  batches_of (ok p) = p.batches
  batches_of (err e) = []

  -- A count over results is owed by the tasks that have not come to add it.
  abbrev owed : (Result (Failure X) (Parsed X A) → ℕ) → Task X A → ℕ
  owed f (waiting chunk) = f (parse_chunk X A c chunk).result
  owed f (parsing lines r) = f r
  owed f (sending bs) = 0
  owed f done = 0

  abbrev pub NoError : Shared X A → Type 0
  NoError s = s.parse_error ≡ none

  pub first_error-some : (o : Option (Failure X)) (e : Failure X) → first_error X A o e ≡ none → ⊥
  first_error-some none e h = cc
  first_error-some (some x) e h = cc

  pub move_NoError :
      (s s' : Shared X A) (t t' : Task X A) → Move X A c depth s t s' t' → NoError s' → NoError s
  move_NoError s s' t t' (fail {e}) g = absurd (first_error-some s.parse_error e g)
  move_NoError s s' t t' (skip e) g = g
  move_NoError s s' t t' _ g = g

  pub Drain-NoError : (b : Bool) (s s' : Shared X A) → Drain X A b s s' → NoError s' → NoError s
  Drain-NoError b s s' (receive w e) g = g
  Drain-NoError b s s' _ g = g

  move_rows :
      (s s' : Shared X A) (t t' : Task X A)
      → Move X A c depth s t s' t'
      → NoError s'
      → s'.total_rows + owed rows_of t' ≡ s.total_rows + owed rows_of t
  move_rows s s' t t' (fail {e}) g = absurd (first_error-some s.parse_error e g)
  move_rows s s' t t' (skip e) g = cc
  move_rows s s' t t' count g = omega arith
  move_rows s s' t t' _ g = refl

  move_skips :
      (s s' : Shared X A) (t t' : Task X A)
      → Move X A c depth s t s' t'
      → NoError s'
      → s'.error_rows + owed skips_of t' ≡ s.error_rows + owed skips_of t
  move_skips s s' t t' (fail {e}) g = absurd (first_error-some s.parse_error e g)
  move_skips s s' t t' (skip e) g = cc
  move_skips s s' t t' count g = omega arith
  move_skips s s' t t' _ g = refl

  move_failures :
      (s s' : Shared X A) (t t' : Task X A)
      → Move X A c depth s t s' t'
      → NoError s'
      → 0 + owed failures_of t' ≡ 0 + owed failures_of t
  move_failures s s' t t' (fail {e}) g = absurd (first_error-some s.parse_error e g)
  move_failures s s' t t' (skip e) g = cc
  move_failures s s' t t' _ g = refl

  Drain-rows :
      (b : Bool) (s s' : Shared X A) → Drain X A b s s' → NoError s' → s'.total_rows ≡ s.total_rows
  Drain-rows b s s' (receive w e) g = refl
  Drain-rows b s s' _ g = refl

  Drain-skips :
      (b : Bool) (s s' : Shared X A) → Drain X A b s s' → NoError s' → s'.error_rows ≡ s.error_rows
  Drain-skips b s s' (receive w e) g = refl
  Drain-skips b s s' _ g = refl

  -- The sum of a count over the results of the chunks.
  abbrev pub over_chunks : (Result (Failure X) (Parsed X A) → ℕ) → List Bytes → ℕ
  over_chunks f chunks = sum_by (λ k. f (parse_chunk X A c k).result) chunks

  module _ {chunks : List Bytes} {a : System X A} (r : Reach X A c depth chunks a)
      (g : NoError a.shared) (d : all_done X A a.tasks ≡ true) where
    pub done_rows : a.shared.total_rows ≡ over_chunks rows_of chunks
    done_rows = omega (
      arith,
      conserved X A c depth NoError (λ s. s.total_rows) (owed rows_of) move_NoError move_rows
          Drain-NoError Drain-rows r g,
      all_done-due X A (owed rows_of) refl a.tasks d,
      sum_by-waiting X A (owed rows_of) chunks,
    )

    pub done_skips : a.shared.error_rows ≡ over_chunks skips_of chunks
    done_skips = omega (
      arith,
      conserved X A c depth NoError (λ s. s.error_rows) (owed skips_of) move_NoError move_skips
          Drain-NoError Drain-skips r g,
      all_done-due X A (owed skips_of) refl a.tasks d,
      sum_by-waiting X A (owed skips_of) chunks,
    )

    pub done_failures : over_chunks failures_of chunks ≡ 0
    done_failures = omega (
      arith,
      conserved X A c depth NoError (λ s. 0) (owed failures_of) move_NoError move_failures
          Drain-NoError (λ b s s' m e. refl) r g,
      all_done-due X A (owed failures_of) refl a.tasks d,
      sum_by-waiting X A (owed failures_of) chunks,
    )

  -- A run that has returned metrics has no parse error, and its threads have ended.
  pub record IsFinished (a : System X A) (rows : Rows X A) : Type 0 where
    pub no_error : a.shared.parse_error ≡ none
    pub tasks_done : all_done X A a.tasks ≡ true
    pub writer_closed : a.shared.writer ≡ closed
    pub dead_closed : a.shared.dead_writer ≡ closed
    pub rows_eq : a.shared.total_rows ≡ rows.rows_processed
    pub skips_eq : a.shared.error_rows ≡ rows.rows_errored

  pub returned-ok :
      (a : System X A) (rows : Rows X A) → returned X A a ≡ some (ok rows) → IsFinished a rows
  unfolding returned
  returned-ok a rows h = ground arith
