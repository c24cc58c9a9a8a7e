-- ===== src/Pipeline/Writers.antt =====
-- The errors of the two writer threads: a writer that broke did so by one of its own failures, and no
-- `ParqError` comes from it.
use parq.Prelude.{ℕ, ◌≡◌, ◌⊎◌, inl, inr, subst, Bool, true, false, List, Bytes}
use parq.Crates.{Crates}
use parq.Error.{Failure}
use parq.Parser.{Arrow, ParseConfig}
use parq.Parser.Reported.{IsReported}
use parq.Pipeline.{
  Writer, writing, closed, broken, WriterFailure, io_failed, parquet_failed, panicked,
  DeadWriterFailure, dead_io_failed, dead_panicked, Shared, Task, Move, skip, start, quarantine,
  fail, count, send, hand_over, lose, finish_task, Drain, receive, close, break_down, dead_receive,
  dead_close, dead_break_down, System, work, drain, Reach, here, next,
}

module _ (X : Crates) (A : Arrow X) where
  -- A writer's error is one of its failures.
  abbrev BrokeBy : (Failure X → Type 0) → Writer X A → Type 0
  BrokeBy P (broken e) = P e
  BrokeBy P _ = Unit

  abbrev BrokeWell : Shared X A → Type 0
  BrokeWell s = BrokeBy (WriterFailure X A) s.writer × BrokeBy (DeadWriterFailure X A) s.dead_writer

  module _ (c : ParseConfig X A) (depth : ℕ) where
    Move-BrokeWell :
        {s s' : Shared X A} {t t' : Task X A}
        → Move X A c depth s t s' t'
        → BrokeWell s
        → BrokeWell s'
    Move-BrokeWell (skip e) h = h
    Move-BrokeWell (start e) h = h
    Move-BrokeWell quarantine h = h
    Move-BrokeWell fail h = h
    Move-BrokeWell count h = h
    Move-BrokeWell (send w e) h = h
    Move-BrokeWell (hand_over w e) h = h
    Move-BrokeWell (lose w) h = h
    Move-BrokeWell finish_task h = h

    Drain-BrokeWell : {b : Bool} {s s' : Shared X A} → Drain X A b s s' → BrokeWell s → BrokeWell s'
    Drain-BrokeWell (receive w e) h = h
    Drain-BrokeWell (close w e d) h = (tt, h.1)
    Drain-BrokeWell (break_down f w) h = (f, h.1)
    Drain-BrokeWell (dead_receive w e) h = h
    Drain-BrokeWell (dead_close w e d) h = (h.0, tt)
    Drain-BrokeWell (dead_break_down f w) h = (h.0, f)

    start-BrokeBy :
        (P : Failure X → Type 0) (b : Bool) → BrokeBy P (elim b [ true ↦ writing | false ↦ closed ])
    start-BrokeBy P true = tt
    start-BrokeBy P false = tt

    Reach-BrokeWell :
        {chunks : List Bytes} {a : System X A} → Reach X A c depth chunks a → BrokeWell a.shared
    Reach-BrokeWell here = (tt, start-BrokeBy (DeadWriterFailure X A) c.has_dead_letter)
    Reach-BrokeWell (next r (work before after m)) = Move-BrokeWell m (Reach-BrokeWell r)
    Reach-BrokeWell (next r (drain d)) = Drain-BrokeWell d (Reach-BrokeWell r)

    pub writer-failure :
        {chunks : List Bytes} {a : System X A} {e : Failure X}
        → Reach X A c depth chunks a
        → (a.shared.writer ≡ broken e) ⊎ (a.shared.dead_writer ≡ broken e)
        → WriterFailure X A e ⊎ DeadWriterFailure X A e
    writer-failure r (inl w) = inl (subst (BrokeBy (WriterFailure X A)) w (Reach-BrokeWell r).0)
    writer-failure r (inr w) = inr (subst (BrokeBy (DeadWriterFailure X A)) w (Reach-BrokeWell r).1)

  pub failure-IsReported :
      {e : Failure X} → WriterFailure X A e ⊎ DeadWriterFailure X A e → IsReported X e
  failure-IsReported (inl (io_failed e)) = tt
  failure-IsReported (inl (parquet_failed e)) = tt
  failure-IsReported (inl panicked) = tt
  failure-IsReported (inr (dead_io_failed e)) = tt
  failure-IsReported (inr dead_panicked) = tt
