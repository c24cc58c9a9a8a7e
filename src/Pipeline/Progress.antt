-- ===== src/Pipeline/Progress.antt =====
-- Which steps the threads of `run_pipeline` can take in a state.
use parq.Prelude.{
  ℕ, ◌≡◌, ◌⊎◌, inl, inr, refl, sym, subst, true, some, Option-cases, Bool-cases, List, [], ◌∷◌,
  ◌++◌, ap, arith, Bytes,
}
use parq.Prelude.Results.{Result, ok, err}
use parq.Crates.{Crates}
use parq.Error.{Failure}
use parq.Parser.{Arrow, ParseConfig}
use parq.Pipeline.{
  Shared, Task, waiting, parsing, sending, done, Move, skip, start, quarantine, fail, count,
  hand_over, lose, finish_task, receive, close, break_down, dead_receive, dead_close,
  dead_break_down, all_done, System, Step, work, drain, Reach, Rows, Writer, writing, closed,
  broken, returned,
}
use parq.Pipeline.Delivery.{Reach-IsDrained}

module _ (X : Crates) (A : Arrow X) (c : ParseConfig X A) (depth : ℕ) where
  -- A step that is no failure of a writer thread.
  abbrev pub IsSound : {a b : System X A} → Step X A c depth a b → Type 0
  IsSound (work before after m) = Unit
  IsSound (drain (break_down e w)) = ⊥
  IsSound (drain (dead_break_down e w)) = ⊥
  IsSound (drain _) = Unit

  abbrev pub CanStep : System X A → Type 0
  CanStep a = (b : System X A) × (st : Step X A c depth a b) × IsSound st

  Writer-cases :
      (w : Writer X A) → (w ≡ writing) ⊎ (w ≡ closed) ⊎ ((e : Failure X) × (w ≡ broken e))
  Writer-cases writing = inl refl
  Writer-cases closed = inr (inl refl)
  Writer-cases (broken e) = inr (inr (e, refl))

  abbrev CanMove : Shared X A → Task X A → Type 0
  CanMove s t = (s' : Shared X A) × (t' : Task X A) × Move X A c depth s t s' t'

  module _ {ℓ} {B : Type ℓ} where
    List-cases : (xs : List B) → (xs ≡ []) ⊎ ((x : B) × (ys : List B) × (xs ≡ x ∷ ys))
    List-cases [] = inl refl
    List-cases (x ∷ xs) = inr (x, xs, refl)

  -- A batch waits for a writer that is at work.
  abbrev IsFilled : Shared X A → Type 0
  IsFilled s =
      (b : A.RecordBatch) × (bs : List A.RecordBatch) × (s.writer ≡ writing) × (s.channel ≡ b ∷ bs)

  sending-ready :
      (s : Shared X A) (b : A.RecordBatch) (bs : List A.RecordBatch)
      → (s.writer ≡ closed → ⊥)
      → CanMove s (sending (b ∷ bs)) ⊎ IsFilled s
  sending-ready s b bs unclosed = elim (Writer-cases s.writer) [
    | inl w ↦ elim (List-cases s.channel) [
      | inl e ↦ inl (_, _, hand_over w e)
      | inr (x, xs, e) ↦ inr (x, xs, w, e)
    ]
    | inr (inl w) ↦ absurd (unclosed w)
    | inr (inr (e, w)) ↦ inl (_, _, lose w)
  ]

  task-ready :
      (s : Shared X A) (t : Task X A)
      → (s.writer ≡ closed → ⊥)
      → (t ≡ done) ⊎ CanMove s t ⊎ IsFilled s
  task-ready s (waiting k) unclosed = elim (Option-cases s.parse_error) [
    | inl e ↦ inr (inl (_, _, start e))
    | inr (x, e) ↦ inr (inl (_, _, skip e))
  ]
  task-ready s (parsing (l ∷ ls) r) unclosed = inr (inl (_, _, quarantine))
  task-ready s (parsing [] (ok p)) unclosed = inr (inl (_, _, count))
  task-ready s (parsing [] (err e)) unclosed = inr (inl (_, _, fail))
  task-ready s (sending (b ∷ bs)) unclosed = inr (sending-ready s b bs unclosed)
  task-ready s (sending []) unclosed = inr (inl (_, _, finish_task))
  task-ready s done unclosed = inl refl

  abbrev IsReady : Shared X A → List (Task X A) → Type 0
  IsReady s ts =
      (before : List (Task X A)) × (after : List (Task X A)) × (t : Task X A) × (ts
        ≡ before ++ t ∷ after)
      × CanMove s t

  IsReady-later :
      (s : Shared X A) (t : Task X A) (ts : List (Task X A)) → IsReady s ts → IsReady s (t ∷ ts)
  IsReady-later s t ts (before, after, u, e, m) = (t ∷ before, after, u, ap (λ l. t ∷ l) e, m)

  -- Either all tasks have returned, or one can move, or the writer can take a batch.
  tasks-IsReady :
      (s : Shared X A) (ts : List (Task X A))
      → (s.writer ≡ closed → ⊥)
      → (all_done X A ts ≡ true) ⊎ IsReady s ts ⊎ IsFilled s
  tasks-IsReady s [] unclosed = inl refl
  tasks-IsReady s (t ∷ ts) unclosed = elim (task-ready s t unclosed) [
    | inl e ↦ elim (tasks-IsReady s ts unclosed) [
      | inl d ↦ inl (rw e d)
      | inr (inl q) ↦ inr (inl (IsReady-later s t ts q))
      | inr (inr f) ↦ inr (inr f)
    ]
    | inr (inl m) ↦ inr (inl ([], ts, t, refl, m))
    | inr (inr f) ↦ inr (inr f)
  ]

  filled-step :
      (s : Shared X A) (ts : List (Task X A))
      → IsFilled s
      → CanStep (record { shared = s; tasks = ts })
  filled-step s ts (b, bs, w, e) = (_, drain (receive w e), tt)

  ready-step :
      (s : Shared X A) (ts : List (Task X A))
      → IsReady s ts
      → CanStep (record { shared = s; tasks = ts })
  ready-step s ts (before, after, t, e, (s', t', m)) =
      subst (λ l. CanStep (record { shared = s; tasks = l })) (sym e) (_, work before after m, tt)

  -- the writer thread behind the last task
  writer-ready :
      (s : Shared X A) (ts : List (Task X A))
      → s.writer ≡ writing
      → all_done X A ts ≡ true
      → CanStep (record { shared = s; tasks = ts })
  writer-ready s ts w d = elim (List-cases s.channel) [
    | inl e ↦ (_, drain (close w e d), tt)
    | inr (b, bs, e) ↦ (_, drain (receive w e), tt)
  ]

  dead-ready :
      (s : Shared X A) (ts : List (Task X A))
      → s.dead_writer ≡ writing
      → all_done X A ts ≡ true
      → CanStep (record { shared = s; tasks = ts })
  dead-ready s ts w d = elim (List-cases s.dead_channel) [
    | inl e ↦ (_, drain (dead_close w e d), tt)
    | inr (b, bs, e) ↦ (_, drain (dead_receive w e), tt)
  ]

  abbrev pub HasReturned : System X A → Type 0
  HasReturned a = (r : Result (Failure X) (Rows X A)) × (returned X A a ≡ some r)

  done-ready :
      (s : Shared X A) (ts : List (Task X A))
      → all_done X A ts ≡ true
      → HasReturned (record { shared = s; tasks = ts })
        ⊎ CanStep (record { shared = s; tasks = ts })
  unfolding returned
  done-ready s ts d = elim (Option-cases s.parse_error) [
    | inr (x, p) ↦ inl (err x, ground arith)
    | inl p ↦ elim (Writer-cases s.writer) [
      | inl w ↦ inr (writer-ready s ts w d)
      | inr (inr (x, w)) ↦ inl (err x, ground arith)
      | inr (inl w) ↦ elim (Writer-cases s.dead_writer) [
        | inl v ↦ inr (dead-ready s ts v d)
        | inr (inr (x, v)) ↦ inl (err x, ground arith)
        | inr (inl v) ↦ inl (
          ok (record { rows_processed = s.total_rows; rows_errored = s.error_rows }),
          ground arith,
        )
      ]
    ]
  ]

  system-ready :
      (s : Shared X A) (ts : List (Task X A))
      → (s.writer ≡ closed → (s.channel ≡ []) × (all_done X A ts ≡ true))
      → HasReturned (record { shared = s; tasks = ts })
        ⊎ CanStep (record { shared = s; tasks = ts })
  system-ready s ts drained = elim (Bool-cases (all_done X A ts)) [
    | inl d ↦ done-ready s ts d
    | inr d ↦ elim (tasks-IsReady s ts (λ w. cc (d, (drained w).1))) [
      | inl e ↦ done-ready s ts e
      | inr (inl q) ↦ inr (ready-step s ts q)
      | inr (inr f) ↦ inr (filled-step s ts f)
    ]
  ]

  -- No schedule deadlocks, even with a channel of depth 0: in every reachable state either the
  -- pipeline returns or some thread can take a step that is no failure of a writer thread.
  pub progress :
      {chunks : List Bytes} {a : System X A}
      → Reach X A c depth chunks a
      → HasReturned a ⊎ CanStep a
  progress {a} r = system-ready a.shared a.tasks (Reach-IsDrained X A c depth r)
