-- ===== src/Pipeline/Delivery.antt =====
-- The batches on their way from the tasks of `run_pipeline` to the output file.
use parq.Prelude.{
  ℕ, ◌+◌, ◌≡◌, refl, sym, ap, subst, ◌∙◌, Bool, true, List, [], ◌∷◌, ◌++◌, arith, Bytes,
}
use parq.Crates.{Crates}
use parq.Parser.{Arrow, ParseConfig, parse_chunk}
use parq.Pipeline.{
  Shared, Task, waiting, parsing, sending, done, Move, skip, start, quarantine, fail, count, send,
  hand_over, lose, finish_task, Drain, receive, close, break_down, dead_receive, dead_close,
  dead_break_down, all_done, System, work, drain, Reach, here, next, Writer, closed, broken,
}
use parq.Pipeline.Sums.{sum_by, sum_by-last, conserved, all_done-due, sum_by-waiting}
use parq.Pipeline.Totals.{NoError, move_NoError, first_error-some, batches_of}

module _ (X : Crates) (A : Arrow X) (c : ParseConfig X A) (depth : ℕ) where
  open A use {RecordBatch}

  pub all_done-middle :
      (before after : List (Task X A)) (t : Task X A)
      → all_done X A (before ++ t ∷ after) ≡ true
      → all_done X A (t ∷ []) ≡ true
  all_done-middle [] after done h = refl
  all_done-middle [] after (waiting k) h = h
  all_done-middle [] after (parsing l r) h = h
  all_done-middle [] after (sending bs) h = h
  all_done-middle (done ∷ before) after t h = all_done-middle before after t h
  all_done-middle (waiting k ∷ before) after t h = cc
  all_done-middle (parsing l r ∷ before) after t h = cc
  all_done-middle (sending bs ∷ before) after t h = cc

  -- A task that moves has not returned.
  pub not_done :
      {s s' : Shared X A} {t t' : Task X A}
      → Move X A c depth s t s' t'
      → all_done X A (t ∷ []) ≡ true
      → ⊥
  not_done (skip e) h = cc
  not_done (start e) h = cc
  not_done quarantine h = cc
  not_done fail h = cc
  not_done count h = cc
  not_done (send w e) h = cc
  not_done (hand_over w e) h = cc
  not_done (lose w) h = cc
  not_done finish_task h = cc

  pub move_writers :
      {s s' : Shared X A} {t t' : Task X A}
      → Move X A c depth s t s' t'
      → (s'.writer ≡ s.writer) × (s'.dead_writer ≡ s.dead_writer)
  move_writers (skip e) = (refl, refl)
  move_writers _ = (refl, refl)

  -- A thread that has ended well has emptied its channel, and no task is left to fill it.
  abbrev IsDrained : System X A → Type 0
  IsDrained a = a.shared.writer ≡ closed → (a.shared.channel ≡ []) × (all_done X A a.tasks ≡ true)

  Drain-IsDrained :
      (tasks : List (Task X A)) {s s' : Shared X A}
      → Drain X A (all_done X A tasks) s s'
      → IsDrained (record { shared = s; tasks = tasks })
      → IsDrained (record { shared = s'; tasks = tasks })
  Drain-IsDrained tasks (receive w e) h k = cc
  Drain-IsDrained tasks (close w e d) h k = (e, d)
  Drain-IsDrained tasks (break_down e w) h k = cc
  Drain-IsDrained tasks (dead_receive w e) h k = h k
  Drain-IsDrained tasks (dead_close w e d) h k = h k
  Drain-IsDrained tasks (dead_break_down e w) h k = h k

  pub Reach-IsDrained :
      {chunks : List Bytes} {a : System X A} → Reach X A c depth chunks a → IsDrained a
  Reach-IsDrained here k = cc
  Reach-IsDrained (next r (work {t = t} before after m)) k = absurd (
      not_done m
        (all_done-middle before after t (Reach-IsDrained r (sym (move_writers m).0 ∙ k)).1))
  Reach-IsDrained (next r (drain {tasks = ts} d)) k = Drain-IsDrained ts d (Reach-IsDrained r) k

  abbrev IsIntact : Writer X A → Type 0
  IsIntact (broken e) = ⊥
  IsIntact _ = Unit

  abbrev Delivers : Shared X A → Type 0
  Delivers s = NoError X A c depth s × IsIntact s.writer

  module _ (weight : RecordBatch → ℕ) where
    -- what the file and the channel hold
    abbrev held : Shared X A → ℕ
    held s = sum_by weight s.written + sum_by weight s.channel

    abbrev due : Task X A → ℕ
    due (waiting k) = sum_by weight (batches_of X A c depth (parse_chunk X A c k).result)
    due (parsing l r) = sum_by weight (batches_of X A c depth r)
    due (sending bs) = sum_by weight bs
    due done = 0

    move_held :
        (s s' : Shared X A) (t t' : Task X A)
        → Move X A c depth s t s' t'
        → Delivers s'
        → held s' + due t' ≡ held s + due t
    unfolding sum_by
    move_held s s' t t' (fail {e}) g = absurd (first_error-some X A c depth s.parse_error e g.0)
    move_held s s' t t' (skip e) g = cc
    move_held s s' t t' (send {b} w e) g = omega (arith, sum_by-last weight s.channel b)
    move_held s s' t t' (hand_over {b} w e) g = omega (arith, sum_by-last weight s.written b)
    move_held s s' t t' (lose w) g = absurd (subst IsIntact w g.1)
    move_held s s' t t' _ g = refl

    Drain-held : (f : Bool) (s s' : Shared X A) → Drain X A f s s' → Delivers s' → held s' ≡ held s
    unfolding sum_by
    Drain-held f s s' (receive {b} w e) g =
        omega (arith, sum_by-last weight s.written b, ap (sum_by weight) e)
    Drain-held f s s' _ g = refl

    move_Delivers :
        (s s' : Shared X A) (t t' : Task X A)
        → Move X A c depth s t s' t'
        → Delivers s'
        → Delivers s
    move_Delivers s s' t t' m g =
        (move_NoError X A c depth s s' t t' m g.0, subst IsIntact (move_writers m).0 g.1)

    Drain-Delivers : (f : Bool) (s s' : Shared X A) → Drain X A f s s' → Delivers s' → Delivers s
    Drain-Delivers f s s' (receive w e) g = g
    Drain-Delivers f s s' (close w e d) g = (g.0, rw w tt)
    Drain-Delivers f s s' (break_down e w) g = absurd g.1
    Drain-Delivers f s s' _ g = g

    pub delivered :
        {chunks : List Bytes} {a : System X A}
        → Reach X A c depth chunks a
        → NoError X A c depth a.shared
        → a.shared.writer ≡ closed
        → sum_by weight a.shared.written
          ≡ sum_by (λ k. sum_by weight (batches_of X A c depth (parse_chunk X A c k).result)) chunks
    delivered {chunks} {a} r g w =
        let (empty, finished) = Reach-IsDrained r w in
        omega (
          arith,
          conserved X A c depth Delivers held due move_Delivers move_held Drain-Delivers Drain-held
              r (g, rw w tt),
          all_done-due X A due refl a.tasks finished,
          sum_by-waiting X A due chunks,
          ap (sum_by weight) empty,
          nothing,
        )
      where
        nothing : sum_by weight [] ≡ 0
        nothing = unfold sum_by in refl
