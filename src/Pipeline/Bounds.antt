-- ===== src/Pipeline/Bounds.antt =====
-- Backpressure: the fill of the bounded channel of `run_pipeline`.
use parq.Prelude.{ℕ, ◌≤◌, ap, Bool, List, [], ◌∷◌, arith, Bytes, length, length-append}
use parq.Crates.{Crates}
use parq.Parser.{Arrow, ParseConfig}
use parq.Pipeline.{
  Shared, Task, Move, skip, start, quarantine, fail, count, send, hand_over, lose, finish_task,
  Drain, receive, close, break_down, dead_receive, dead_close, dead_break_down, System, work, drain,
  Reach, here, next,
}

module _ (X : Crates) (A : Arrow X) (c : ParseConfig X A) (depth : ℕ) where
  move_bound :
      {s s' : Shared X A} {t t' : Task X A}
      → Move X A c depth s t s' t'
      → length s.channel ≤ depth
      → length s'.channel ≤ depth
  move_bound (skip e) h = h
  move_bound (start e) h = h
  move_bound quarantine h = h
  move_bound fail h = h
  move_bound count h = h
  move_bound {s} (send {b} w room) h = omega (arith, length-append s.channel (b ∷ []))
  move_bound (hand_over w e) h = h
  move_bound (lose w) h = h
  move_bound finish_task h = h

  Drain-bound :
      {f : Bool} {s s' : Shared X A}
      → Drain X A f s s'
      → length s.channel ≤ depth
      → length s'.channel ≤ depth
  Drain-bound (receive w e) h = omega (arith, ap length e)
  Drain-bound (close w e d) h = h
  Drain-bound (break_down e w) h = h
  Drain-bound (dead_receive w e) h = h
  Drain-bound (dead_close w e d) h = h
  Drain-bound (dead_break_down e w) h = h

  -- In every reachable state, however the threads are scheduled, at most `channel_depth` batches
  -- wait in the channel.
  pub channel_bounded :
      {chunks : List Bytes} {a : System X A}
      → Reach X A c depth chunks a
      → length a.shared.channel ≤ depth
  channel_bounded here = omega arith
  channel_bounded (next r (work before after m)) = move_bound m (channel_bounded r)
  channel_bounded (next r (drain d)) = Drain-bound d (channel_bounded r)
