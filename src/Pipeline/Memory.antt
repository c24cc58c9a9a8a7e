-- ===== src/Pipeline/Memory.antt =====
-- Backpressure in rows: what the batches that wait in the channel of `run_pipeline` hold.
use parq.Prelude.{
  ℕ, suc, ◌+◌, ◌*◌, ◌≤◌, ◌<◌, ◌≡◌, subst, sym, ◌-◌, inl, inr, Bool, List, [], ◌∷◌, map, arith,
  Bytes, All, All-append, All-append_left, All-append_right, All-weaken, length, length-append,
}
use parq.Prelude.Results.{ok, err, Result-cases}
use parq.Crates.{Crates}
use parq.Parser.{Arrow, ParseConfig, Parsed, parse_chunk}
use parq.Parser.Cells.{column, column_of}
use parq.Parser.Sizes.{full, HasRows, IsCut, parse_chunk-IsCut}
use parq.Pipeline.{
  Shared, Task, waiting, parsing, sending, done, Move, skip, start, quarantine, fail, count, send,
  hand_over, lose, finish_task, Drain, receive, close, break_down, dead_receive, dead_close,
  dead_break_down, System, work, drain, Reach, here, next,
}
use parq.Pipeline.Bounds.{channel_bounded}

more_cells : (n f m r : ℕ) → m ≤ f → r ≤ n * f → m + r ≤ suc n * f
more_cells n f m r h g = grind arith

fewer : (n k f r : ℕ) → n ≤ k → r ≤ n * f → r ≤ k * f
fewer n k f r h g =
    let e : k * f ≡ n * f + (k - n) * f = let d : k ≡ n + (k - n) = omega arith in grind arith in
    omega (arith, e, g)

module _ (X : Crates) (A : Arrow X) (c : ParseConfig X A) (depth : ℕ) where
  -- No column of the batch has more cells than a full batch has rows.
  abbrev pub IsSmall : A.RecordBatch → Type 0
  IsSmall b = (i : ℕ) → i < length c.schema → length (column X i (A.columns b)) ≤ full X A c

  HasRows-IsSmall : (n : ℕ) → n ≤ full X A c → (b : A.RecordBatch) → HasRows X A c n b → IsSmall b
  HasRows-IsSmall n h b r i l = omega (arith, r i l, h)

  IsCut-IsSmall : (p : Parsed X A) → IsCut X A c p → All IsSmall p.batches
  IsCut-IsSmall p s =
      let before = All-weaken (HasRows-IsSmall (full X A c) (omega arith)) s.before s.all_full in
      elim s.last [
        | inl (none_left, same) ↦ subst (All IsSmall) (sym same) before
        | inr (some_left, b, same, h) ↦
            let last = HasRows-IsSmall s.rest (omega (arith, s.not_full)) b h in
            subst (All IsSmall) (sym same) (All-append IsSmall s.before (b ∷ []) before (last, tt))
      ]

  abbrev TaskIsSmall : Task X A → Type 0
  TaskIsSmall (waiting chunk) = Unit
  TaskIsSmall (parsing lines (ok p)) = All IsSmall p.batches
  TaskIsSmall (parsing lines (err e)) = Unit
  TaskIsSmall (sending bs) = All IsSmall bs
  TaskIsSmall done = Unit

  parsed-TaskIsSmall :
      (lines : List Bytes) (bytes : Bytes)
      → TaskIsSmall (parsing lines (parse_chunk X A c bytes).result)
  parsed-TaskIsSmall lines bytes = elim (Result-cases (parse_chunk X A c bytes).result) [
    | inl (p, e) ↦ rw (e, TaskIsSmall) (IsCut-IsSmall p (parse_chunk-IsCut X A c bytes e))
    | inr (x, e) ↦ rw (e, TaskIsSmall) tt
  ]

  Move-IsSmall :
      {s s' : Shared X A} {t t' : Task X A}
      → Move X A c depth s t s' t'
      → All IsSmall s.channel × TaskIsSmall t
      → All IsSmall s'.channel × TaskIsSmall t'
  Move-IsSmall (skip e) h = (h.0, tt)
  Move-IsSmall (start {chunk} e) h = (h.0, parsed-TaskIsSmall (parse_chunk X A c chunk).sent chunk)
  Move-IsSmall (quarantine {r = ok p}) h = h
  Move-IsSmall (quarantine {r = err e}) h = h
  Move-IsSmall fail h = (h.0, tt)
  Move-IsSmall count h = h
  Move-IsSmall {s} (send {b} w room) h =
      (All-append IsSmall s.channel (b ∷ []) h.0 (h.1.0, tt), h.1.1)
  Move-IsSmall (hand_over w e) h = (h.0, h.1.1)
  Move-IsSmall (lose w) h = (h.0, h.1.1)
  Move-IsSmall finish_task h = (h.0, tt)

  Drain-IsSmall :
      {f : Bool} {s s' : Shared X A}
      → Drain X A f s s'
      → All IsSmall s.channel
      → All IsSmall s'.channel
  Drain-IsSmall (receive w e) h = (subst (All IsSmall) e h).1
  Drain-IsSmall (close w e d) h = h
  Drain-IsSmall (break_down e w) h = h
  Drain-IsSmall (dead_receive w e) h = h
  Drain-IsSmall (dead_close w e d) h = h
  Drain-IsSmall (dead_break_down e w) h = h

  start-IsSmall : (chunks : List Bytes) → All TaskIsSmall (map waiting chunks)
  start-IsSmall [] = tt
  start-IsSmall (k ∷ ks) = (tt, start-IsSmall ks)

  -- Only small batches wait, in the channel and in the tasks.
  Reach-IsSmall :
      {chunks : List Bytes} {a : System X A}
      → Reach X A c depth chunks a
      → All IsSmall a.shared.channel × All TaskIsSmall a.tasks
  Reach-IsSmall {chunks} here = (tt, start-IsSmall chunks)
  Reach-IsSmall (next r (work {t} {t'} before after m)) =
      let (channel, tasks) = Reach-IsSmall r in
      let rest = All-append_right TaskIsSmall before (t ∷ after) tasks in
      let moved = Move-IsSmall m (channel, rest.0) in
      (
        moved.0,
        All-append TaskIsSmall before (t' ∷ after)
            (All-append_left TaskIsSmall before (t ∷ after) tasks) (moved.1, rest.1),
      )
  Reach-IsSmall (next r (drain d)) =
      let (channel, tasks) = Reach-IsSmall r in (Drain-IsSmall d channel, tasks)

  column_of-IsSmall :
      (bs : List A.RecordBatch) (i : ℕ)
      → i < length c.schema
      → All IsSmall bs
      → length (column_of X A i bs) ≤ length bs * full X A c
  column_of-IsSmall [] i l h = omega arith
  column_of-IsSmall (b ∷ bs) i l h =
      let more =
        more_cells (length bs) (full X A c) (length (column X i (A.columns b)))
          (length (column_of X A i bs)) (h.0 i l) (column_of-IsSmall bs i l h.1) in
      omega (arith, more, length-append (column X i (A.columns b)) (column_of X A i bs))

  -- In every reachable state, however the threads are scheduled, at most `channel_depth` batches
  -- wait in the channel, and each column of them, put one behind the other, has at most as many
  -- cells as `channel_depth` batches of the batch size, where 0 counts as 1.
  pub memory_bounded :
      {chunks : List Bytes} {a : System X A}
      → Reach X A c depth chunks a
      → (length a.shared.channel ≤ depth)
        × ((i : ℕ)
            → i < length c.schema
            → length (column_of X A i a.shared.channel) ≤ depth * full X A c)
  memory_bounded {a} r = (
    channel_bounded X A c depth r,
    λ i l.
        fewer (length a.shared.channel) depth (full X A c)
          (length (column_of X A i a.shared.channel)) (channel_bounded X A c depth r)
          (column_of-IsSmall a.shared.channel i l (Reach-IsSmall r).0),
  )
