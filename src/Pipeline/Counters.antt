-- ===== src/Pipeline/Counters.antt =====
-- The shared counters of `run_pipeline`, which are machine words, while the threads run.
use parq.Prelude.{
  ℕ, ◌^◌, Bool, refl, ◌+◌, ◌≤◌, ◌<◌, ◌≡◌, Option, some, ap, List, [], ◌∷◌, map, arith, Bytes,
  concat, length, length-append, inl, inr,
}
use parq.Prelude.Results.{Result, ok, err, Result-cases}
use parq.Text.{records}
use parq.Text.Lines.{length-records}
use parq.Crates.{Crates}
use parq.Error.{Failure}
use parq.Chunk.{isize_max, fixed_chunks}
use parq.Chunk.Partition.{IsUsize}
use parq.Chunk.Records.{fixed_chunks-records}
use parq.Parser.{Arrow, ParseConfig, Parsed, parse_chunk}
use parq.Parser.Bounds.{parse_chunk_bound}
use parq.Pipeline.{
  Shared, Task, waiting, parsing, sending, done, Move, skip, start, quarantine, fail, count, send,
  hand_over, lose, finish_task, Drain, receive, close, break_down, dead_receive, dead_close,
  dead_break_down, System, work, drain, Reach, here, next,
}
use parq.Pipeline.Sums.{sum_by, sum_by-middle, sum_by-waiting}

module _ (X : Crates) (A : Arrow X) (c : ParseConfig X A) (depth : ℕ) where
  abbrev rows_in : Result (Failure X) (Parsed X A) → ℕ
  rows_in (ok p) = p.rows_ok + p.rows_skipped
  rows_in (err e) = 0

  -- What a task may still add to the counters.
  abbrev due : Task X A → ℕ
  due (waiting k) = rows_in (parse_chunk X A c k).result
  due (parsing lines r) = rows_in r
  due (sending bs) = 0
  due done = 0

  abbrev pub counted_rows : Shared X A → ℕ
  counted_rows s = s.total_rows + s.error_rows

  move_due :
      {s s' : Shared X A} {t t' : Task X A}
      → Move X A c depth s t s' t'
      → counted_rows s' + due t' ≤ counted_rows s + due t
  move_due (skip e) = omega arith
  move_due (start e) = omega arith
  move_due quarantine = omega arith
  move_due fail = omega arith
  move_due count = omega arith
  move_due (send w e) = omega arith
  move_due (hand_over w e) = omega arith
  move_due (lose w) = omega arith
  move_due finish_task = omega arith

  Drain-rows : {f : Bool} {s s' : Shared X A} → Drain X A f s s' → counted_rows s' ≡ counted_rows s
  Drain-rows (receive w e) = refl
  Drain-rows (close w e d) = refl
  Drain-rows (break_down e w) = refl
  Drain-rows (dead_receive w e) = refl
  Drain-rows (dead_close w e d) = refl
  Drain-rows (dead_break_down e w) = refl

  Reach-due :
      {chunks : List Bytes} {a : System X A}
      → Reach X A c depth chunks a
      → counted_rows a.shared + sum_by due a.tasks ≤ sum_by (λ k. due (waiting k)) chunks
  Reach-due {chunks} here = omega (arith, sum_by-waiting X A due chunks)
  Reach-due (next r (work {t} {t'} before after m)) = omega (
    arith,
    move_due m,
    Reach-due r,
    sum_by-middle due before after t,
    sum_by-middle due before after t',
  )
  Reach-due (next r (drain d)) = omega (arith, Drain-rows d, Reach-due r)

  due-records : (k : Bytes) → due (waiting k) ≤ length (records k)
  due-records k = elim (Result-cases (parse_chunk X A c k).result) [
    | inl (p, e) ↦ omega (arith, ap rows_in e, parse_chunk_bound X A c k e)
    | inr (x, e) ↦ omega (arith, ap rows_in e)
  ]

  chunks_bound :
      (ks : List Bytes) → sum_by (λ k. due (waiting k)) ks ≤ length (concat (map records ks))
  unfolding sum_by
  chunks_bound [] = omega arith
  chunks_bound (k ∷ ks) =
      omega
        (arith, due-records k, chunks_bound ks, length-append (records k) (concat (map records ks)))

  -- In every reachable state of a run on at most `isize::MAX` bytes, failed or not, the shared
  -- counters together are at most the number of records of the input, which is at most the number
  -- of its bytes: no addition to a 64-bit counter wraps around.
  pub counters_bounded :
      (bytes : Bytes) (chunk_size : Option ℕ) {chunks : List Bytes} {a : System X A}
      → length bytes ≤ isize_max
      → IsUsize chunk_size
      → fixed_chunks bytes chunk_size ≡ some chunks
      → Reach X A c depth chunks a
      → (counted_rows a.shared ≤ length (records bytes))
        × (length (records bytes) ≤ length bytes)
        × (counted_rows a.shared < 2 ^ 64)
  counters_bounded bytes chunk_size {chunks} l s e r =
      let same = ap length (fixed_chunks-records bytes chunk_size l s e) in
      let bound = length-records bytes in
      let rows = chunks_bound chunks in let held = Reach-due r in (omega arith, bound, omega arith)
