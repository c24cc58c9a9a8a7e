-- ===== src/Pipeline/Quarantine.antt =====
-- The lines on their way from the tasks of `run_pipeline` to the quarantine file.
use parq.Prelude.{
  ℕ, ◌+◌, ◌≤◌, ◌≡◌, refl, sym, ap, ◌∙◌, Bool, true, Option, none, some, List, [], ◌∷◌, ◌++◌, map,
  arith, Bytes, length, concat, if◌then◌else◌,
}
use parq.Prelude.Results.{ok}
use parq.Text.{records}
use parq.Crates.{Crates}
use parq.Chunk.{isize_max, fixed_chunks}
use parq.Chunk.Partition.{IsUsize}
use parq.Chunk.Records.{fixed_chunks-records}
use parq.Parser.{Arrow, ParseConfig, parse_chunk}
use parq.Parser.Outcome.{rejected}
use parq.Parser.Counts.{parse_chunk-counts}
use parq.Pipeline.{
  Shared, Task, waiting, parsing, sending, done, Move, skip, quarantine, fail, Drain, receive,
  close, break_down, dead_receive, dead_close, dead_break_down, all_done, System, work, drain,
  Reach, here, next, Rows, closed, returned,
}
use parq.Pipeline.Sums.{sum_by, sum_by-last, conserved, all_done-due, sum_by-waiting}
use parq.Pipeline.Totals.{
  NoError, move_NoError, Drain-NoError, first_error-some, returned-ok, failures_of, over_chunks,
  done_failures,
}
use parq.Pipeline.Delivery.{all_done-middle, not_done, move_writers}
use parq.Pipeline.Success.{no_failures}

module _ (X : Crates) (A : Arrow X) (c : ParseConfig X A) (depth : ℕ) where
  -- The quarantine thread ends well only when its channel is empty and no task is left.
  abbrev IsSettled : System X A → Type 0
  IsSettled a =
      a.shared.dead_writer ≡ closed → (a.shared.dead_channel ≡ []) × (all_done X A a.tasks ≡ true)

  Drain-IsSettled :
      (tasks : List (Task X A)) {s s' : Shared X A}
      → Drain X A (all_done X A tasks) s s'
      → IsSettled (record { shared = s; tasks = tasks })
      → IsSettled (record { shared = s'; tasks = tasks })
  Drain-IsSettled tasks (receive w e) h k = h k
  Drain-IsSettled tasks (close w e d) h k = h k
  Drain-IsSettled tasks (break_down e w) h k = h k
  Drain-IsSettled tasks (dead_receive w e) h k = cc
  Drain-IsSettled tasks (dead_close w e d) h k = (e, d)
  Drain-IsSettled tasks (dead_break_down e w) h k = cc

  Reach-IsSettled :
      c.has_dead_letter ≡ true
      → {chunks : List Bytes} {a : System X A} → Reach X A c depth chunks a
      → IsSettled a
  Reach-IsSettled u here k = ground arith
  Reach-IsSettled u (next r (work {t = t} before after m)) k = absurd (
      not_done X A c depth m (
        all_done-middle X A c depth before after t
          (Reach-IsSettled u r (sym (move_writers X A c depth m).1 ∙ k)).1))
  Reach-IsSettled u (next r (drain {tasks = ts} d)) k = Drain-IsSettled ts d (Reach-IsSettled u r) k

  module _ (weight : Bytes → ℕ) where
    -- what the quarantine file and its channel hold
    abbrev dead_held : Shared X A → ℕ
    dead_held s = sum_by weight s.dead_written + sum_by weight s.dead_channel

    abbrev dead_due : Task X A → ℕ
    dead_due (waiting k) = sum_by weight (parse_chunk X A c k).sent
    dead_due (parsing lines r) = sum_by weight lines
    dead_due (sending bs) = 0
    dead_due done = 0

    move_dead :
        (s s' : Shared X A) (t t' : Task X A)
        → Move X A c depth s t s' t'
        → NoError X A c depth s'
        → dead_held s' + dead_due t' ≡ dead_held s + dead_due t
    unfolding sum_by
    move_dead s s' t t' (fail {e}) g = absurd (first_error-some X A c depth s.parse_error e g)
    move_dead s s' t t' (skip e) g = cc
    move_dead s s' t t' (quarantine {line}) g =
        omega (arith, sum_by-last weight s.dead_channel line)
    move_dead s s' t t' _ g = refl

    Drain-dead :
        (f : Bool) (s s' : Shared X A)
        → Drain X A f s s'
        → NoError X A c depth s'
        → dead_held s' ≡ dead_held s
    unfolding sum_by
    Drain-dead f s s' (dead_receive {line} w e) g =
        omega (arith, sum_by-last weight s.dead_written line, ap (sum_by weight) e)
    Drain-dead f s s' (receive w e) g = refl
    Drain-dead f s s' _ g = refl

    -- what the chunks have sent, when all is done
    settled :
        {chunks : List Bytes} {a : System X A}
        → Reach X A c depth chunks a
        → NoError X A c depth a.shared
        → (a.shared.dead_channel ≡ []) × (all_done X A a.tasks ≡ true)
        → sum_by weight a.shared.dead_written
          ≡ sum_by (λ k. sum_by weight (parse_chunk X A c k).sent) chunks
    settled {chunks} {a} r g (empty, finished) = omega (
      arith,
      conserved X A c depth (NoError X A c depth) dead_held dead_due (move_NoError X A c depth)
          move_dead (Drain-NoError X A c depth) Drain-dead r g,
      all_done-due X A dead_due refl a.tasks finished,
      sum_by-waiting X A dead_due chunks,
      ap (sum_by weight) empty,
      nothing,
    )
      where
        nothing : sum_by weight [] ≡ 0
        nothing = unfold sum_by in refl

    rejected-split :
        (rs ss : List Bytes)
        → sum_by weight (rejected X (rs ++ ss))
          ≡ sum_by weight (rejected X rs) + sum_by weight (rejected X ss)
    unfolding rejected sum_by
    rejected-split [] ss = omega arith
    rejected-split (r ∷ rs) ss = ground (arith, rejected-split rs ss)

    sum_rejected :
        c.limit ≡ none
        → c.has_dead_letter ≡ true
        → (ks : List Bytes) → over_chunks X A c depth (failures_of X A c depth) ks ≡ 0
        → sum_by (λ k. sum_by weight (parse_chunk X A c k).sent) ks
          ≡ sum_by weight (rejected X (concat (map records ks)))
    unfolding sum_by rejected
    sum_rejected u q [] h = refl
    sum_rejected u q (k ∷ ks) h =
        let ((p, e), rest) = no_failures X A c depth k ks h in
        let (rows, skips, sent) = parse_chunk-counts X A c u k e in
        omega (
          arith,
          ap (sum_by weight) sent,
          ap (λ b. sum_by weight (if b then rejected X (records k) else [])) q,
          sum_rejected u q ks rest,
          rejected-split (records k) (concat (map records ks)),
        )

    -- Without a row limit, with a quarantine file and for an input of at most `isize::MAX` bytes, a
    -- pipeline that returns metrics has written
    -- to that file the records of the input that are no objects, trimmed and each once: every
    -- weight of lines has the same sum over both.
    pub quarantine_complete :
        c.limit ≡ none
        → c.has_dead_letter ≡ true
        → (bytes : Bytes) (chunk_size : Option ℕ) {chunks : List Bytes} {a : System X A}
          {rows : Rows X A}
        → length bytes ≤ isize_max
        → IsUsize chunk_size
        → fixed_chunks bytes chunk_size ≡ some chunks
        → Reach X A c depth chunks a
        → returned X A a ≡ some (ok rows)
        → sum_by weight a.shared.dead_written ≡ sum_by weight (rejected X (records bytes))
    quarantine_complete u q bytes chunk_size {chunks} {a} {rows} l s e r h =
        let f = returned-ok X A c depth a rows h in
        settled r f.no_error (Reach-IsSettled q r f.dead_closed)
        ∙ sum_rejected u q chunks (done_failures X A c depth r f.no_error f.tasks_done)
        ∙ ap (λ rs. sum_by weight (rejected X rs)) (fixed_chunks-records bytes chunk_size l s e)
