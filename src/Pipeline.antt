-- ===== src/Pipeline.antt =====
-- The threads of `run_pipeline` of crates/parq-core/src/lib.rs, behind `Prepare`. The rayon tasks,
-- the writer thread and the quarantine thread are a step relation over the state that they share:
-- any task may move at any time, so the number of threads and the order in which rayon takes the
-- chunks are left open. Timing is left out.
pub mod Sums
pub mod Bounds
pub mod Memory
pub mod Counters
pub mod Totals
pub mod Delivery
pub mod Success
pub mod Failures
pub mod Writers
pub mod Ends
pub mod Progress
pub mod Quarantine
pub mod Output
mod Examples
use parq.Prelude.{
  ℕ, zero, suc, ◌+◌, ◌<◌, ◌≡◌, Bool, true, false, ◌&&◌, Option, none, some, List, [], ◌∷◌, ◌++◌,
  map, Bytes, codes, length,
}
use parq.Prelude.Results.{Result, ok, err, ◌>>=◌}
use parq.Crates.{Crates}
use parq.Error.{Failure, io_error, parquet_error, message}
use parq.Schema.{Schema, infer_schema, load_schema_from_file}
use parq.Chunk.{fixed_chunks}
use parq.Parser.{Arrow, ParseConfig, Parsed, Run, parse_chunk}

module _ (X : Crates) (A : Arrow X) where
  open A use {RecordBatch}

  -- A writer thread: at work, ended well, or ended with an error, its receiver dropped.
  pub data Writer : Type 0 where
    writing closed : Writer
    broken : Failure X → Writer

  -- How the writer thread and the quarantine thread can fail: by what `?` passes on in their bodies,
  -- or by a panic, which `join` turns into a message.
  pub data WriterFailure : Failure X → Type 0 where
    io_failed : (e : X.IoError) → WriterFailure (io_error e)
    parquet_failed : (e : X.ParquetError) → WriterFailure (parquet_error e)
    panicked : WriterFailure (message (codes "Writer thread panicked"))

  pub data DeadWriterFailure : Failure X → Type 0 where
    dead_io_failed : (e : X.IoError) → DeadWriterFailure (io_error e)
    dead_panicked : DeadWriterFailure (message (codes "Dead letter thread panicked"))

  -- What the threads share. `channel` is the bounded channel of batches, `dead_channel` the
  -- unbounded one of quarantined lines; `written` and `dead_written` are what the two writer
  -- threads have put into their files.
  pub record Shared : Type 0 where
    pub total_rows : ℕ
    pub error_rows : ℕ
    pub parse_error : Option (Failure X)
    pub channel : List RecordBatch
    pub written : List RecordBatch
    pub writer : Writer
    pub dead_channel : List Bytes
    pub dead_written : List Bytes
    pub dead_writer : Writer

  -- One call of the closure of `for_each_with`.
  pub data Task : Type 0 where
    waiting : (chunk : Bytes) → Task
    parsing : (lines : List Bytes) → Result (Failure X) (Parsed X A) → Task
    sending : (batches : List RecordBatch) → Task
    done : Task

  -- `if guard.is_none() { *guard = Some(e); }`
  abbrev pub first_error : Option (Failure X) → Failure X → Option (Failure X)
  first_error none e = some e
  first_error (some e0) e = some e0

  -- A move of one task. A failed send of a batch is logged, one of a line is ignored.
  pub data Move (c : ParseConfig X A) (depth : ℕ) (s : Shared) : Task → Shared → Task → Type 0 where
    skip :
        {e : Failure X} {chunk : Bytes}
        → s.parse_error ≡ some e
        → Move c depth s (waiting chunk) s done
    start :
        {chunk : Bytes}
        → s.parse_error ≡ none
        → Move c depth s
            (waiting chunk)
            s
            (parsing (parse_chunk X A c chunk).sent (parse_chunk X A c chunk).result)
    quarantine :
        {line : Bytes} {lines : List Bytes} {r : Result (Failure X) (Parsed X A)}
        → Move c depth s
            (parsing (line ∷ lines) r)
            (record s { dead_channel = s.dead_channel ++ line ∷ [] })
            (parsing lines r)
    fail :
        {e : Failure X}
        → Move c depth s
            (parsing [] (err e))
            (record s { parse_error = first_error s.parse_error e })
            done
    count :
        {p : Parsed X A}
        → Move c depth s
            (parsing [] (ok p))
            (record s {
              total_rows = s.total_rows + p.rows_ok;
              error_rows = s.error_rows + p.rows_skipped;
            })
            (sending p.batches)
    send :
        {b : RecordBatch} {bs : List RecordBatch}
        → s.writer ≡ writing
        → length s.channel < depth
        → Move c depth s
            (sending (b ∷ bs))
            (record s { channel = s.channel ++ b ∷ [] })
            (sending bs)
    -- the writer is waiting for a batch, which is all that a channel of depth 0 allows
    hand_over :
        {b : RecordBatch} {bs : List RecordBatch}
        → s.writer ≡ writing
        → s.channel ≡ []
        → Move c depth s
            (sending (b ∷ bs))
            (record s { written = s.written ++ b ∷ [] })
            (sending bs)
    lose :
        {b : RecordBatch} {bs : List RecordBatch} {e : Failure X}
        → s.writer ≡ broken e
        → Move c depth s (sending (b ∷ bs)) s (sending bs)
    finish_task : Move c depth s (sending []) s done

  -- Whether every task has returned, and so every sender is dropped.
  abbrev pub all_done : List Task → Bool
  all_done [] = true
  all_done (done ∷ ts) = all_done ts
  all_done (t ∷ ts) = false

  -- A move of the writer thread or of the quarantine thread. `finished` says that all senders are
  -- dropped; a writer may fail at any time.
  pub data Drain (finished : Bool) (s : Shared) : Shared → Type 0 where
    receive :
        {b : RecordBatch} {bs : List RecordBatch}
        → s.writer ≡ writing
        → s.channel ≡ b ∷ bs
        → Drain finished s (record s { channel = bs; written = s.written ++ b ∷ [] })
    close :
        s.writer ≡ writing
        → s.channel ≡ []
        → finished ≡ true
        → Drain finished s (record s { writer = closed })
    break_down :
        {e : Failure X}
        → WriterFailure e
        → s.writer ≡ writing
        → Drain finished s (record s { writer = broken e })
    dead_receive :
        {line : Bytes} {lines : List Bytes}
        → s.dead_writer ≡ writing
        → s.dead_channel ≡ line ∷ lines
        → Drain finished s
            (record s { dead_channel = lines; dead_written = s.dead_written ++ line ∷ [] })
    dead_close :
        s.dead_writer ≡ writing
        → s.dead_channel ≡ []
        → finished ≡ true
        → Drain finished s (record s { dead_writer = closed })
    dead_break_down :
        {e : Failure X}
        → DeadWriterFailure e
        → s.dead_writer ≡ writing
        → Drain finished s (record s { dead_writer = broken e })

  pub record System : Type 0 where
    pub shared : Shared
    pub tasks : List Task

  pub data Step (c : ParseConfig X A) (depth : ℕ) : System → System → Type 0 where
    work :
        {s s' : Shared} {t t' : Task} (before after : List Task)
        → Move c depth s t s' t'
        → Step c depth
            (record { shared = s; tasks = before ++ t ∷ after })
            (record { shared = s'; tasks = before ++ t' ∷ after })
    drain :
        {s s' : Shared} {tasks : List Task}
        → Drain (all_done tasks) s s'
        → Step c depth
            (record { shared = s; tasks = tasks })
            (record { shared = s'; tasks = tasks })

  -- The state in which the tasks start.
  abbrev pub start_system : ParseConfig X A → List Bytes → System
  start_system c chunks = record {
    shared = record {
      total_rows = 0;
      error_rows = 0;
      parse_error = none;
      channel = [];
      written = [];
      writer = writing;
      dead_channel = [];
      dead_written = [];
      dead_writer = elim c.has_dead_letter [ true ↦ writing | false ↦ closed ];
    };
    tasks = map waiting chunks;
  }

  pub data Reach (c : ParseConfig X A) (depth : ℕ) (chunks : List Bytes) : System → Type 0 where
    here : Reach c depth chunks (start_system c chunks)
    next : {a b : System} → Reach c depth chunks a → Step c depth a b → Reach c depth chunks b

  -- The counters of `ProcessingMetrics`.
  pub record Rows : Type 0 where
    pub rows_processed : ℕ
    pub rows_errored : ℕ

  -- `writer_handle.join()…??; if let Some(handle) = dl_handle { … }`
  abbrev pub join : Writer → Writer → Rows → Option (Result (Failure X) Rows)
  join writing dead rows = none
  join (broken e) dead rows = some (err e)
  join closed writing rows = none
  join closed (broken e) rows = some (err e)
  join closed closed rows = some (ok rows)

  -- What `run_pipeline` returns, once it can: after the last task it returns a parse error at once
  -- and otherwise waits for the writers.
  unfoldable pub returned : System → Option (Result (Failure X) Rows)
  returned a = elim (all_done a.tasks) [
    | false ↦ none
    | true ↦ elim a.shared.parse_error [
      | some e ↦ some (err e)
      | none ↦
          join a.shared.writer a.shared.dead_writer
            (record { rows_processed = a.shared.total_rows; rows_errored = a.shared.error_rows })
    ]
  ]
