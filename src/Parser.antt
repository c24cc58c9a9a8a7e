-- ===== src/Parser.antt =====
-- `parse_chunk` and `flush` of crates/parq-parser/src/lib.rs, in the default build; `Simd` is the build
-- with the `simd` feature. What a call sends to the dead-letter channel is returned beside its result.
pub mod Outcome
pub mod Counts
pub mod Bom
pub mod Bounds
pub mod Limit
pub mod Modes
pub mod Nested
pub mod Cells
pub mod Table
pub mod Reported
pub mod Kept
pub mod Lengths
pub mod Sizes
pub mod Total
pub mod Capacity
pub mod Mismatch
pub mod FirstError
pub mod Simd
pub mod Toy
mod Examples
use parq.Prelude.{
  ℕ, zero, suc, ◌+◌, Bool, true, false, Option, none, some, List, [], ◌∷◌, ◌++◌, map, Bytes, codes,
  leb, ltb, if◌then◌else◌, ◌≡◌,
}
use parq.Prelude.Results.{Result, ok, err, ◌>>=◌}
use parq.Text.{is_empty, split_lines, trim}
use parq.Json.{Value, object, Fields}
use parq.Json
use parq.DataType.{DataType}
use parq.Crates.{Crates}
use parq.Error.{Failure, parq_error, arrow_error, message, json_parse}
use parq.Schema.{Field, Schema}
use parq.Flatten.{flatten_object}
use parq.Columns.{ColBuilder, new_builder, append, Array, finish}

-- `arrow::record_batch::RecordBatch`
pub record Arrow (X : Crates) : Type 1 where
  pub RecordBatch : Type 0
  pub try_new : Schema → List (Array X) → Result X.ArrowError RecordBatch
  pub columns : RecordBatch → List (Array X)
  pub try_new-columns :
      (schema : Schema) (arrays : List (Array X)) {b : RecordBatch}
      → try_new schema arrays ≡ ok b
      → columns b ≡ arrays

-- `if let Some(lim) = limit { if total_ok >= lim { break; } }`
unfoldable pub limit_reached : Option ℕ → ℕ → Bool
limit_reached none n = false
limit_reached (some lim) n = leb lim n

module _ (X : Crates) (A : Arrow X) where
  open X use {Number, from_slice, bang_error}
  open A use {RecordBatch, try_new}

  -- The arguments of `parse_chunk`, but for the bytes.
  pub record ParseConfig : Type 0 where
    pub schema : Schema
    pub batch_size : ℕ
    pub ignore_errors : Bool
    pub flatten_json : Bool
    pub limit : Option ℕ
    pub has_dead_letter : Bool

  -- Its local variables.
  pub record ParseState : Type 0 where
    pub batches : List RecordBatch
    pub builders : List (ColBuilder X)
    pub batch_rows : ℕ
    pub total_ok : ℕ
    pub total_skip : ℕ
    pub line_no : ℕ

  abbrev pub new_builders : Schema → List (ColBuilder X)
  new_builders schema = map (λ f. new_builder X f.data_type) schema

  abbrev pub parse_start : ParseConfig → ParseState
  parse_start c = record {
    batches = [];
    builders = new_builders c.schema;
    batch_rows = 0;
    total_ok = 0;
    total_skip = 0;
    line_no = 0;
  }

  -- `batches.push(flush(…)?); batch_rows = 0;`
  unfoldable pub flush_batch : ParseConfig → ParseState → Result (Failure X) ParseState
  flush_batch c st = elim (try_new c.schema (map (finish X) st.builders)) [
    | err e ↦ err (arrow_error e)
    | ok b ↦ ok (record st {
      batches = st.batches ++ b ∷ [];
      builders = new_builders c.schema;
      batch_rows = 0;
    })
  ]

  -- The loop over the fields: `builders[i].append(obj.get(field.name()), …)?`. There is a builder
  -- for each field, or else the index panics.
  unfoldable pub append_fields :
      Schema
      → List (ColBuilder X)
      → Fields Number
      → ℕ
      → Bool
      → Result (Failure X) (List (ColBuilder X))
  append_fields [] bs obj line ignore_errors = ok bs
  append_fields (f ∷ fs) [] obj line ignore_errors = err (message (codes "index out of bounds"))
  append_fields (f ∷ fs) (b ∷ bs) obj line ignore_errors =
      append X b (X.get obj f.name) line ignore_errors >>= λ b'.
      append_fields fs bs obj line ignore_errors >>= λ bs'. ok (b' ∷ bs')

  -- How a round of the loop ends: `break`, the next round, after what it sent, or `return Err`.
  pub data Round : Type 0 where
    broke : ParseState → Round
    went : ParseState → List Bytes → Round
    failed : Failure X → Round

  unfoldable pub flush_full : ParseConfig → ParseState → Result (Failure X) ParseState
  unfolding flush_batch
  flush_full c st = if leb c.batch_size st.batch_rows then flush_batch c st else ok st

  -- From "Optional flatten" to the end of the round.
  unfoldable pub parse_object :
      ParseConfig → Fields Number → ParseState → Result (Failure X) ParseState
  unfolding flush_full
  parse_object c m st =
      let obj = if c.flatten_json then flatten_object X m (codes "_") else m in
      append_fields c.schema st.builders obj st.line_no c.ignore_errors >>= λ builders.
      flush_full c (record st {
        builders = builders;
        batch_rows = st.batch_rows + 1;
        total_ok = st.total_ok + 1;
      })

  abbrev pub round_of : Result (Failure X) ParseState → Round
  round_of (ok st) = went st []
  round_of (err e) = failed e

  -- A record that is no JSON, or no object: skipped and sent in lenient mode, else an error.
  unfoldable pub reject : ParseConfig → Bytes → X.JsonError → ParseState → Round
  reject c trimmed source st =
      if c.ignore_errors
      then went (record st { total_skip = st.total_skip + 1 })
          (if c.has_dead_letter then trimmed ∷ [] else [])
      else failed (parq_error (json_parse st.line_no source))

  -- The value of a record that is an object.
  unfoldable pub parse_value : ParseConfig → Bytes → Value Number → ParseState → Round
  unfolding reject parse_object
  parse_value c trimmed (object m) st = round_of (parse_object c m st)
  parse_value c trimmed _ st = reject c trimmed bang_error st

  unfoldable pub parse_line : ParseConfig → Bytes → ParseState → Round
  unfolding reject parse_value limit_reached
  parse_line c line st =
      let st' = record st { line_no = st.line_no + 1 } in
      if limit_reached c.limit st'.total_ok
      then broke st'
      else if is_empty (trim line)
      then went st' []
      else elim (from_slice (trim line)) [
        | ok value ↦ parse_value c (trim line) value st'
        | err e ↦ reject c (trim line) e st'
      ]

  pub record Run (R : Type 0) : Type 0 where
    pub sent : List Bytes
    pub result : Result (Failure X) R

  -- What follows a round: `rest` are the rounds over the later lines.
  abbrev pub after_round : Round → (ParseState → Run ParseState) → Run ParseState
  after_round (broke st) rest = record { sent = []; result = ok st }
  after_round (failed e) rest = record { sent = []; result = err e }
  after_round (went st more) rest =
      let r = rest st in record { sent = more ++ r.sent; result = r.result }

  unfoldable pub parse_lines : ParseConfig → List Bytes → ParseState → Run ParseState
  parse_lines c [] st = record { sent = []; result = ok st }
  parse_lines c (line ∷ lines) st =
      after_round (parse_line c line st) (λ st'. parse_lines c lines st')

  pub record Parsed : Type 0 where
    pub batches : List RecordBatch
    pub rows_ok : ℕ
    pub rows_skipped : ℕ

  -- The last batch, and the triple that is returned.
  unfoldable pub finish_chunk : ParseConfig → ParseState → Result (Failure X) Parsed
  unfolding flush_batch
  finish_chunk c st = (if ltb 0 st.batch_rows then flush_batch c st else ok st) >>= λ st'.
      ok (record { batches = st'.batches; rows_ok = st'.total_ok; rows_skipped = st'.total_skip })

  unfoldable pub parse_chunk : ParseConfig → Bytes → Run Parsed
  unfolding parse_lines finish_chunk
  parse_chunk c bytes =
      let r = parse_lines c (split_lines bytes) (parse_start c) in
      record { sent = r.sent; result = r.result >>= finish_chunk c }
