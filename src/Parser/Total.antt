-- ===== src/Parser/Total.antt =====
-- Which schemas `parse_chunk` can fill: the columns that it builds have the types that an inferred
-- schema has, so that Arrow takes them; for a schema file with another type it takes none.
use parq.Prelude.{
  ℕ, ◌+◌, ◌≡◌, ◌≢◌, refl, ap, ◌∙◌, true, Bool-cases, inl, inr, List, [], ◌∷◌, ◌++◌, map, arith,
  Bytes, All, leb, ltb, length,
}
use parq.Prelude.Results.{Result, ok, err, ◌>>=◌, Result-cases}
use parq.Text.{split_lines}
use parq.Json.{Fields}
use parq.Crates.{Crates}
use parq.Error.{Failure}
use parq.Schema.{Schema, infer_schema}
use parq.Schema.Types.{infer_schema-IsBuildable}
use parq.Columns.{ColBuilder, Array, finish}
use parq.Columns.Cells.{kind_of}
use parq.Columns.Types.{kind_type, IsBuildable, array_type, array_type-finish}
use parq.Parser.{
  Arrow, ParseConfig, ParseState, parse_start, new_builders, flush_batch, flush_full, append_fields,
  parse_object, reject, parse_lines, Parsed, finish_chunk, parse_chunk,
}
use parq.Parser.Cells.{IsFor, append_fields-IsFor, new_builders-IsFor}
use parq.Parser.Modes.{append_fields-lenient}
use parq.Parser.Table.{shape}
use parq.Parser.Kept.{Kept, KeptRound, parse_lines-Kept}
use parq.Parser.Lengths.{array_len, AreOf, append_fields-AreOf, new_builders-AreOf}

module _ (X : Crates) (A : Arrow X) where
  -- `RecordBatch::try_new` makes a batch of one column or more, if all fields are nullable and the
  -- columns have the fields' types and one length.
  abbrev pub AcceptsMatching : Type 0
  AcceptsMatching =
      (schema : Schema) (arrays : List (Array X)) (n : ℕ)
      → schema ≢ []
      → All (λ f. f.nullable ≡ true) schema
      → map (array_type X) arrays ≡ map (λ f. f.data_type) schema
      → All (λ a. array_len X a ≡ n) arrays
      → (b : A.RecordBatch) × (A.try_new schema arrays ≡ ok b)

  -- It makes none of columns whose types are not those of the fields.
  abbrev pub RejectsMismatch : Type 0
  RejectsMismatch =
      (schema : Schema) (arrays : List (Array X)) (b : A.RecordBatch)
      → A.try_new schema arrays ≡ ok b
      → map (array_type X) arrays ≡ map (λ f. f.data_type) schema

  -- The types of the columns, once there is a builder for each field.
  pub builders-types :
      (fs : Schema) (bs : List (ColBuilder X))
      → length bs ≡ length fs
      → IsFor X fs bs
      → map (array_type X) (map (finish X) bs) ≡ map (λ f. kind_type (kind_of f.data_type)) fs
  builders-types [] [] l h = refl
  builders-types [] (b ∷ bs) l h = absurd (omega arith)
  builders-types (f ∷ fs) [] l h = absurd h
  builders-types (f ∷ fs) (b ∷ bs) l h =
      let first = array_type-finish X b ∙ ap kind_type h.0 in
      let rest = builders-types fs bs (omega arith) h.1 in rw (first, rest) refl

  buildable-types :
      (fs : Schema)
      → All IsBuildable fs
      → map (λ f. kind_type (kind_of f.data_type)) fs ≡ map (λ f. f.data_type) fs
  buildable-types [] h = refl
  buildable-types (f ∷ fs) h = let rest = buildable-types fs h.1 in rw (h.0.1, rest) refl

  buildable-nullable : (fs : Schema) → All IsBuildable fs → All (λ f. f.nullable ≡ true) fs
  buildable-nullable [] h = tt
  buildable-nullable (f ∷ fs) h = (h.0.0, buildable-nullable fs h.1)

  finished-len :
      (n : ℕ) (bs : List (ColBuilder X))
      → All (λ b. array_len X (finish X b) ≡ n) bs
      → All (λ a. array_len X a ≡ n) (map (finish X) bs)
  finished-len n [] h = tt
  finished-len n (b ∷ bs) h = (h.0, finished-len n bs h.1)

  module _ (c : ParseConfig X A) where
    -- A builder for each field, of its sort, and all of the length of the batch.
    pub record IsEven (n : ℕ) (bs : List (ColBuilder X)) : Type 0 where
      pub built : IsFor X c.schema bs
      pub waiting : AreOf X n c.schema bs

    new_builders-IsEven : IsEven 0 (new_builders X A c.schema)
    new_builders-IsEven = record {
      built = new_builders-IsFor X A c.schema;
      waiting = new_builders-AreOf X A c.schema;
    }

    module _ (lenient : c.ignore_errors ≡ true) (some_field : c.schema ≢ [])
        (buildable : All IsBuildable c.schema) (accepts : AcceptsMatching) where
      abbrev IsReady : ParseState X A → Type 0
      IsReady st = IsEven st.batch_rows st.builders

      abbrev NoError : Failure X → Type 0
      NoError e = ⊥

      flush_batch-IsReady :
          (st : ParseState X A) (n : ℕ)
          → IsEven n st.builders
          → (st' : ParseState X A) × (flush_batch X A c st ≡ ok st') × IsReady st'
      unfolding flush_batch
      flush_batch-IsReady st n h =
          let types =
            builders-types c.schema st.builders h.waiting.0 h.built
            ∙ buildable-types c.schema buildable in
          let (b, e) =
            accepts c.schema (map (finish X) st.builders) n some_field
              (buildable-nullable c.schema buildable) types
              (finished-len n st.builders h.waiting.1) in
          (
            record st {
              batches = st.batches ++ b ∷ [];
              builders = new_builders X A c.schema;
              batch_rows = 0;
            },
            rw (e, flush_batch) refl,
            new_builders-IsEven,
          )

      flush_full-IsReady :
          (st : ParseState X A)
          → IsReady st
          → (st' : ParseState X A) × (flush_full X A c st ≡ ok st') × IsReady st'
      unfolding flush_full
      flush_full-IsReady st h = elim (Bool-cases (leb c.batch_size st.batch_rows)) [
        | inl e ↦ rw e (flush_batch-IsReady st st.batch_rows h)
        | inr e ↦ rw e (st, refl, h)
      ]

      parse_object-IsReady :
          (m : Fields X.Number) (st : ParseState X A)
          → IsReady st
          → Kept X A IsReady NoError (parse_object X A c m st)
      unfolding parse_object
      parse_object-IsReady m st h =
          elim (Result-cases
            (append_fields X A c.schema st.builders (shape X A c m) st.line_no c.ignore_errors)) [
              | inl (bs, e) ↦
                  let more : IsEven (st.batch_rows + 1) bs = record {
                    built =
                        append_fields-IsFor X A c.schema st.builders (shape X A c m) st.line_no
                          c.ignore_errors bs e h.built;
                    waiting =
                        append_fields-AreOf X A st.batch_rows c.schema st.builders (shape X A c m)
                          st.line_no c.ignore_errors e h.waiting;
                  } in
                  let next : ParseState X A = record st {
                    builders = bs;
                    batch_rows = st.batch_rows + 1;
                    total_ok = st.total_ok + 1;
                  } in
                  let (st', q, k) = flush_full-IsReady next more in rw (e, ◌>>=◌, Kept) (rw q k)
              | inr (x, e) ↦ absurd (
                  append_fields-lenient X A c.schema st.builders (shape X A c m) st.line_no x
                    h.waiting.0 (rw (← lenient) e))
            ]

      reject-IsReady :
          (trimmed : Bytes) (x : X.JsonError) (st : ParseState X A)
          → IsReady st
          → KeptRound X A IsReady NoError (reject X A c trimmed x st)
      unfolding reject
      reject-IsReady trimmed x st h = rw (lenient, KeptRound) h

      abbrev parsed : ParseState X A → Parsed X A
      parsed st = record {
        batches = st.batches;
        rows_ok = st.total_ok;
        rows_skipped = st.total_skip;
      }

      finish_chunk-total :
          (r : Result (Failure X) (ParseState X A))
          → Kept X A IsReady NoError r
          → (p : Parsed X A) × ((r >>= finish_chunk X A c) ≡ ok p)
      unfolding finish_chunk
      finish_chunk-total (err e) h = absurd h
      finish_chunk-total (ok st) h = elim (Bool-cases (ltb 0 st.batch_rows)) [
        | inl e ↦
            let (st', q, k) = flush_batch-IsReady st st.batch_rows h in (parsed st', rw (e, q) refl)
        | inr e ↦ (parsed st, rw e refl)
      ]

      parse_chunk-buildable :
          (bytes : Bytes) → (p : Parsed X A) × ((parse_chunk X A c bytes).result ≡ ok p)
      unfolding parse_chunk
      parse_chunk-buildable bytes =
          finish_chunk-total (parse_lines X A c (split_lines bytes) (parse_start X A c)).result (
            parse_lines-Kept X A IsReady NoError c (λ st h. h) reject-IsReady parse_object-IsReady
              (split_lines bytes) (parse_start X A c) new_builders-IsEven)

    -- `parse_chunk_fits` of `Capacity` without its bounds: no chunk gives an error, for builders
    -- that have no bound.
    pub parse_chunk_total :
        c.ignore_errors ≡ true
        → (head : Bytes) (n : ℕ) → infer_schema X head n ≡ ok c.schema
        → c.schema ≢ []
        → AcceptsMatching
        → (bytes : Bytes) → (p : Parsed X A) × ((parse_chunk X A c bytes).result ≡ ok p)
    parse_chunk_total lenient head n e some_field accepts bytes =
        parse_chunk-buildable lenient some_field (infer_schema-IsBuildable X head n e) accepts bytes
