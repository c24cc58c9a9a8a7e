-- ===== src/Parser/Table.antt =====
-- The columns of the batches that `parse_chunk` returns, against the records of the chunk.
use parq.Prelude.{
  ℕ, ◌+◌, ◌≡◌, sym, ap, subst, ◌∙◌, true, false, none, some, List, [], ◌∷◌, ◌++◌, map, append_assoc,
  append-nil, arith, Bytes, codes, leb, ltb, concat, Bool-cases, Option-cases, inl, inr,
  if◌then◌else◌,
}
use parq.Prelude.Results.{ok, >>=-eq-ok, Result-cases}
use parq.Text.{is_empty, trim, keep_records, split_lines, records}
use parq.Json.{Fields}
use parq.Crates.{Crates}
use parq.Flatten.{flatten_object}
use parq.Columns.{finish}
use parq.Columns.Cells.{Cell}
use parq.Parser.Counts.{no_limit}
use parq.Parser.Outcome.{
  object_in, accepted, counted, parse_line-blank, parse_line-object, parse_line-reject,
}
use parq.Parser.{
  Arrow, ParseConfig, ParseState, parse_start, flush_batch, flush_full, append_fields, parse_object,
  parse_lines, reject, Parsed, finish_chunk, parse_chunk,
}
use parq.Parser.Cells.{
  column, row_cell, append_fields-IsFor, append_fields-column, new_builders-IsFor,
  column-new_builders, column_of, state_column, IsSound, Extends, flush_batch-Extends,
}

module _ (X : Crates) (A : Arrow X) (c : ParseConfig X A) where
  -- the object, flattened or not
  abbrev pub shape : Fields X.Number → Fields X.Number
  shape m = if c.flatten_json then flatten_object X m (codes "_") else m

  -- The cells of objects in a column.
  abbrev pub rows_column : ℕ → List (Fields X.Number) → List (Cell X)
  rows_column i ms = concat (map (λ m. row_cell X i c.schema (shape m)) ms)

  flush_full-Extends :
      (st : ParseState X A) {st' : ParseState X A}
      → flush_full X A c st ≡ ok st'
      → IsSound X A c st
      → Extends X A c (λ i. []) st st'
  unfolding flush_full
  flush_full-Extends st {st'} h s = elim (Bool-cases (leb c.batch_size st.batch_rows)) [
    | inl e ↦ flush_batch-Extends X A c st (ground arith)
    | inr e ↦
        let same : st ≡ st' = ground arith in
        subst (Extends X A c (λ i. []) st) same
          (record { sound = s; extended = λ i. sym (append-nil (state_column X A c i st)) })
  ]

  parse_object-Extends :
      (m : Fields X.Number) (st : ParseState X A) {st' : ParseState X A}
      → parse_object X A c m st ≡ ok st'
      → IsSound X A c st
      → Extends X A c (λ i. row_cell X i c.schema (shape m)) st st'
  unfolding parse_object
  parse_object-Extends m st {st'} h s =
      let (bs, e, g) =
        >>=-eq-ok (append_fields X A c.schema st.builders (shape m) st.line_no c.ignore_errors) _
          h in
      let st1 : ParseState X A = record st {
        builders = bs;
        batch_rows = st.batch_rows + 1;
        total_ok = st.total_ok + 1;
      } in
      let sound1 : IsSound X A c st1 = record {
        built =
            append_fields-IsFor X A c.schema st.builders (shape m) st.line_no c.ignore_errors bs e
              s.built;
        empty = λ z. absurd (omega arith);
      } in
      let x = flush_full-Extends st1 g sound1 in
      record {
        sound = x.sound;
        extended = λ i.
            x.extended i
            ∙ append-nil (state_column X A c i st1)
            ∙ ap (λ l. column_of X A i st.batches ++ l)
                (append_fields-column X A c.schema st.builders (shape m) st.line_no c.ignore_errors
                  bs e s.built i)
            ∙ sym (
                append_assoc (column_of X A i st.batches) (column X i (map (finish X) st.builders))
                  (row_cell X i c.schema (shape m)));
      }

  after_blank :
      (l : Bytes) (ls : List Bytes) (st st' : ParseState X A)
      → c.limit ≡ none
      → is_empty (trim l) ≡ true
      → (parse_lines X A c (l ∷ ls) st).result ≡ ok st'
      → (parse_lines X A c ls (counted X A c st)).result ≡ ok st'
  unfolding parse_lines
  after_blank l ls st st' u e h =
      ground (arith, parse_line-blank X A c l st (no_limit X A c u st.total_ok) e)

  -- the state behind a record that was skipped
  abbrev skipped : ParseState X A → ParseState X A
  skipped st = record st { line_no = st.line_no + 1; total_skip = st.total_skip + 1 }

  after_reject :
      (l : Bytes) (ls : List Bytes) (st st' : ParseState X A)
      → c.limit ≡ none
      → is_empty (trim l) ≡ false
      → object_in X (X.from_slice (trim l)) ≡ none
      → (parse_lines X A c (l ∷ ls) st).result ≡ ok st'
      → (parse_lines X A c ls (skipped st)).result ≡ ok st'
  unfolding parse_lines reject
  after_reject l ls st st' u e p h =
      let (x, q) = parse_line-reject X A c l st (no_limit X A c u st.total_ok) e p in
      ground (arith, q)

  after_object :
      (l : Bytes) (ls : List Bytes) (st st' : ParseState X A) (m : Fields X.Number)
      → c.limit ≡ none
      → is_empty (trim l) ≡ false
      → object_in X (X.from_slice (trim l)) ≡ some m
      → (parse_lines X A c (l ∷ ls) st).result ≡ ok st'
      → (st1 : ParseState X A) × (parse_object X A c m (counted X A c st) ≡ ok st1)
        × ((parse_lines X A c ls st1).result ≡ ok st')
  unfolding parse_lines
  after_object l ls st st' m u e p h =
      let line = parse_line-object X A c l st m (no_limit X A c u st.total_ok) e p in
      elim (Result-cases (parse_object X A c m (counted X A c st))) [
        | inl (st1, q) ↦ (st1, q, ground (arith, line, q))
        | inr (x, q) ↦ absurd (ground (arith, line, q))
      ]

  parse_lines-Extends :
      c.limit ≡ none
      → (ls : List Bytes) (st st' : ParseState X A) → (parse_lines X A c ls st).result ≡ ok st'
      → IsSound X A c st
      → Extends X A c (λ i. rows_column i (accepted X (keep_records ls))) st st'
  unfolding parse_lines keep_records accepted
  parse_lines-Extends u [] st st' h s =
      let same : st ≡ st' = ground arith in
      subst (Extends X A c (λ i. []) st) same
        (record { sound = s; extended = λ i. sym (append-nil (state_column X A c i st)) })
  parse_lines-Extends u (l ∷ ls) st st' h s = elim (Bool-cases (is_empty (trim l))) [
    | inl e ↦
        let x =
          parse_lines-Extends u ls (counted X A c st) st' (after_blank l ls st st' u e h)
            (record { built = s.built; empty = s.empty }) in
        record { sound = x.sound; extended = λ i. rw e (x.extended i) }
    | inr e ↦ elim (Option-cases (object_in X (X.from_slice (trim l)))) [
      | inl p ↦
          let x =
            parse_lines-Extends u ls (skipped st) st' (after_reject l ls st st' u e p h)
              (record { built = s.built; empty = s.empty }) in
          record { sound = x.sound; extended = λ i. rw (e, accepted, p) (x.extended i) }
      | inr (m, p) ↦
          let (st1, q, g) = after_object l ls st st' m u e p h in
          let o =
            parse_object-Extends m (counted X A c st) q
              (record { built = s.built; empty = s.empty }) in
          let x = parse_lines-Extends u ls st1 st' g o.sound in
          record {
            sound = x.sound;
            extended = λ i.
                rw (e, accepted, p)
                  (x.extended i
                    ∙ ap (λ k. k ++ rows_column i (accepted X (keep_records ls))) (o.extended i)
                    ∙ append_assoc (state_column X A c i st) (row_cell X i c.schema (shape m))
                        (rows_column i (accepted X (keep_records ls))));
          }
    ]
  ]

  finish_chunk-column :
      (st : ParseState X A) {p : Parsed X A}
      → finish_chunk X A c st ≡ ok p
      → IsSound X A c st
      → (i : ℕ) → column_of X A i p.batches ≡ state_column X A c i st
  unfolding finish_chunk
  finish_chunk-column st {p} h s i = elim (Bool-cases (ltb 0 st.batch_rows)) [
    | inl e ↦ elim (Result-cases (flush_batch X A c st)) [
      | inl (st1, q) ↦
          let x = flush_batch-Extends X A c st q in
          let same : st1.batches ≡ p.batches = ground arith in
          let no_rows : st1.batch_rows ≡ 0 = unfold flush_batch in ground arith in
          subst (λ bs. column_of X A i bs ≡ state_column X A c i st) same
            (sym (append-nil (column_of X A i st1.batches))
              ∙ ap (λ l. column_of X A i st1.batches ++ l) (sym (x.sound.empty no_rows i))
              ∙ x.extended i
              ∙ append-nil (state_column X A c i st))
      | inr (x, q) ↦ absurd (ground arith)
    ]
    | inr e ↦
        let same : st.batches ≡ p.batches = ground arith in
        subst (λ bs. column_of X A i bs ≡ state_column X A c i st) same
          (sym (append-nil (column_of X A i st.batches))
            ∙ ap (λ l. column_of X A i st.batches ++ l) (sym (s.empty (ground arith) i)))
  ]

  -- Without a limit, each column of the batches that a chunk gives, put one behind the other, has
  -- one cell for each record of the chunk that is an object, in order: the value at the column's
  -- name in that object, flattened if asked for, in the form of the column's sort.
  pub parse_chunk-column :
      c.limit ≡ none
      → (bytes : Bytes) (i : ℕ) {p : Parsed X A} → (parse_chunk X A c bytes).result ≡ ok p
      → column_of X A i p.batches ≡ rows_column i (accepted X (records bytes))
  unfolding parse_chunk records
  parse_chunk-column u bytes i {p} h =
      let (st, e, f) =
        >>=-eq-ok (parse_lines X A c (split_lines bytes) (parse_start X A c)).result
          (finish_chunk X A c) h in
      let start : IsSound X A c (parse_start X A c) = record {
        built = new_builders-IsFor X A c.schema;
        empty = λ z j. column-new_builders X A j c.schema;
      } in
      let x = parse_lines-Extends u (split_lines bytes) (parse_start X A c) st e start in
      finish_chunk-column st f x.sound i
      ∙ x.extended i
      ∙ ap (λ l. l ++ rows_column i (accepted X (records bytes)))
          (column-new_builders X A i c.schema)
