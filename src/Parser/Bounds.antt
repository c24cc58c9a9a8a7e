-- ===== src/Parser/Bounds.antt =====
-- The counters of `parse_chunk` against the number of its records.
use parq.Prelude.{
  ℕ, ◌+◌, ◌≤◌, ◌≡◌, List, [], ◌∷◌, arith, Bytes, length, Bool-cases, Option-cases, inl, inr,
}
use parq.Prelude.Results.{ok, >>=-eq-ok, Result-cases}
use parq.Text.{is_empty, trim, keep_records, split_lines, records}
use parq.Crates.{Crates}
use parq.Parser.{
  Arrow, ParseConfig, ParseState, parse_start, parse_object, parse_lines, reject, limit_reached,
  Parsed, finish_chunk, parse_chunk,
}
use parq.Parser.Outcome.{
  object_in, parse_object-Advances, counted, parse_line-blank, parse_line-stop, parse_line-object,
  parse_line-reject,
}
use parq.Parser.Counts.{finish_chunk-counts}

module _ (X : Crates) (A : Arrow X) (c : ParseConfig X A) where
  -- The lines that a state has taken for rows or skipped.
  abbrev counts : ParseState X A → ℕ
  counts st = st.total_ok + st.total_skip

  lines_bound :
      (ls : List Bytes) (st st' : ParseState X A)
      → (parse_lines X A c ls st).result ≡ ok st'
      → counts st' ≤ counts st + length (keep_records ls)
  unfolding parse_lines keep_records reject
  lines_bound [] st st' h = ground arith
  lines_bound (l ∷ ls) st st' h = elim (Bool-cases (limit_reached c.limit st.total_ok)) [
    | inl d ↦ ground (arith, parse_line-stop X A c l st d)
    | inr d ↦ elim (Bool-cases (is_empty (trim l))) [
      | inl e ↦
          ground (arith, parse_line-blank X A c l st d e, lines_bound ls (counted X A c st) st')
      | inr e ↦ elim (Option-cases (object_in X (X.from_slice (trim l)))) [
        | inl p ↦
            let (x, q) = parse_line-reject X A c l st d e p in
            let skipped = record st { line_no = st.line_no + 1; total_skip = st.total_skip + 1 } in
            ground (arith, q, lines_bound ls skipped st')
        | inr (m, p) ↦ elim (Result-cases (parse_object X A c m (counted X A c st))) [
          | inl (st1, q) ↦ ground (
            arith,
            parse_line-object X A c l st m d e p,
            parse_object-Advances X A c m (counted X A c st) q,
            lines_bound ls st1 st',
          )
          | inr (x, q) ↦ ground (arith, parse_line-object X A c l st m d e p)
        ]
      ]
    ]
  ]

  -- With a limit or without, each record is counted at most once.
  pub parse_chunk_bound :
      (bytes : Bytes) {p : Parsed X A}
      → (parse_chunk X A c bytes).result ≡ ok p
      → p.rows_ok + p.rows_skipped ≤ length (records bytes)
  unfolding parse_chunk records
  parse_chunk_bound bytes {p} h =
      let (st, e, f) =
        >>=-eq-ok (parse_lines X A c (split_lines bytes) (parse_start X A c)).result
          (finish_chunk X A c) h in
      omega (
        arith,
        finish_chunk-counts X A c st f,
        lines_bound (split_lines bytes) (parse_start X A c) st e,
      )
