-- ===== src/Parser/Limit.antt =====
-- The row limit of one call of `parse_chunk`.
use parq.Prelude.{
  ℕ, ◌+◌, ◌≤◌, ◌≡◌, refl, ◌∙◌, some, List, [], ◌∷◌, arith, Bytes, leb, min, length, Bool-cases,
  Option-cases, inl, inr,
}
use parq.Prelude.Results.{ok, >>=-eq-ok, Result-cases}
use parq.Text.{is_empty, trim, keep_records, split_lines, records}
use parq.Crates.{Crates}
use parq.Parser.{
  Arrow, ParseConfig, ParseState, parse_start, parse_object, parse_lines, reject, limit_reached,
  Parsed, finish_chunk, parse_chunk,
}
use parq.Parser.Outcome.{
  object_in, accepted, parse_object-Advances, counted, parse_line-blank, parse_line-stop,
  parse_line-object, parse_line-reject,
}
use parq.Parser.Counts.{finish_chunk-counts}

module _ (X : Crates) (A : Arrow X) (c : ParseConfig X A) (lim : ℕ) (u : c.limit ≡ some lim) where
  open X use {from_slice}

  limit_reached-eq : (n : ℕ) → limit_reached c.limit n ≡ leb lim n
  limit_reached-eq n = rw u (unfold limit_reached in refl)

  parse_lines-capped :
      (ls : List Bytes) (st st' : ParseState X A)
      → st.total_ok ≤ lim
      → (parse_lines X A c ls st).result ≡ ok st'
      → st'.total_ok ≡ min lim (st.total_ok + length (accepted X (keep_records ls)))
  unfolding parse_lines keep_records accepted reject
  parse_lines-capped [] st st' w h = ground arith
  parse_lines-capped (l ∷ ls) st st' w h = elim (Bool-cases (leb lim st.total_ok)) [
    | inl d ↦ ground (arith, parse_line-stop X A c l st (limit_reached-eq st.total_ok ∙ d))
    | inr d ↦ elim (Bool-cases (is_empty (trim l))) [
      | inl e ↦ ground (
        arith,
        parse_line-blank X A c l st (limit_reached-eq st.total_ok ∙ d) e,
        parse_lines-capped ls (counted X A c st) st',
      )
      | inr e ↦ elim (Option-cases (object_in X (from_slice (trim l)))) [
        | inl p ↦
            let (x, q) = parse_line-reject X A c l st (limit_reached-eq st.total_ok ∙ d) e p in
            ground (
              arith,
              q,
              parse_lines-capped ls
                  (record st { line_no = st.line_no + 1; total_skip = st.total_skip + 1 }) st',
            )
        | inr (m, p) ↦ elim (Result-cases (parse_object X A c m (counted X A c st))) [
          | inl (st1, q) ↦ ground (
            arith,
            parse_line-object X A c l st m (limit_reached-eq st.total_ok ∙ d) e p,
            parse_object-Advances X A c m (counted X A c st) q,
            parse_lines-capped ls st1 st',
          )
          | inr (x, q) ↦
              ground (arith, parse_line-object X A c l st m (limit_reached-eq st.total_ok ∙ d) e p)
        ]
      ]
    ]
  ]

  -- With a limit, a chunk that is parsed has as many rows as it has records that are objects, up
  -- to the limit.
  pub parse_chunk-capped :
      (bytes : Bytes) {p : Parsed X A}
      → (parse_chunk X A c bytes).result ≡ ok p
      → p.rows_ok ≡ min lim (length (accepted X (records bytes)))
  unfolding parse_chunk records
  parse_chunk-capped bytes {p} h =
      let (st, e, f) =
        >>=-eq-ok (parse_lines X A c (split_lines bytes) (parse_start X A c)).result
          (finish_chunk X A c) h in
      omega (
        arith,
        finish_chunk-counts X A c st f,
        parse_lines-capped (split_lines bytes) (parse_start X A c) st (omega arith) e,
      )
