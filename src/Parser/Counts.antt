-- ===== src/Parser/Counts.antt =====
-- The counters and the quarantine of `parse_chunk` against the records of the chunk.
use parq.Prelude.{
  ℕ, ◌+◌, ◌≡◌, refl, false, Option, none, some, List, [], ◌∷◌, arith, Bytes, min, length,
  Bool-cases, Option-cases, inl, inr, if◌then◌else◌,
}
use parq.Prelude.Results.{ok, >>=-eq-ok, Result-cases}
use parq.Text.{is_empty, trim, keep_records, split_lines, records}
use parq.Crates.{Crates}
use parq.Parser.{
  Arrow, ParseConfig, ParseState, parse_start, parse_object, parse_lines, reject, limit_reached,
  Parsed, finish_chunk, parse_chunk,
}
use parq.Parser.Outcome.{
  object_in, accepted, rejected, flush_batch-Advances, parse_object-Advances, counted,
  parse_line-blank, parse_line-object, parse_line-reject,
}

-- At most the limit, if there is one.
abbrev pub capped : Option ℕ → ℕ → ℕ
capped none n = n
capped (some lim) n = min lim n

module _ (X : Crates) (A : Arrow X) (c : ParseConfig X A) where
  open X use {Number, from_slice}

  abbrev pub quarantine : List Bytes → List Bytes
  quarantine rs = if c.has_dead_letter then rs else []

  -- What the rounds over some lines add up to.
  record Adds (rs : List Bytes) (st st' : ParseState X A) (sent : List Bytes) : Type 0 where
    total_ok : st'.total_ok ≡ st.total_ok + length (accepted X rs)
    total_skip : st'.total_skip ≡ st.total_skip + length (rejected X rs)
    sent_lem : sent ≡ quarantine (rejected X rs)

  pub no_limit : c.limit ≡ none → (n : ℕ) → limit_reached c.limit n ≡ false
  no_limit h n = rw h (unfold limit_reached in refl)

  -- what a line that was blank, accepted or rejected adds, and what the later lines add
  parse_lines-Adds :
      c.limit ≡ none
      → (ls : List Bytes) (st st' : ParseState X A) → (parse_lines X A c ls st).result ≡ ok st'
      → Adds (keep_records ls) st st' (parse_lines X A c ls st).sent
  unfolding parse_lines keep_records accepted rejected reject
  parse_lines-Adds u [] st st' h = ground arith
  parse_lines-Adds u (l ∷ ls) st st' h = elim (Bool-cases (is_empty (trim l))) [
    | inl e ↦ ground (
      arith,
      parse_line-blank X A c l st (no_limit u st.total_ok) e,
      parse_lines-Adds u ls (counted X A c st) st',
    )
    | inr e ↦ elim (Option-cases (object_in X (from_slice (trim l)))) [
      | inl p ↦
          let (x, q) = parse_line-reject X A c l st (no_limit u st.total_ok) e p in
          ground (
            arith,
            q,
            parse_lines-Adds u ls
                (record st { line_no = st.line_no + 1; total_skip = st.total_skip + 1 }) st',
          )
      | inr (m, p) ↦ elim (Result-cases (parse_object X A c m (counted X A c st))) [
        | inl (st1, q) ↦ ground (
          arith,
          parse_line-object X A c l st m (no_limit u st.total_ok) e p,
          parse_object-Advances X A c m (counted X A c st) q,
          parse_lines-Adds u ls st1 st',
        )
        | inr (x, q) ↦ ground (arith, parse_line-object X A c l st m (no_limit u st.total_ok) e p)
      ]
    ]
  ]

  pub finish_chunk-counts :
      (st : ParseState X A) {p : Parsed X A}
      → finish_chunk X A c st ≡ ok p
      → (p.rows_ok ≡ st.total_ok) × (p.rows_skipped ≡ st.total_skip)
  finish_chunk-counts st h = unfold finish_chunk in ground (arith, flush_batch-Advances X A c st)

  -- Without a limit, a chunk that is parsed counts its records that are objects as rows and the
  -- others as skipped, and has sent exactly those others to the quarantine, trimmed and in order,
  -- if there is one.
  pub parse_chunk-counts :
      c.limit ≡ none
      → (bytes : Bytes) {p : Parsed X A} → (parse_chunk X A c bytes).result ≡ ok p
      → (p.rows_ok ≡ length (accepted X (records bytes)))
        × (p.rows_skipped ≡ length (rejected X (records bytes)))
        × ((parse_chunk X A c bytes).sent ≡ quarantine (rejected X (records bytes)))
  unfolding parse_chunk records
  parse_chunk-counts u bytes {p} h =
      let (st, e, f) =
        >>=-eq-ok (parse_lines X A c (split_lines bytes) (parse_start X A c)).result
          (finish_chunk X A c) h in
      let a = parse_lines-Adds u (split_lines bytes) (parse_start X A c) st e in
      let (k, l) = finish_chunk-counts st f in
      (omega (arith, k, a.total_ok), omega (arith, l, a.total_skip), a.sent_lem)
