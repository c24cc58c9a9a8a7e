-- ===== src/Parser/Modes.antt =====
-- Strict and lenient mode: what makes `parse_chunk` fail.
use parq.Prelude.{
  ℕ, ◌≡◌, ◌≢◌, refl, true, false, Option, none, List, [], ◌∷◌, arith, Bytes, length, Bool-cases,
  Option-cases, inl, inr,
}
use parq.Prelude.Results.{ok, err, >>=-eq-ok, Result-cases}
use parq.Text.{is_empty, trim, keep_records, split_lines, records}
use parq.Json.{Value, Fields}
use parq.Crates.{Crates}
use parq.Error.{Failure}
use parq.Schema.{Schema}
use parq.Columns.{ColBuilder, append}
use parq.Parser.Counts.{no_limit}
use parq.Parser.Outcome.{
  object_in, rejected, counted, parse_line-blank, parse_line-object, parse_line-reject,
}
use parq.Parser.{
  Arrow, ParseConfig, ParseState, parse_start, append_fields, parse_object, parse_lines, reject,
  Parsed, finish_chunk, parse_chunk,
}

-- In lenient mode a value never makes `append` fail.
append-lenient :
    (X : Crates) (b : ColBuilder X) (v : Option (Value X.Number)) (line : ℕ) (e : Failure X)
    → append X b v line true ≢ err e
unfolding append
append-lenient X b v line e h = ground arith

module _ (X : Crates) (A : Arrow X) where
  pub append_fields-lenient :
      (fs : Schema) (bs : List (ColBuilder X)) (obj : Fields X.Number) (line : ℕ) (e : Failure X)
      → length bs ≡ length fs
      → append_fields X A fs bs obj line true ≢ err e
  unfolding append_fields
  append_fields-lenient [] bs obj line e p h = cc
  append_fields-lenient (f ∷ fs) [] obj line e p h = absurd (omega arith)
  append_fields-lenient (f ∷ fs) (b ∷ bs) obj line e p h =
      ground (
        arith,
        append-lenient X b (X.get obj f.name) line e,
        append_fields-lenient fs bs obj line e,
      )

module _ (X : Crates) (A : Arrow X) (c : ParseConfig X A) where
  parse_lines-strict :
      c.limit ≡ none
      → c.ignore_errors ≡ false
      → (ls : List Bytes) (st st' : ParseState X A) → (parse_lines X A c ls st).result ≡ ok st'
      → rejected X (keep_records ls) ≡ []
  unfolding parse_lines keep_records rejected reject
  parse_lines-strict u s [] st st' h = refl
  parse_lines-strict u s (l ∷ ls) st st' h = elim (Bool-cases (is_empty (trim l))) [
    | inl e ↦ ground (
      arith,
      parse_line-blank X A c l st (no_limit X A c u st.total_ok) e,
      parse_lines-strict u s ls (counted X A c st) st',
    )
    | inr e ↦ elim (Option-cases (object_in X (X.from_slice (trim l)))) [
      | inl p ↦
          let (x, q) = parse_line-reject X A c l st (no_limit X A c u st.total_ok) e p in
          ground (arith, q)
      | inr (m, p) ↦ elim (Result-cases (parse_object X A c m (counted X A c st))) [
        | inl (st1, q) ↦ ground (
          arith,
          parse_line-object X A c l st m (no_limit X A c u st.total_ok) e p,
          parse_lines-strict u s ls st1 st',
        )
        | inr (x, q) ↦
            ground (arith, parse_line-object X A c l st m (no_limit X A c u st.total_ok) e p)
      ]
    ]
  ]

  -- In strict mode and without a limit, a chunk is parsed only if each of its records is an object.
  pub parse_chunk-strict :
      c.limit ≡ none
      → c.ignore_errors ≡ false
      → (bytes : Bytes) {p : Parsed X A} → (parse_chunk X A c bytes).result ≡ ok p
      → rejected X (records bytes) ≡ []
  unfolding parse_chunk records
  parse_chunk-strict u s bytes h =
      let (st, e, f) =
        >>=-eq-ok (parse_lines X A c (split_lines bytes) (parse_start X A c)).result
          (finish_chunk X A c) h in
      parse_lines-strict u s (split_lines bytes) (parse_start X A c) st e
