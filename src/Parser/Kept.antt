-- ===== src/Parser/Kept.antt =====
-- What every round of `parse_chunk` keeps, its loop keeps: an invariant of the local variables, and a
-- property of the errors.
use parq.Prelude.{◌+◌, Bool-cases, inl, inr, List, [], ◌∷◌, Bytes}
use parq.Prelude.Results.{Result, ok, err, Result-cases}
use parq.Text.{is_empty, trim}
use parq.Json.{Value, null, object, Fields}
use parq.Crates.{Crates}
use parq.Error.{Failure}
use parq.Parser.{
  Arrow, ParseConfig, ParseState, Round, broke, went, failed, round_of, Run, after_round,
  parse_object, reject, parse_value, parse_line, parse_lines, limit_reached,
}

module _ (X : Crates) (A : Arrow X) (P : ParseState X A → Type 0) (Q : Failure X → Type 0) where
  abbrev pub Kept : Result (Failure X) (ParseState X A) → Type 0
  Kept (ok st) = P st
  Kept (err e) = Q e

  abbrev pub KeptRound : Round X A → Type 0
  KeptRound (broke st) = P st
  KeptRound (went st more) = P st
  KeptRound (failed e) = Q e

  round_of-Kept : (r : Result (Failure X) (ParseState X A)) → Kept r → KeptRound (round_of X A r)
  round_of-Kept (ok st) h = h
  round_of-Kept (err e) h = h

  after_round-Kept :
      (r : Round X A) (rest : ParseState X A → Run X A (ParseState X A))
      → KeptRound r
      → ((st : ParseState X A) → P st → Kept (rest st).result)
      → Kept (after_round X A r rest).result
  after_round-Kept (broke st) rest h k = h
  after_round-Kept (went st more) rest h k = k st h
  after_round-Kept (failed e) rest h k = h

  module _ (c : ParseConfig X A)
      (line : (st : ParseState X A) → P st → P (record st { line_no = st.line_no + 1 }))
      (skip : (trimmed : Bytes) (x : X.JsonError) (st : ParseState X A)
        → P st
        → KeptRound (reject X A c trimmed x st))
      (row : (m : Fields X.Number) (st : ParseState X A)
        → P st
        → Kept (parse_object X A c m st)) where
    parse_value-Kept :
        (trimmed : Bytes) (v : Value X.Number) (st : ParseState X A)
        → P st
        → KeptRound (parse_value X A c trimmed v st)
    unfolding parse_value
    parse_value-Kept trimmed (object m) st h = round_of-Kept (parse_object X A c m st) (row m st h)
    parse_value-Kept trimmed null st h = skip trimmed X.bang_error st h
    parse_value-Kept trimmed _ st h = skip trimmed X.bang_error st h

    parse_line-Kept : (l : Bytes) (st : ParseState X A) → P st → KeptRound (parse_line X A c l st)
    unfolding parse_line
    parse_line-Kept l st h = elim (Bool-cases (limit_reached c.limit st.total_ok)) [
      | inl e ↦ rw (e, KeptRound) (line st h)
      | inr e ↦ rw e (elim (Bool-cases (is_empty (trim l))) [
        | inl f ↦ rw (f, KeptRound) (line st h)
        | inr f ↦ rw f (elim (Result-cases (X.from_slice (trim l))) [
          | inl (v, g) ↦ rw g (parse_value-Kept (trim l) v _ (line st h))
          | inr (x, g) ↦ rw g (skip (trim l) x _ (line st h))
        ])
      ])
    ]

    pub parse_lines-Kept :
        (ls : List Bytes) (st : ParseState X A) → P st → Kept (parse_lines X A c ls st).result
    unfolding parse_lines
    parse_lines-Kept [] st h = h
    parse_lines-Kept (l ∷ ls) st h =
        after_round-Kept (parse_line X A c l st) (λ st'. parse_lines X A c ls st')
          (parse_line-Kept l st h) (λ st' k. parse_lines-Kept ls st' k)
