-- ===== src/Parser/Simd/Agreement.antt =====
-- The two builds of the parser on records that serde_json and simd_json read alike.
use parq.Prelude.{
  ◌+◌, ◌≡◌, refl, ap, ◌∙◌, false, Bool-cases, Option-cases, inl, inr, List, [], ◌∷◌, Bytes, All,
}
use parq.Prelude.Results.{Result, ok, err, ◌>>=◌}
use parq.Text.{is_empty, split_lines, trim, keep_records, records}
use parq.Json.{Value}
use parq.Crates.{Crates}
use parq.Error.{json_parse, Failure, parq_error}
use parq.Parser.{
  Arrow, ParseConfig, ParseState, parse_start, Round, broke, went, failed, limit_reached, reject,
  parse_value, parse_line, parse_lines, Run, after_round, finish_chunk, parse_chunk,
}
use parq.Parser.Simd.{
  StaticNode, null_node, bool_node, i64_node, u64_node, f64_node, BorrowedValue, static_value,
  string_value, array_value, object_value, SimdJson, static_to_serde, simd_to_serde,
  parse_value_simd, parse_line_simd, parse_lines_simd, parse_chunk_simd,
}
use parq.Parser.Simd.Meaning.{IsSame, simd_to_serde_lem}

module _ (X : Crates) (J : SimdJson X) where
  -- serde_json and simd_json read the same JSON, or both find an error.
  pub data ReadAlike
      : Result X.JsonError (Value X.Number)
        → Result J.SimdError (BorrowedValue X.F64)
        → Type 0 where
    both_values :
        {v : Value X.Number} {w : BorrowedValue X.F64} → IsSame X J w v → ReadAlike (ok v) (ok w)
    both_errors : {x : X.JsonError} {y : J.SimdError} → ReadAlike (err x) (err y)

  abbrev pub IsReadAlike : Bytes → Type 0
  IsReadAlike s = ReadAlike (X.from_slice s) (J.to_borrowed_value s)

  split_agree :
      (l : Bytes) (ls : List Bytes)
      → All IsReadAlike (keep_records (l ∷ ls))
      → (is_empty (trim l) ≡ false → IsReadAlike (trim l)) × All IsReadAlike (keep_records ls)
  unfolding keep_records
  split_agree l ls h = elim (Bool-cases (is_empty (trim l))) [
    | inl e ↦ (λ f. absurd cc, rw e at h)
    | inr e ↦ let k = rw e at h in (λ f. k.0, k.1)
  ]

  -- An error without its source, which the two builds take from different parsers.
  abbrev pub erase : Failure X → Failure X
  erase (parq_error (json_parse line source)) = parq_error (json_parse line X.bang_error)
  erase e = e

  abbrev pub erase_result : {B : Type 0} → Result (Failure X) B → Result (Failure X) B
  erase_result (ok b) = ok b
  erase_result (err e) = err (erase e)

  erase->>= :
      {B C : Type 0} (r r' : Result (Failure X) B) (f : B → Result (Failure X) C)
      → erase_result r ≡ erase_result r'
      → erase_result (r >>= f) ≡ erase_result (r' >>= f)
  erase->>= (ok b) (ok b') f h = let same : b ≡ b' = cc in rw same refl
  erase->>= (ok b) (err e) f h = absurd cc
  erase->>= (err e) (ok b) f h = absurd cc
  erase->>= (err e) (err e') f h = let same : erase e ≡ erase e' = cc in rw same refl

  module _ (A : Arrow X) where
    abbrev erase_round : Round X A → Round X A
    erase_round (failed e) = failed (erase e)
    erase_round r = r

    -- The same lines sent, and the same result but for the source of an error.
    abbrev pub IsSameRun : {B : Type 0} → Run X A B → Run X A B → Type 0
    IsSameRun u v = (u.sent ≡ v.sent) × (erase_result u.result ≡ erase_result v.result)

    after_round-IsSameRun :
        (r r' : Round X A) (rest rest' : ParseState X A → Run X A (ParseState X A))
        → erase_round r ≡ erase_round r'
        → ((st : ParseState X A) → IsSameRun (rest st) (rest' st))
        → IsSameRun (after_round X A r rest) (after_round X A r' rest')
    after_round-IsSameRun (broke st) (broke st') rest rest' h k =
        let same : st ≡ st' = cc in (refl, rw same refl)
    after_round-IsSameRun (failed e) (failed e') rest rest' h k =
        let same : erase e ≡ erase e' = cc in (refl, rw same refl)
    after_round-IsSameRun (went st more) (went st' more') rest rest' h k =
        let same : st ≡ st' = cc in
        let lines : more ≡ more' = cc in let (s, q) = k st' in (rw (same, lines, s) refl, rw same q)
    after_round-IsSameRun (broke st) (went st' more) rest rest' h k = absurd cc
    after_round-IsSameRun (broke st) (failed e) rest rest' h k = absurd cc
    after_round-IsSameRun (went st more) (broke st') rest rest' h k = absurd cc
    after_round-IsSameRun (went st more) (failed e) rest rest' h k = absurd cc
    after_round-IsSameRun (failed e) (broke st) rest rest' h k = absurd cc
    after_round-IsSameRun (failed e) (went st more) rest rest' h k = absurd cc

    module _ (c : ParseConfig X A) where
      static_agree :
          (trimmed : Bytes) (n : StaticNode X.F64) (st : ParseState X A)
          → reject X A c trimmed X.bang_error st
            ≡ parse_value X A c trimmed (static_to_serde X J n) st
      unfolding parse_value static_to_serde
      static_agree trimmed null_node st = refl
      static_agree trimmed (bool_node b) st = refl
      static_agree trimmed (i64_node n) st = refl
      static_agree trimmed (u64_node n) st = refl
      static_agree trimmed (f64_node f) st = elim (Option-cases (J.from_f64 f)) [
        | inl e ↦ rw (e, static_to_serde) refl
        | inr (n, e) ↦ rw (e, static_to_serde) refl
      ]

      value_agree :
          (trimmed : Bytes) (w : BorrowedValue X.F64) (st : ParseState X A)
          → parse_value_simd X J A c trimmed w st
            ≡ parse_value X A c trimmed (simd_to_serde X J w) st
      unfolding parse_value parse_value_simd simd_to_serde
      value_agree trimmed (static_value n) st = static_agree trimmed n st
      value_agree trimmed (string_value s) st = refl
      value_agree trimmed (array_value vs) st = refl
      value_agree trimmed (object_value fs) st = refl

      reject_agree :
          (trimmed : Bytes) (x y : X.JsonError) (st : ParseState X A)
          → erase_round (reject X A c trimmed x st) ≡ erase_round (reject X A c trimmed y st)
      unfolding reject
      reject_agree trimmed x y st = elim (Bool-cases c.ignore_errors) [
        | inl e ↦ rw (e, erase_round) refl
        | inr e ↦ rw (e, erase_round) refl
      ]

      -- What follows the two parsers in a round.
      abbrev serde_round : Bytes → ParseState X A → Result X.JsonError (Value X.Number) → Round X A
      serde_round trimmed st r = elim r [
        | ok value ↦ parse_value X A c trimmed value st
        | err e ↦ reject X A c trimmed e st
      ]

      abbrev simd_round :
          Bytes → ParseState X A → Result J.SimdError (BorrowedValue X.F64) → Round X A
      simd_round trimmed st q = elim q [
        | ok value ↦ parse_value_simd X J A c trimmed value st
        | err e ↦ reject X A c trimmed (J.parse_error_text e) st
      ]

      round_agree :
          (trimmed : Bytes) (st : ParseState X A) (r : Result X.JsonError (Value X.Number))
          (q : Result J.SimdError (BorrowedValue X.F64))
          → ReadAlike r q
          → erase_round (simd_round trimmed st q) ≡ erase_round (serde_round trimmed st r)
      round_agree trimmed st (ok v) (ok w) (both_values h) = ap erase_round (
          value_agree trimmed w st
          ∙ ap (λ x. parse_value X A c trimmed x st) (simd_to_serde_lem X J w h))
      round_agree trimmed st (err x) (err y) both_errors =
          reject_agree trimmed (J.parse_error_text y) x st
      round_agree trimmed st (err x) (ok w) h = elim h [ ]
      round_agree trimmed st (ok v) (err y) h = elim h [ ]

      line_agree :
          (l : Bytes) (st : ParseState X A)
          → (is_empty (trim l) ≡ false → IsReadAlike (trim l))
          → erase_round (parse_line_simd X J A c l st) ≡ erase_round (parse_line X A c l st)
      unfolding parse_line parse_line_simd
      line_agree l st h = elim (Bool-cases (limit_reached c.limit st.total_ok)) [
        | inl d ↦ rw (d, erase_round) refl
        | inr d ↦ rw d (elim (Bool-cases (is_empty (trim l))) [
          | inl e ↦ rw (e, erase_round) refl
          | inr e ↦ rw e (round_agree (trim l) (record st { line_no = st.line_no + 1 }) _ _ (h e))
        ])
      ]

      lines_agree :
          (ls : List Bytes) (st : ParseState X A)
          → All IsReadAlike (keep_records ls)
          → IsSameRun (parse_lines_simd X J A c ls st) (parse_lines X A c ls st)
      unfolding parse_lines parse_lines_simd
      lines_agree [] st h = (refl, refl)
      lines_agree (l ∷ ls) st h =
          let (first, rest) = split_agree l ls h in
          after_round-IsSameRun _ _ _ _ (line_agree l st first) (λ st'. lines_agree ls st' rest)

      -- The two builds of `parse_chunk` give the same batches and counts, or fail with errors that
      -- differ at most in the source of a JSON error, and send the same lines to quarantine, for a
      -- chunk on each of whose records serde_json and simd_json read the same JSON or both fail.
      pub parse_chunk_simd-IsSameRun :
          (bytes : Bytes)
          → All IsReadAlike (records bytes)
          → IsSameRun (parse_chunk_simd X J A c bytes) (parse_chunk X A c bytes)
      unfolding parse_chunk parse_chunk_simd records
      parse_chunk_simd-IsSameRun bytes h =
          let (sent, same) = lines_agree (split_lines bytes) (parse_start X A c) h in
          (sent, erase->>= _ _ (finish_chunk X A c) same)
