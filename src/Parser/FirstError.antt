-- ===== src/Parser/FirstError.antt =====
-- The place that a strict `parse_chunk` reports for malformed JSON.
use parq.Prelude.{
  ℕ, ◌+◌, ◌≡◌, refl, ap, ◌∙◌, subst, Bool, true, false, Bool-cases, Option-cases, inl, inr, Option,
  none, some, List, [], ◌∷◌, ◌++◌, map, arith, Bytes, leb, ltb, length,
}
use parq.Prelude.Results.{Result, ok, err, ◌>>=◌, Result-cases}
use parq.Text.{is_empty, trim, keep_records, split_lines}
use parq.Json.{Value, null, bool, number, Fields}
use parq.Crates.{Crates}
use parq.Error.{json_parse, Failure, parq_error}
use parq.Schema.{Schema}
use parq.Columns.{
  ColBuilder, null_builder, bool_builder, int64_builder, float64_builder, str_builder, append_bool,
  append, finish,
}
use parq.Parser.Outcome.{
  object_in, rejected, counted, parse_line-stop, parse_line-blank, parse_line-object,
  parse_line-reject, parse_object-Advances,
}
use parq.Parser.Table.{shape}
use parq.Parser.{
  Arrow, ParseConfig, ParseState, parse_start, flush_batch, flush_full, append_fields, parse_object,
  parse_lines, reject, limit_reached, finish_chunk, parse_chunk,
}

module _ (X : Crates) where
  abbrev IsOther : Failure X → Type 0
  IsOther (parq_error (json_parse line source)) = ⊥
  IsOther _ = Unit

  -- A result that is no error of malformed JSON.
  abbrev FailsElse : {B : Type 0} → Result (Failure X) B → Type 0
  FailsElse (ok b) = Unit
  FailsElse (err e) = IsOther e

  >>=-FailsElse :
      {B C : Type 0} (r : Result (Failure X) B) (f : B → Result (Failure X) C)
      → FailsElse r
      → ((b : B) → FailsElse (f b))
      → FailsElse (r >>= f)
  >>=-FailsElse (ok b) f h k = k b
  >>=-FailsElse (err e) f h k = h

  append_bool-FailsElse :
      (b : List (Option Bool)) (v : Option (Value X.Number)) (line : ℕ) (lenient : Bool)
      → FailsElse (append_bool X b v line lenient)
  unfolding append_bool
  append_bool-FailsElse b none line lenient = tt
  append_bool-FailsElse b (some (bool v)) line lenient = tt
  append_bool-FailsElse b (some null) line lenient = tt
  append_bool-FailsElse b (some (number n)) line true = tt
  append_bool-FailsElse b (some _) line true = tt
  append_bool-FailsElse b (some _) line false = tt

  append-FailsElse :
      (b : ColBuilder X) (v : Option (Value X.Number)) (line : ℕ) (lenient : Bool)
      → FailsElse (append X b v line lenient)
  unfolding append
  append-FailsElse (null_builder n) v line lenient = tt
  append-FailsElse (bool_builder b) v line lenient = append_bool-FailsElse b v line lenient
  append-FailsElse (int64_builder b) v line lenient = tt
  append-FailsElse (float64_builder b) v line lenient = tt
  append-FailsElse (str_builder b) v line lenient = tt

  -- The first line that is a record but no object, behind lines that are objects or blank; lines are
  -- counted from `first + 1` on.
  pub record IsFirstReject (ls : List Bytes) (first n : ℕ) : Type 0 where
    pub before : List Bytes
    pub line : Bytes
    pub after : List Bytes
    pub parts : ls ≡ before ++ line ∷ after
    pub place : n ≡ first + length before + 1
    pub all_objects : rejected X (keep_records before) ≡ []
    pub no_object : rejected X (keep_records (line ∷ [])) ≡ trim line ∷ []

  behind :
      (l : Bytes) {ls : List Bytes} {first n : ℕ}
      → ((b : List Bytes)
          → rejected X (keep_records b) ≡ []
          → rejected X (keep_records (l ∷ b)) ≡ [])
      → IsFirstReject ls (first + 1) n
      → IsFirstReject (l ∷ ls) first n
  behind l f h = record {
    before = l ∷ h.before;
    line = h.line;
    after = h.after;
    parts = ap (λ t. l ∷ t) h.parts;
    place = omega (arith, h.place);
    all_objects = f h.before h.all_objects;
    no_object = h.no_object;
  }

  keep_blank :
      (l : Bytes) (b : List Bytes)
      → is_empty (trim l) ≡ true
      → rejected X (keep_records b) ≡ []
      → rejected X (keep_records (l ∷ b)) ≡ []
  unfolding keep_records
  keep_blank l b e k = rw e k

  keep_object :
      (l : Bytes) (b : List Bytes) {m : Fields X.Number}
      → is_empty (trim l) ≡ false
      → object_in X (X.from_slice (trim l)) ≡ some m
      → rejected X (keep_records b) ≡ []
      → rejected X (keep_records (l ∷ b)) ≡ []
  unfolding keep_records rejected
  keep_object l b e p k = ground arith

  keep_reject :
      (l : Bytes)
      → is_empty (trim l) ≡ false
      → object_in X (X.from_slice (trim l)) ≡ none
      → rejected X (keep_records (l ∷ [])) ≡ trim l ∷ []
  unfolding keep_records rejected
  keep_reject l e p = ground arith

module _ (X : Crates) (A : Arrow X) where
  append_fields-FailsElse :
      (fs : Schema) (bs : List (ColBuilder X)) (m : Fields X.Number) (line : ℕ) (lenient : Bool)
      → FailsElse X (append_fields X A fs bs m line lenient)
  unfolding append_fields
  append_fields-FailsElse [] bs m line lenient = tt
  append_fields-FailsElse (f ∷ fs) [] m line lenient = tt
  append_fields-FailsElse (f ∷ fs) (b ∷ bs) m line lenient =
      >>=-FailsElse X _ _ (append-FailsElse X b (X.get m f.name) line lenient)
        (λ b'. >>=-FailsElse X _ _ (append_fields-FailsElse fs bs m line lenient) (λ bs'. tt))

  module _ (c : ParseConfig X A) where
    flush_batch-FailsElse : (st : ParseState X A) → FailsElse X (flush_batch X A c st)
    unfolding flush_batch
    flush_batch-FailsElse st =
        elim (Result-cases (A.try_new c.schema (map (finish X) st.builders))) [
          | inl (b, e) ↦ rw (e, FailsElse) tt
          | inr (x, e) ↦ rw (e, FailsElse) tt
        ]

    flush_full-FailsElse : (st : ParseState X A) → FailsElse X (flush_full X A c st)
    unfolding flush_full
    flush_full-FailsElse st = elim (Bool-cases (leb c.batch_size st.batch_rows)) [
      | inl e ↦ rw (e, FailsElse) (flush_batch-FailsElse st)
      | inr e ↦ rw (e, FailsElse) tt
    ]

    parse_object-FailsElse :
        (m : Fields X.Number) (st : ParseState X A) → FailsElse X (parse_object X A c m st)
    unfolding parse_object
    parse_object-FailsElse m st =
        >>=-FailsElse X _ _
          (append_fields-FailsElse c.schema st.builders (shape X A c m) st.line_no c.ignore_errors)
          (λ bs. flush_full-FailsElse _)

    finish_chunk-FailsElse : (st : ParseState X A) → FailsElse X (finish_chunk X A c st)
    unfolding finish_chunk
    finish_chunk-FailsElse st = elim (Bool-cases (ltb 0 st.batch_rows)) [
      | inl e ↦ rw e (>>=-FailsElse X _ _ (flush_batch-FailsElse st) (λ st'. tt))
      | inr e ↦ rw (e, FailsElse) tt
    ]

    no_json :
        {B : Type 0} (r : Result (Failure X) B) {n : ℕ} {x : X.JsonError}
        → FailsElse X r
        → ¬ (r ≡ err (parq_error (json_parse n x)))
    no_json r h e = subst (FailsElse X) e h

    lines-IsFirstReject :
        c.ignore_errors ≡ false
        → (ls : List Bytes) (st : ParseState X A) {n : ℕ} {x : X.JsonError}
        → (parse_lines X A c ls st).result ≡ err (parq_error (json_parse n x))
        → IsFirstReject X ls st.line_no n
    unfolding parse_lines reject
    lines-IsFirstReject s [] st h = absurd cc
    lines-IsFirstReject s (l ∷ ls) st {n} {x} h =
        elim (Bool-cases (limit_reached c.limit st.total_ok)) [
          | inl d ↦ absurd (ground (arith, parse_line-stop X A c l st d))
          | inr d ↦ elim (Bool-cases (is_empty (trim l))) [
            | inl e ↦
                behind X l (λ b k. keep_blank X l b e k)
                  (lines-IsFirstReject s ls (counted X A c st) {x = x}
                    (ground (arith, parse_line-blank X A c l st d e)))
            | inr e ↦ elim (Option-cases (object_in X (X.from_slice (trim l)))) [
              | inl p ↦
                  let (y, q) = parse_line-reject X A c l st d e p in
                  record {
                    before = [];
                    line = l;
                    after = ls;
                    parts = refl;
                    place = ground (arith, q, s);
                    all_objects = unfold keep_records rejected in refl;
                    no_object = keep_reject X l e p;
                  }
              | inr (m, p) ↦ elim (Result-cases (parse_object X A c m (counted X A c st))) [
                | inl (st1, q) ↦
                    let later : (parse_lines X A c ls st1).result
                        ≡ err (parq_error (json_parse n x)) =
                      ground (arith, parse_line-object X A c l st m d e p, q) in
                    behind X l (λ b k. keep_object X l b e p k)
                      (subst (λ k. IsFirstReject X ls k n)
                        (parse_object-Advances X A c m (counted X A c st) q).line_no
                        (lines-IsFirstReject s ls st1 later))
                | inr (y, q) ↦ absurd (
                    no_json (parse_object X A c m (counted X A c st)) {n = n} {x = x}
                      (parse_object-FailsElse m (counted X A c st))
                      (ground (arith, parse_line-object X A c l st m d e p, q)))
              ]
            ]
          ]
        ]

    -- If a strict chunk fails with malformed JSON on a line, then that line of the chunk is a record
    -- that is no object, and all lines before it are objects or blank; the lines of the chunk are
    -- counted from 1, the blank ones included.
    pub parse_chunk-IsFirstReject :
        c.ignore_errors ≡ false
        → (bytes : Bytes) {n : ℕ} {x : X.JsonError}
        → (parse_chunk X A c bytes).result ≡ err (parq_error (json_parse n x))
        → IsFirstReject X (split_lines bytes) 0 n
    unfolding parse_chunk
    parse_chunk-IsFirstReject s bytes {n} {x} h =
        elim (Result-cases (parse_lines X A c (split_lines bytes) (parse_start X A c)).result) [
          | inl (st, e) ↦ absurd (
              no_json (finish_chunk X A c st) {n = n} {x = x} (finish_chunk-FailsElse st)
                (rw e at h))
          | inr (y, e) ↦
              let same : y ≡ parq_error (json_parse n x) = ground arith in
              lines-IsFirstReject s (split_lines bytes) (parse_start X A c) (e ∙ ap err same)
        ]
