-- ===== src/Parser/Reported.antt =====
-- The errors of `parse_chunk` by kind: of the crates' own errors, those that carry a place in the
-- data, and besides them only foreign errors.
use parq.Prelude.{
  ℕ, refl, sym, subst, ◌≡◌, true, false, Bool, Option, none, some, List, [], ◌∷◌, map, Bytes, codes,
  leb, ltb, Bool-cases, inl, inr, if◌then◌else◌,
}
use parq.Prelude.Results.{Result, ok, err, ◌>>=◌, Result-cases}
use parq.Text.{split_lines}
use parq.Json.{Value, null, bool, number, Fields}
use parq.Crates.{Crates}
use parq.Error.{
  ParqError, json_parse, insufficient_data, type_mismatch, Failure, parq_error, arrow_error,
  message,
}
use parq.Schema.{Schema}
use parq.Flatten.{flatten_object}
use parq.Columns.{
  ColBuilder, null_builder, bool_builder, int64_builder, float64_builder, str_builder, append_bool,
  append, finish,
}
use parq.Parser.Kept.{Kept, KeptRound, parse_lines-Kept}
use parq.Parser.{
  Arrow, ParseConfig, ParseState, parse_start, flush_batch, flush_full, append_fields, parse_object,
  reject, finish_chunk, parse_chunk,
}

module _ (X : Crates) (Q : Failure X → Type 0) where
  -- A result that is no error but one of these.
  abbrev pub FailsBy : {B : Type 0} → Result (Failure X) B → Type 0
  FailsBy (ok b) = Unit
  FailsBy (err e) = Q e

  pub >>=-FailsBy :
      {B C : Type 0} (r : Result (Failure X) B) (f : B → Result (Failure X) C)
      → FailsBy r
      → ((b : B) → FailsBy (f b))
      → FailsBy (r >>= f)
  >>=-FailsBy (ok b) f h k = k b
  >>=-FailsBy (err e) f h k = h

-- The errors of a chunk: in strict mode a Boolean column's and those of serde_json, and in either
-- mode those of Arrow and the panic of an index.
pub record Includes (X : Crates) (lenient : Bool) (Q : Failure X → Type 0) : Type 0 where
  pub mismatch :
      lenient ≡ false
      → (found : Bytes) (line : ℕ)
      → Q (parq_error (type_mismatch (codes "bool_field") (codes "Boolean") found line))
  pub malformed :
      lenient ≡ false → (line : ℕ) (source : X.JsonError) → Q (parq_error (json_parse line source))
  pub refused : (e : X.ArrowError) → Q (arrow_error e)
  pub panicked : (text : Bytes) → Q (message text)

module _ (X : Crates) (lenient : Bool) (Q : Failure X → Type 0) (q : Includes X lenient Q) where
  append_bool-FailsBy :
      (mode : Bool)
      → mode ≡ lenient
      → (b : List (Option Bool)) (v : Option (Value X.Number)) (line : ℕ)
      → FailsBy X Q (append_bool X b v line mode)
  unfolding append_bool
  append_bool-FailsBy mode s b none line = tt
  append_bool-FailsBy mode s b (some (bool v)) line = tt
  append_bool-FailsBy mode s b (some null) line = tt
  append_bool-FailsBy true s b (some (number n)) line = tt
  append_bool-FailsBy true s b (some _) line = tt
  append_bool-FailsBy false s b (some _) line = q.mismatch (sym s) _ line

  append-FailsBy :
      (b : ColBuilder X) (v : Option (Value X.Number)) (line : ℕ)
      → FailsBy X Q (append X b v line lenient)
  unfolding append
  append-FailsBy (null_builder n) v line = tt
  append-FailsBy (bool_builder b) v line = append_bool-FailsBy lenient refl b v line
  append-FailsBy (int64_builder b) v line = tt
  append-FailsBy (float64_builder b) v line = tt
  append-FailsBy (str_builder b) v line = tt

  append_fields-FailsBy :
      (A : Arrow X) (fs : Schema) (bs : List (ColBuilder X)) (m : Fields X.Number) (line : ℕ)
      → FailsBy X Q (append_fields X A fs bs m line lenient)
  unfolding append_fields
  append_fields-FailsBy A [] bs m line = tt
  append_fields-FailsBy A (f ∷ fs) [] m line = q.panicked _
  append_fields-FailsBy A (f ∷ fs) (b ∷ bs) m line =
      >>=-FailsBy X Q _ _ (append-FailsBy b (X.get m f.name) line)
        (λ b'. >>=-FailsBy X Q _ _ (append_fields-FailsBy A fs bs m line) (λ bs'. tt))

module _ (X : Crates) (A : Arrow X) (c : ParseConfig X A) (Q : Failure X → Type 0)
    (q : Includes X c.ignore_errors Q) where
  abbrev Any : ParseState X A → Type 0
  Any st = Unit

  flush_batch-FailsBy : (st : ParseState X A) → FailsBy X Q (flush_batch X A c st)
  unfolding flush_batch
  flush_batch-FailsBy st = elim (Result-cases (A.try_new c.schema (map (finish X) st.builders))) [
    | inl (b, e) ↦ rw (e, FailsBy) tt
    | inr (x, e) ↦ rw (e, FailsBy) (q.refused x)
  ]

  flush_full-FailsBy : (st : ParseState X A) → FailsBy X Q (flush_full X A c st)
  unfolding flush_full
  flush_full-FailsBy st = elim (Bool-cases (leb c.batch_size st.batch_rows)) [
    | inl e ↦ rw (e, FailsBy) (flush_batch-FailsBy st)
    | inr e ↦ rw (e, FailsBy) tt
  ]

  parse_object-FailsBy :
      (m : Fields X.Number) (st : ParseState X A) → FailsBy X Q (parse_object X A c m st)
  unfolding parse_object
  parse_object-FailsBy m st =
      >>=-FailsBy X Q _ _
        (append_fields-FailsBy X c.ignore_errors Q q A c.schema st.builders
          (if c.flatten_json then flatten_object X m (codes "_") else m) st.line_no)
        (λ bs. flush_full-FailsBy _)

  FailsBy-Kept : (r : Result (Failure X) (ParseState X A)) → FailsBy X Q r → Kept X A Any Q r
  FailsBy-Kept (ok st) h = tt
  FailsBy-Kept (err e) h = h

  Kept-FailsBy : (r : Result (Failure X) (ParseState X A)) → Kept X A Any Q r → FailsBy X Q r
  Kept-FailsBy (ok st) h = tt
  Kept-FailsBy (err e) h = h

  reject-KeptRound :
      (line : Bytes) (x : X.JsonError) (st : ParseState X A)
      → KeptRound X A Any Q (reject X A c line x st)
  unfolding reject
  reject-KeptRound line x st = elim (Bool-cases c.ignore_errors) [
    | inl e ↦ rw (e, KeptRound) tt
    | inr e ↦ rw (e, KeptRound) (q.malformed e st.line_no x)
  ]

  finish_chunk-FailsBy : (st : ParseState X A) → FailsBy X Q (finish_chunk X A c st)
  unfolding finish_chunk
  finish_chunk-FailsBy st = elim (Bool-cases (ltb 0 st.batch_rows)) [
    | inl e ↦ rw e (>>=-FailsBy X Q _ _ (flush_batch-FailsBy st) (λ st'. tt))
    | inr e ↦ rw (e, FailsBy) tt
  ]

  pub parse_chunk-FailsBy : (bytes : Bytes) → FailsBy X Q (parse_chunk X A c bytes).result
  unfolding parse_chunk
  parse_chunk-FailsBy bytes =
      >>=-FailsBy X Q _ _
        (Kept-FailsBy _ (
          parse_lines-Kept X A Any Q c (λ st h. tt) (λ line x st h. reject-KeptRound line x st)
            (λ m st h. FailsBy-Kept _ (parse_object-FailsBy m st)) (split_lines bytes)
            (parse_start X A c) tt))
        finish_chunk-FailsBy

module _ (X : Crates) where
  -- The errors that have a form of their own in the telemetry.
  abbrev pub IsNamed : ParqError X → Type 0
  IsNamed (json_parse line source) = Unit
  IsNamed (insufficient_data rows) = Unit
  IsNamed (type_mismatch field expected found line) = Unit
  IsNamed _ = ⊥

  abbrev pub IsReported : Failure X → Type 0
  IsReported (parq_error e) = IsNamed e
  IsReported _ = Unit

  pub parse_chunk-IsReported :
      (A : Arrow X) (c : ParseConfig X A) (bytes : Bytes)
      → FailsBy X IsReported (parse_chunk X A c bytes).result
  parse_chunk-IsReported A c bytes =
      parse_chunk-FailsBy X A c IsReported
        (record {
          mismatch = λ h s n. tt;
          malformed = λ h n x. tt;
          refused = λ e. tt;
          panicked = λ s. tt;
        })
        bytes

  -- A type mismatch, if that is the error, is one of a field called bool_field.
  abbrev pub NamesBool : Bool → Failure X → Type 0
  NamesBool lenient (parq_error (type_mismatch field expected found line)) =
      (lenient ≡ false) × (field ≡ codes "bool_field") × (expected ≡ codes "Boolean")
  NamesBool lenient e = Unit

  -- If a chunk fails with a type mismatch, then it was parsed in strict mode, and the error names
  -- the type Boolean and the field bool_field, whatever the column at which it failed is called.
  pub mismatch_names_bool :
      (A : Arrow X) (c : ParseConfig X A) (bytes : Bytes) {field expected found : Bytes} {line : ℕ}
      → (parse_chunk X A c bytes).result
        ≡ err (parq_error (type_mismatch field expected found line))
      → (c.ignore_errors ≡ false) × (field ≡ codes "bool_field") × (expected ≡ codes "Boolean")
  mismatch_names_bool A c bytes h = subst (FailsBy X (NamesBool c.ignore_errors)) h (
      parse_chunk-FailsBy X A c (NamesBool c.ignore_errors)
        (record {
          mismatch = λ h s n. (h, refl, refl);
          malformed = λ h n x. tt;
          refused = λ e. tt;
          panicked = λ s. tt;
        })
        bytes)
