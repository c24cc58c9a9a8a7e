-- ===== src/Parser/Mismatch.antt =====
-- A schema with a type that no builder has, or with no field: `parse_chunk` cannot fill it.
use parq.Prelude.{
  ◌⊎◌, ap, length, ℕ, ◌+◌, ◌≡◌, ◌≢◌, refl, sym, subst, ◌∙◌, Bool-cases, inl, inr, List, [], ◌∷◌,
  map, arith, Bytes, All, leb, ltb,
}
use parq.Prelude.Results.{ok, >>=-eq-ok, Result-cases}
use parq.Text.{split_lines}
use parq.Json.{Fields}
use parq.Crates.{Crates}
use parq.Error.{Failure}
use parq.Schema.{Schema}
use parq.Columns.{ColBuilder, finish}
use parq.Columns.Cells.{kind_of}
use parq.Columns.Types.{kind_type, IsPlain}
use parq.Parser.{
  Arrow, ParseConfig, ParseState, parse_start, flush_batch, flush_full, append_fields, parse_object,
  reject, parse_lines, Parsed, finish_chunk, parse_chunk,
}
use parq.Parser.Table.{shape}
use parq.Parser.Kept.{Kept, KeptRound, parse_lines-Kept}
use parq.Parser.Lengths.{AreOf, append_fields-AreOf, new_builders-AreOf}
use parq.Parser.Cells.{IsFor, append_fields-IsFor, new_builders-IsFor}
use parq.Parser.Total.{RejectsMismatch, builders-types}

-- Arrow makes no batch of no column.
abbrev pub RejectsEmpty : (X : Crates) → Arrow X → Type 0
RejectsEmpty X A = (b : A.RecordBatch) → A.try_new [] [] ≢ ok b

length-nil {ℓ} : {B : Type ℓ} (xs : List B) → length xs ≡ 0 → xs ≡ []
length-nil [] h = refl
length-nil (x ∷ xs) h = absurd (ground arith)

module _ (X : Crates) (A : Arrow X) (c : ParseConfig X A) where
  plain-all :
      (fs : Schema)
      → map (λ f. kind_type (kind_of f.data_type)) fs ≡ map (λ f. f.data_type) fs
      → All (λ f. IsPlain f.data_type) fs
  plain-all [] e = tt
  plain-all (f ∷ fs) e = (cc, plain-all fs cc)

  -- A schema that no builders' columns fit: it has a type that no builder has, or no field.
  abbrev pub IsUnfit : Type 0
  IsUnfit = (¬ All (λ f. IsPlain f.data_type) c.schema) ⊎ (c.schema ≡ [])

  module _ (rejects : RejectsMismatch X A) (empty : RejectsEmpty X A) (unfit : IsUnfit) where
    -- A builder for each field, and no batch made: all accepted rows wait.
    pub record IsStuck (st : ParseState X A) : Type 0 where
      pub built : IsFor X c.schema st.builders
      pub waiting : AreOf X st.batch_rows c.schema st.builders
      pub total : st.total_ok ≡ st.batch_rows

    never :
        (bs : List (ColBuilder X)) (n : ℕ) (b : A.RecordBatch)
        → IsFor X c.schema bs
        → AreOf X n c.schema bs
        → A.try_new c.schema (map (finish X) bs) ≢ ok b
    never bs n b f w e = elim unfit [
      | inl mismatch ↦ mismatch (
          plain-all c.schema
            (sym (builders-types X A c.schema bs w.0 f) ∙ rejects c.schema (map (finish X) bs) b e))
      | inr no_field ↦
          let no_builder : bs ≡ [] = length-nil bs (w.0 ∙ ap length no_field) in
          let no_array : map (finish X) bs ≡ [] = ap (map (finish X)) no_builder in
          empty b (
            subst (λ s. A.try_new s [] ≡ ok b) no_field
              (subst (λ arrays. A.try_new c.schema arrays ≡ ok b) no_array e))
    ]

    flush_batch-never :
        (st : ParseState X A) (st' : ParseState X A) (n : ℕ)
        → IsFor X c.schema st.builders
        → AreOf X n c.schema st.builders
        → flush_batch X A c st ≢ ok st'
    unfolding flush_batch
    flush_batch-never st st' n f w e =
        elim (Result-cases (A.try_new c.schema (map (finish X) st.builders))) [
          | inl (b, q) ↦ never st.builders n b f w q
          | inr (x, q) ↦ absurd (ground arith)
        ]

    abbrev AnyError : Failure X → Type 0
    AnyError e = Unit

    row-IsStuck :
        (m : Fields X.Number) (st : ParseState X A) {st' : ParseState X A}
        → parse_object X A c m st ≡ ok st'
        → IsStuck st
        → IsStuck st'
    unfolding parse_object flush_full
    row-IsStuck m st {st'} e h =
        let (bs, f, g) =
          >>=-eq-ok
            (append_fields X A c.schema st.builders (shape X A c m) st.line_no c.ignore_errors) _
            e in
        let built =
          append_fields-IsFor X A c.schema st.builders (shape X A c m) st.line_no c.ignore_errors bs
            f h.built in
        let waiting =
          append_fields-AreOf X A st.batch_rows c.schema st.builders (shape X A c m) st.line_no
            c.ignore_errors f h.waiting in
        let next : ParseState X A = record st {
          builders = bs;
          batch_rows = st.batch_rows + 1;
          total_ok = st.total_ok + 1;
        } in
        elim (Bool-cases (leb c.batch_size (st.batch_rows + 1))) [
          | inl q ↦
              absurd (
                flush_batch-never next st' (st.batch_rows + 1) built waiting (ground (arith, q, g)))
          | inr q ↦
              let same : next ≡ st' = ground (arith, q, g) in
              subst IsStuck same
                (record { built = built; waiting = waiting; total = omega (arith, h.total) })
        ]

    parse_object-IsStuck :
        (m : Fields X.Number) (st : ParseState X A)
        → IsStuck st
        → Kept X A IsStuck AnyError (parse_object X A c m st)
    parse_object-IsStuck m st h = elim (Result-cases (parse_object X A c m st)) [
      | inr (x, e) ↦ rw (e, Kept) tt
      | inl (st', e) ↦ rw (e, Kept) (row-IsStuck m st e h)
    ]

    reject-IsStuck :
        (trimmed : Bytes) (x : X.JsonError) (st : ParseState X A)
        → IsStuck st
        → KeptRound X A IsStuck AnyError (reject X A c trimmed x st)
    unfolding reject
    reject-IsStuck trimmed x st h = elim (Bool-cases c.ignore_errors) [
      | inl e ↦ rw (e, KeptRound) (record { built = h.built; waiting = h.waiting; total = h.total })
      | inr e ↦ rw (e, KeptRound) tt
    ]

    finish_chunk-IsStuck :
        (st : ParseState X A) {p : Parsed X A}
        → finish_chunk X A c st ≡ ok p
        → IsStuck st
        → p.rows_ok ≡ 0
    unfolding finish_chunk
    finish_chunk-IsStuck st {p} h s = elim (Bool-cases (ltb 0 st.batch_rows)) [
      | inl e ↦ elim (Result-cases (flush_batch X A c st)) [
        | inl (st', q) ↦ absurd (flush_batch-never st st' st.batch_rows s.built s.waiting q)
        | inr (x, q) ↦ absurd (ground arith)
      ]
      | inr e ↦ ground (arith, s.total)
    ]

  -- With a schema that has a type other than Null, Boolean, Int64, Float64 and Utf8, such as Int32
  -- from a schema file, or that has no field, a chunk is parsed only if it has no row, if Arrow
  -- rejects columns of other types than the fields' and a batch of no column.
  pub parse_chunk-mismatch :
      RejectsMismatch X A
      → RejectsEmpty X A
      → IsUnfit
      → (bytes : Bytes) {p : Parsed X A} → (parse_chunk X A c bytes).result ≡ ok p
      → p.rows_ok ≡ 0
  unfolding parse_chunk
  parse_chunk-mismatch rejects empty unfit bytes h =
      let (st, e, f) =
        >>=-eq-ok (parse_lines X A c (split_lines bytes) (parse_start X A c)).result
          (finish_chunk X A c) h in
      let start : IsStuck rejects empty unfit (parse_start X A c) = record {
        built = new_builders-IsFor X A c.schema;
        waiting = new_builders-AreOf X A c.schema;
        total = refl;
      } in
      finish_chunk-IsStuck rejects empty unfit st f (
        subst (Kept X A (IsStuck rejects empty unfit) (AnyError rejects empty unfit)) e (
          parse_lines-Kept X A (IsStuck rejects empty unfit) (AnyError rejects empty unfit) c
            (λ st h. record { built = h.built; waiting = h.waiting; total = h.total })
            (reject-IsStuck rejects empty unfit) (parse_object-IsStuck rejects empty unfit)
            (split_lines bytes) (parse_start X A c) start))
