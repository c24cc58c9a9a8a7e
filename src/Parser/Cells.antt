-- ===== src/Parser/Cells.antt =====
-- The cells that one step of `parse_chunk` adds to the columns of its batches and builders.
use parq.Prelude.{
  ℕ, zero, suc, ◌≡◌, refl, sym, ap, subst, ◌∙◌, Bool, List, [], ◌∷◌, ◌++◌, map, append_assoc,
  append-nil, arith, concat, inl, inr,
}
use parq.Prelude.Results.{ok, >>=-eq-ok, Result-cases}
use parq.Json.{Fields}
use parq.Crates.{Crates}
use parq.Schema.{Field, Schema}
use parq.Columns.{ColBuilder, append, Array, finish}
use parq.Columns.Cells.{
  kind_of, Cell, cell, cells, kind, kind-new_builder, cells-new_builder, Grows, append-Grows,
}
use parq.Parser.{Arrow, ParseConfig, ParseState, new_builders, flush_batch, append_fields}

module _ (X : Crates) where
  -- The cells of a column of a batch, by its place.
  abbrev pub column : ℕ → List (Array X) → List (Cell X)
  column i [] = []
  column zero (a ∷ arrays) = cells X a
  column (suc i) (a ∷ arrays) = column i arrays

  -- The cell that an object has in a column: its value at the field's name, if any, in the form of
  -- the field's sort. There is none in a column that the schema does not have.
  abbrev pub row_cell : ℕ → Schema → Fields X.Number → List (Cell X)
  row_cell i [] m = []
  row_cell zero (f ∷ fs) m = cell X (kind_of f.data_type) (X.get m f.name) ∷ []
  row_cell (suc i) (f ∷ fs) m = row_cell i fs m

  -- Each builder is of its field's sort.
  abbrev pub IsFor : Schema → List (ColBuilder X) → Type 0
  IsFor [] bs = Unit
  IsFor (f ∷ fs) [] = ⊥
  IsFor (f ∷ fs) (b ∷ bs) = (kind X b ≡ kind_of f.data_type) × IsFor fs bs

module _ (X : Crates) (A : Arrow X) where
  pub append_fields-IsFor :
      (fs : Schema) (bs : List (ColBuilder X)) (m : Fields X.Number) (line : ℕ) (lenient : Bool)
      (bs' : List (ColBuilder X))
      → append_fields X A fs bs m line lenient ≡ ok bs'
      → IsFor X fs bs
      → IsFor X fs bs'
  unfolding append_fields
  append_fields-IsFor [] bs m line lenient bs' h p = tt
  append_fields-IsFor (f ∷ fs) [] m line lenient bs' h p = absurd p
  append_fields-IsFor (f ∷ fs) (b ∷ bs) m line lenient bs' h p =
      let (b1, e, g) = >>=-eq-ok (append X b (X.get m f.name) line lenient) _ h in
      let (bs1, e1, g1) = >>=-eq-ok (append_fields X A fs bs m line lenient) _ g in
      let same : b1 ∷ bs1 ≡ bs' = cc in
      subst (IsFor X (f ∷ fs)) same (
        (append-Grows X b (X.get m f.name) line lenient e).same_kind ∙ p.0,
        append_fields-IsFor fs bs m line lenient bs1 e1 p.1,
      )

  -- one more cell in the first column, and what holds of the others
  column-Grows :
      (f : Field) (fs : Schema) (m : Fields X.Number) (b b1 : ColBuilder X)
      (bs bs1 : List (ColBuilder X))
      → Grows X (X.get m f.name) b b1
      → kind X b ≡ kind_of f.data_type
      → ((j : ℕ)
          → column X j (map (finish X) bs1) ≡ column X j (map (finish X) bs) ++ row_cell X j fs m)
      → (i : ℕ)
      → column X i (map (finish X) (b1 ∷ bs1))
        ≡ column X i (map (finish X) (b ∷ bs)) ++ row_cell X i (f ∷ fs) m
  column-Grows f fs m b b1 bs bs1 g k h zero =
      subst (λ s. cells X (finish X b1) ≡ cells X (finish X b) ++ cell X s (X.get m f.name) ∷ []) k
        g.one_more
  column-Grows f fs m b b1 bs bs1 g k h (suc i) = h i

  pub append_fields-column :
      (fs : Schema) (bs : List (ColBuilder X)) (m : Fields X.Number) (line : ℕ) (lenient : Bool)
      (bs' : List (ColBuilder X))
      → append_fields X A fs bs m line lenient ≡ ok bs'
      → IsFor X fs bs
      → (i : ℕ)
      → column X i (map (finish X) bs') ≡ column X i (map (finish X) bs) ++ row_cell X i fs m
  unfolding append_fields
  append_fields-column [] bs m line lenient bs' h p i =
      let same : bs ≡ bs' = cc in
      subst (λ l. column X i (map (finish X) l) ≡ column X i (map (finish X) bs) ++ []) same
        (sym (append-nil (column X i (map (finish X) bs))))
  append_fields-column (f ∷ fs) [] m line lenient bs' h p i = absurd p
  append_fields-column (f ∷ fs) (b ∷ bs) m line lenient bs' h p i =
      let (b1, e, g) = >>=-eq-ok (append X b (X.get m f.name) line lenient) _ h in
      let (bs1, e1, g1) = >>=-eq-ok (append_fields X A fs bs m line lenient) _ g in
      let same : b1 ∷ bs1 ≡ bs' = cc in
      subst
        (λ l.
          column X i (map (finish X) l)
          ≡ column X i (map (finish X) (b ∷ bs)) ++ row_cell X i (f ∷ fs) m)
        same
        (column-Grows f fs m b b1 bs bs1 (append-Grows X b (X.get m f.name) line lenient e) p.0
          (append_fields-column fs bs m line lenient bs1 e1 p.1) i)

  pub new_builders-IsFor : (fs : Schema) → IsFor X fs (new_builders X A fs)
  new_builders-IsFor [] = tt
  new_builders-IsFor (f ∷ fs) = (kind-new_builder X f.data_type, new_builders-IsFor fs)

  pub column-new_builders :
      (i : ℕ) (fs : Schema) → column X i (map (finish X) (new_builders X A fs)) ≡ []
  column-new_builders i [] = refl
  column-new_builders zero (f ∷ fs) = cells-new_builder X f.data_type
  column-new_builders (suc i) (f ∷ fs) = column-new_builders i fs

  -- A column over several batches.
  abbrev pub column_of : ℕ → List A.RecordBatch → List (Cell X)
  column_of i bs = concat (map (λ b. column X i (A.columns b)) bs)

  column_of-last :
      (i : ℕ) (bs : List A.RecordBatch) (b : A.RecordBatch)
      → column_of i (bs ++ b ∷ []) ≡ column_of i bs ++ column X i (A.columns b)
  column_of-last i [] b = append-nil (column X i (A.columns b))
  column_of-last i (x ∷ bs) b =
      ap (λ l. column X i (A.columns x) ++ l) (column_of-last i bs b)
      ∙ sym (append_assoc (column X i (A.columns x)) (column_of i bs) (column X i (A.columns b)))

module _ (X : Crates) (A : Arrow X) (c : ParseConfig X A) where
  -- A column of the batches and of the rows that wait in the builders.
  abbrev pub state_column : ℕ → ParseState X A → List (Cell X)
  state_column i st = column_of X A i st.batches ++ column X i (map (finish X) st.builders)

  -- Each builder is of its field's sort, and holds nothing when no row waits.
  pub record IsSound (st : ParseState X A) : Type 0 where
    pub built : IsFor X c.schema st.builders
    pub empty : st.batch_rows ≡ 0 → (i : ℕ) → column X i (map (finish X) st.builders) ≡ []

  -- A step that adds these cells to the columns.
  pub record Extends (more : ℕ → List (Cell X)) (st st' : ParseState X A) : Type 0 where
    pub sound : IsSound st'
    pub extended : (i : ℕ) → state_column i st' ≡ state_column i st ++ more i

  flushed-column :
      (i : ℕ) (st : ParseState X A) (b : A.RecordBatch)
      → A.columns b ≡ map (finish X) st.builders
      → column_of X A i (st.batches ++ b ∷ [])
          ++ column X i (map (finish X) (new_builders X A c.schema))
        ≡ state_column i st ++ []
  flushed-column i st b e =
      ap (λ l. column_of X A i (st.batches ++ b ∷ []) ++ l) (column-new_builders X A i c.schema)
      ∙ append-nil (column_of X A i (st.batches ++ b ∷ []))
      ∙ column_of-last X A i st.batches b
      ∙ ap (λ l. column_of X A i st.batches ++ column X i l) e
      ∙ sym (append-nil (state_column i st))

  flushed-IsSound :
      (bs : List A.RecordBatch) (st : ParseState X A)
      → IsSound (record st { batches = bs; builders = new_builders X A c.schema; batch_rows = 0 })
  flushed-IsSound bs st = record {
    built = new_builders-IsFor X A c.schema;
    empty = λ z i. column-new_builders X A i c.schema;
  }

  pub flush_batch-Extends :
      (st : ParseState X A) {st' : ParseState X A}
      → flush_batch X A c st ≡ ok st'
      → Extends (λ i. []) st st'
  unfolding flush_batch
  flush_batch-Extends st {st'} h =
      elim (Result-cases (A.try_new c.schema (map (finish X) st.builders))) [
        | inl (b, e) ↦
            let same : record st {
              batches = st.batches ++ b ∷ [];
              builders = new_builders X A c.schema;
              batch_rows = 0;
            }
                ≡ st' =
              ground arith in
            subst (Extends (λ i. []) st) same (record {
              sound = flushed-IsSound (st.batches ++ b ∷ []) st;
              extended = λ i. flushed-column i st b (A.try_new-columns c.schema _ e);
            })
        | inr (x, e) ↦ absurd (ground arith)
      ]
