-- ===== src/Schema/Reported.antt =====
-- The errors of `infer_schema` and `load_schema_from_file` by kind.
use parq.Prelude.{◌==◌, ℕ, inl, inr, List, [], ◌∷◌, Bytes, Bool-cases, take}
use parq.Prelude.Results.{Result, Result-cases}
use parq.Text.{is_empty, trim, split_lines}
use parq.Crates.{Crates}
use parq.Parser.Reported.{IsReported, FailsBy, >>=-FailsBy}
use parq.Schema.{
  InferState, infer_start, infer_line, infer_lines, finish_schema, infer_schema,
  load_schema_from_file, strip_bom,
}

module _ (X : Crates) where
  infer_line-IsReported :
      (l : Bytes) (st : InferState X) → FailsBy X (IsReported X) (infer_line X l st)
  unfolding infer_line
  infer_line-IsReported l st = elim (Bool-cases (is_empty (trim l))) [
    | inl e ↦ rw (e, FailsBy) tt
    | inr e ↦ rw e (elim (Result-cases (X.from_slice (trim l))) [
      | inl (v, f) ↦ rw (f, FailsBy) tt
      | inr (x, f) ↦ rw (f, FailsBy) tt
    ])
  ]

  infer_lines-IsReported :
      (ls : List Bytes) (st : InferState X) → FailsBy X (IsReported X) (infer_lines X ls st)
  unfolding infer_lines
  infer_lines-IsReported [] st = tt
  infer_lines-IsReported (l ∷ ls) st =
      >>=-FailsBy X (IsReported X) _ _ (infer_line-IsReported l st)
        (λ st'. infer_lines-IsReported ls st')

  finish_schema-IsReported : (st : InferState X) → FailsBy X (IsReported X) (finish_schema X st)
  unfolding finish_schema
  finish_schema-IsReported st = elim (Bool-cases (st.rows_seen == 0)) [
    | inl e ↦ rw (e, FailsBy) tt
    | inr e ↦ rw (e, FailsBy) tt
  ]

  pub infer_schema-IsReported :
      (bytes : Bytes) (n : ℕ) → FailsBy X (IsReported X) (infer_schema X bytes n)
  unfolding infer_schema
  infer_schema-IsReported bytes n =
      >>=-FailsBy X (IsReported X) _ _
        (infer_lines-IsReported (take n (split_lines (strip_bom bytes))) (infer_start X))
        finish_schema-IsReported

  pub load_schema-IsReported :
      (read : Bytes → Result X.IoError Bytes) (path : Bytes)
      → FailsBy X (IsReported X) (load_schema_from_file X read path)
  unfolding load_schema_from_file
  load_schema-IsReported read path = elim (Result-cases (read path)) [
    | inr (x, e) ↦ rw (e, FailsBy) tt
    | inl (text, e) ↦
        rw (e, load_schema_from_file)
          (elim (Result-cases (X.from_str_vec (strip_bom text))) [
            | inl (v, f) ↦ rw (f, FailsBy) tt
            | inr (x, f) ↦ rw (f, FailsBy) tt
          ])
  ]
