-- ===== src/Schema/Sample.antt =====
-- The loops of `infer_schema` as one fold over the values of the sampled records.
use parq.Prelude.{
  ℕ, ◌+◌, ◌≡◌, refl, Option, none, some, List, [], ◌∷◌, arith, Bytes, take, Bool-cases, inl, inr,
}
use parq.Prelude.Results.{Result, ok, err, ◌>>=◌, Result-cases}
use parq.Text.{is_empty, split_lines, trim, keep_records}
use parq.Json.{Value, Fields, object}
use parq.Json
use parq.Crates.{Crates}
use parq.Error.{Failure, parq_error, json_parse}
use parq.Schema.{
  InferState, infer_entry, infer_entries, infer_value, infer_line, infer_lines, strip_bom,
}

-- The records that `infer_schema` looks at.
unfoldable pub sample : Bytes → ℕ → List Bytes
sample bytes n = keep_records (take n (split_lines (strip_bom bytes)))

module _ (X : Crates) where
  open X use {Number, from_slice}

  -- The records that are JSON, as values.
  unfoldable pub parsed : List Bytes → List (Value Number)
  parsed [] = []
  parsed (r ∷ rs) = let more = parsed rs in elim (from_slice r) [ ok v ↦ v ∷ more | err e ↦ more ]

  -- The place of the first record that is no JSON, counted from `i + 1`, and its error.
  unfoldable pub first_failure : ℕ → List Bytes → Option (ℕ × X.JsonError)
  first_failure i [] = none
  first_failure i (r ∷ rs) =
      let more = first_failure (i + 1) rs in
      elim (from_slice r) [ ok v ↦ more | err e ↦ some (i + 1, e) ]

  unfoldable pub infer_values : List (Value Number) → InferState X → InferState X
  infer_values [] st = st
  infer_values (v ∷ vs) st = infer_values vs (infer_value X v st)

  abbrev pub record_outcome :
      Option (ℕ × X.JsonError) → InferState X → Result (Failure X) (InferState X)
  record_outcome none st = ok st
  record_outcome (some (line, e)) st = err (parq_error (json_parse line e))

  rows-infer_entries :
      (m : Fields Number) (st : InferState X) → (infer_entries X m st).rows_seen ≡ st.rows_seen
  unfolding infer_entries infer_entry
  rows-infer_entries Json.end st = refl
  rows-infer_entries (Json.entry k v m) st = rows-infer_entries m (infer_entry X k v st)

  pub rows-infer_value :
      (v : Value Number) (st : InferState X) → (infer_value X v st).rows_seen ≡ st.rows_seen + 1
  unfolding infer_value
  rows-infer_value (object m) st = rw rows-infer_entries
  rows-infer_value Json.null st = refl
  rows-infer_value _ st = refl

  pub infer_lines-outcome :
      (ls : List Bytes) (st : InferState X)
      → infer_lines X ls st
        ≡ record_outcome
            (first_failure st.rows_seen (keep_records ls))
            (infer_values (parsed (keep_records ls)) st)
  unfolding infer_lines infer_line keep_records first_failure parsed infer_values
  infer_lines-outcome [] st = refl
  infer_lines-outcome (l ∷ ls) st = elim (Bool-cases (is_empty (trim l))) [
    | inl e ↦ rw (e, ◌>>=◌) (infer_lines-outcome ls st)
    | inr e ↦ elim (Result-cases (from_slice (trim l))) [
      | inl (v, p) ↦
          ground (arith, infer_lines-outcome ls (infer_value X v st), rows-infer_value v st)
      | inr (x, p) ↦ ground arith
    ]
  ]
