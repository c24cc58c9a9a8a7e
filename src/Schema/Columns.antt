-- ===== src/Schema/Columns.antt =====
-- The columns of an inferred schema against the types of the sampled values.
use parq.Prelude.{
  ℕ, ◌≡◌, refl, ap, ◌∙◌, Bool, true, false, not, ◌||◌, List, [], ◌∷◌, map, arith, Bytes,
}
use parq.Prelude.Results.{ok}
use parq.DataType.{DataType, null, type_eq, merge}
use parq.DataType.Order.{is_null-merge}
use parq.Crates.{Crates}
use parq.Schema.{Field, Schema, infer_field, infer_schema}
use parq.Schema.Sample.{sample, parsed}
use parq.Schema.Errors.{last_state, infer_schema-fields}
use parq.Schema.Infer.{IsJoin, merge_all, sampled_types, last_state-type}
use parq.Schema.Names.{contains, Distinct, IsOrdered, infer_values-IsOrdered, infer_start-IsOrdered}

-- Some type of the list is not Null.
unfoldable pub any_typed : List DataType → Bool
any_typed [] = false
any_typed (d ∷ ds) = not (type_eq d null) || any_typed ds

is_null-merge_all :
    (d : DataType) (ds : List DataType)
    → not (type_eq (merge_all d ds) null) ≡ (not (type_eq d null) || any_typed ds)
unfolding merge_all any_typed
is_null-merge_all d [] = ground arith
is_null-merge_all d (x ∷ xs) = ground (arith, is_null-merge_all (merge d x) xs, is_null-merge d x)

module _ (X : Crates) (bytes : Bytes) (n : ℕ) where
  pub last_state-IsOrdered : IsOrdered X (last_state X bytes n)
  last_state-IsOrdered =
      infer_values-IsOrdered X (parsed X (sample bytes n)) (infer_start-IsOrdered X)

  -- A column is nullable, and its type is the join of the types of the sampled values at its name.
  pub record IsColumn (f : Field) : Type 0 where
    pub nullable : f.nullable ≡ true
    pub join : IsJoin (sampled_types X bytes n f.name) f.data_type

  -- the type of a column that is listed is the one in the map
  pub column-type :
      (name : Bytes)
      → contains (last_state X bytes n).field_order name ≡ true
      → (infer_field X (last_state X bytes n) name).data_type
        ≡ merge_all null (sampled_types X bytes n name)
  unfolding infer_field
  column-type name h =
      ground (arith, last_state-type X bytes n name, last_state-IsOrdered.names name)

  names-fields_of :
      (names : List Bytes)
      → map (λ f. f.name) (map (infer_field X (last_state X bytes n)) names) ≡ names
  unfolding infer_field
  names-fields_of [] = refl
  names-fields_of (k ∷ ks) = ap (λ l. k ∷ l) (names-fields_of ks)

  pub infer_schema-names :
      {schema : Schema}
      → infer_schema X bytes n ≡ ok schema
      → Distinct (map (λ f. f.name) schema)
        × ((k : Bytes)
            → contains (map (λ f. f.name) schema) k ≡ any_typed (sampled_types X bytes n k))
  infer_schema-names e =
      rw (infer_schema-fields X bytes n e, names-fields_of (last_state X bytes n).field_order)
        (
          last_state-IsOrdered.distinct,
          λ k.
              last_state-IsOrdered.names k
              ∙ rw
                  (last_state-type X bytes n k, is_null-merge_all null (sampled_types X bytes n k)),
        )
