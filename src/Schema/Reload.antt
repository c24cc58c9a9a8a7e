-- ===== src/Schema/Reload.antt =====
-- An inferred schema that is written to a file and loaded from it is the same schema.
use parq.Prelude.{
  ℕ, ◌≡◌, refl, sym, ap, subst, ◌∙◌, true, not, List, [], ◌∷◌, map, arith, Bytes, str_eq_refl,
}
use parq.Prelude.Results.{ok}
use parq.DataType.{DataType, null, timestamp_us, other, type_eq}
use parq.DataType.Names.{named}
use parq.Columns.Types.{IsPlain}
use parq.Crates.{Crates}
use parq.Schema.{Schema, entry_type, infer_field, infer_schema}
use parq.Schema.Errors.{last_state, infer_schema-fields}
use parq.Schema.Infer.{last_state-type}
use parq.Schema.Names.{contains}
use parq.Schema.Columns.{column-type, last_state-IsOrdered}
use parq.Schema.Types.{entry_type-IsPlain}
use parq.Schema.File.{renamed}

named-plain : (d : DataType) → IsPlain d → not (type_eq d null) ≡ true → named d ≡ d
named-plain null p h = absurd (ground arith)
named-plain timestamp_us p h = absurd (ground arith)
named-plain (other n) p h = p
named-plain _ p h = refl

module _ (X : Crates) (bytes : Bytes) (n : ℕ) where
  -- a column's type is written by a name of its own
  column_renamed :
      (k : Bytes)
      → contains (last_state X bytes n).field_order k ≡ true
      → renamed (infer_field X (last_state X bytes n) k) ≡ infer_field X (last_state X bytes n) k
  column_renamed k h =
      let f = infer_field X (last_state X bytes n) k in
      let of_entry : entry_type X k (last_state X bytes n) ≡ f.data_type =
        last_state-type X bytes n k ∙ sym (column-type X bytes n k h) in
      let typed : not (type_eq (entry_type X k (last_state X bytes n)) null) ≡ true =
        sym ((last_state-IsOrdered X bytes n).names k) ∙ h in
      let kept : named f.data_type ≡ f.data_type =
        named-plain f.data_type (subst IsPlain of_entry (entry_type-IsPlain X bytes n k))
          (subst (λ d. not (type_eq d null) ≡ true) of_entry typed) in
      ap (λ (d : DataType). record f { data_type = d }) kept

  columns_renamed :
      (names : List Bytes)
      → ((k : Bytes)
          → contains names k ≡ true
          → contains (last_state X bytes n).field_order k ≡ true)
      → map renamed (map (infer_field X (last_state X bytes n)) names)
        ≡ map (infer_field X (last_state X bytes n)) names
  unfolding contains
  columns_renamed [] h = refl
  columns_renamed (k ∷ ks) h =
      let first = column_renamed k (h k (ground (arith, str_eq_refl k))) in
      let rest = columns_renamed ks (λ j e. h j (ground arith)) in cc

  pub renamed-inferred :
      {schema : Schema} → infer_schema X bytes n ≡ ok schema → map renamed schema ≡ schema
  renamed-inferred e =
      rw (infer_schema-fields X bytes n e)
        (columns_renamed (last_state X bytes n).field_order (λ k h. h))
