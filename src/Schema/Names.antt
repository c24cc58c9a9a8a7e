-- ===== src/Schema/Names.antt =====
-- Which columns a schema has that `infer_schema` gives, and how often.
use parq.Prelude.{
  ◌≡◌, refl, Bool, true, false, not, ◌||◌, List, [], ◌∷◌, ◌++◌, arith, Bytes, str_eq, str_eq_iff,
  Bool-cases, inl, inr,
}
use parq.Json.{Value, Fields, object}
use parq.Json
use parq.DataType.{null, type_eq}
use parq.DataType.Order.{is_null-merge}
use parq.Dict.{lookup-nil}
use parq.Crates.{Crates}
use parq.Schema.{
  InferState, infer_start, entry_type, value_type, promote, infer_entry, infer_entries, infer_value,
}
use parq.Schema.Sample.{infer_values}
use parq.Schema.Infer.{infer_entry-type}

unfoldable pub contains : List Bytes → Bytes → Bool
contains [] k = false
contains (j ∷ js) k = str_eq j k || contains js k

-- No name stands twice.
abbrev pub Distinct : List Bytes → Type 0
Distinct [] = Unit
Distinct (j ∷ js) = (contains js j ≡ false) × Distinct js

contains-append :
    (js : List Bytes) (j k : Bytes) → contains (js ++ j ∷ []) k ≡ (contains js k || str_eq j k)
unfolding contains
contains-append [] j k = ground arith
contains-append (i ∷ js) j k = ground (arith, contains-append js j k)

Distinct-append :
    (js : List Bytes) (j : Bytes) → Distinct js → contains js j ≡ false → Distinct (js ++ j ∷ [])
unfolding contains
Distinct-append [] j d h = (refl, tt)
Distinct-append (i ∷ js) j d h = (
  ground (arith, contains-append js j i, str_eq_iff i j, str_eq_iff j i),
  Distinct-append js j d.1 (ground arith),
)

module _ (X : Crates) where
  open X use {Number}

  -- The names in `field_order` are those with a type other than Null.
  pub record IsOrdered (st : InferState X) : Type 0 where
    pub names : (k : Bytes) → contains st.field_order k ≡ not (type_eq (entry_type X k st) null)
    pub distinct : Distinct st.field_order

  infer_entry-names :
      (key : Bytes) (val : Value Number) (st : InferState X)
      → ((k : Bytes) → contains st.field_order k ≡ not (type_eq (entry_type X k st) null))
      → (k : Bytes)
      → contains (infer_entry X key val st).field_order k
        ≡ not (type_eq (entry_type X k (infer_entry X key val st)) null)
  infer_entry-names key val st h k = rw infer_entry-type (
      unfold infer_entry promote in
      ground (
        arith,
        h k,
        is_null-merge (entry_type X key st) (value_type X val),
        contains-append st.field_order key k,
        str_eq_iff key k,
      ))

  push-Distinct :
      (key : Bytes) {st : InferState X}
      → IsOrdered st
      → type_eq (entry_type X key st) null ≡ true
      → Distinct (st.field_order ++ key ∷ [])
  push-Distinct key {st} o e = Distinct-append st.field_order key o.distinct (rw (o.names key, e))

  infer_entry-IsOrdered :
      (key : Bytes) (val : Value Number) {st : InferState X}
      → IsOrdered st
      → IsOrdered (infer_entry X key val st)
  unfolding infer_entry
  infer_entry-IsOrdered key val {st} o = record {
    names = infer_entry-names key val st o.names;
    distinct = elim (Bool-cases (type_eq (entry_type X key st) null)) [
      | inl e ↦ elim (Bool-cases (type_eq (promote X (entry_type X key st) val) null)) [
        | inl f ↦ rw (e, f) o.distinct
        | inr f ↦ rw (e, f) (push-Distinct key o e)
      ]
      | inr e ↦ rw e o.distinct
    ];
  }

  infer_entries-IsOrdered :
      (m : Fields Number) {st : InferState X} → IsOrdered st → IsOrdered (infer_entries X m st)
  unfolding infer_entries
  infer_entries-IsOrdered Json.end o = o
  infer_entries-IsOrdered (Json.entry k v m) o =
      infer_entries-IsOrdered m (infer_entry-IsOrdered k v o)

  infer_value-IsOrdered :
      (v : Value Number) {st : InferState X} → IsOrdered st → IsOrdered (infer_value X v st)
  unfolding infer_value
  infer_value-IsOrdered (object m) o =
      let o' = infer_entries-IsOrdered m o in record { names = o'.names; distinct = o'.distinct }
  infer_value-IsOrdered Json.null o = record { names = o.names; distinct = o.distinct }
  infer_value-IsOrdered _ o = record { names = o.names; distinct = o.distinct }

  pub infer_values-IsOrdered :
      (vs : List (Value Number)) {st : InferState X}
      → IsOrdered st
      → IsOrdered (infer_values X vs st)
  unfolding infer_values
  infer_values-IsOrdered [] o = o
  infer_values-IsOrdered (v ∷ vs) o = infer_values-IsOrdered vs (infer_value-IsOrdered v o)

  pub infer_start-IsOrdered : IsOrdered (infer_start X)
  unfolding contains
  infer_start-IsOrdered = record { names = λ k. rw lookup-nil; distinct = tt }
