-- ===== src/Schema/Types.antt =====
-- The types of an inferred schema are those that the parser's builders have.
use parq.Prelude.{
  ℕ, ◌≡◌, refl, subst, sym, Bool-cases, inl, inr, none, some, List, [], ◌∷◌, map, Bytes, All,
  All-append, Option, str_eq,
}
use parq.Prelude.Results.{ok}
use parq.Json.{Value, bool, number, string, array, object, Fields, end, entry}
use parq.Json
use parq.DataType.{DataType, null, utf8, type_eq, merge, merge_distinct}
use parq.Columns.Types.{IsPlain, IsBuildable}
use parq.Crates.{Crates}
use parq.Dict.{lookup}
use parq.Schema.{Schema, unwrap_or, entry_type, value_type, infer_field, infer_schema}
use parq.Schema.Errors.{last_state, infer_schema-fields}
use parq.Schema.Infer.{merge_all, types_in, types_at, types_of, sampled_types, last_state-type}
use parq.Schema.Sample.{sample, parsed}

merge_distinct-IsPlain : (a b : DataType) → IsPlain a → IsPlain b → IsPlain (merge_distinct a b)
unfolding merge_distinct
merge_distinct-IsPlain null b p q = q
merge_distinct-IsPlain a null p q = p
merge_distinct-IsPlain _ _ p q = refl

merge-IsPlain : (a b : DataType) → IsPlain a → IsPlain b → IsPlain (merge a b)
unfolding merge
merge-IsPlain a b p q = elim (Bool-cases (type_eq a b)) [
  | inl e ↦ rw e p
  | inr e ↦ rw e (merge_distinct-IsPlain a b p q)
]

merge_all-IsPlain :
    (d : DataType) (ds : List DataType) → IsPlain d → All IsPlain ds → IsPlain (merge_all d ds)
unfolding merge_all
merge_all-IsPlain d [] p ps = p
merge_all-IsPlain d (x ∷ xs) p ps = merge_all-IsPlain (merge d x) xs (merge-IsPlain d x p ps.0) ps.1

module _ (X : Crates) where
  value_type-IsPlain : (v : Value X.Number) → IsPlain (value_type X v)
  unfolding value_type
  value_type-IsPlain Json.null = refl
  value_type-IsPlain (bool b) = refl
  value_type-IsPlain (number n) = elim (Bool-cases (X.is_i64 n)) [
    | inl e ↦ rw e refl
    | inr e ↦ rw e refl
  ]
  value_type-IsPlain _ = refl

  types_in-IsPlain : (k : Bytes) (m : Fields X.Number) → All IsPlain (types_in X k m)
  unfolding types_in
  types_in-IsPlain k end = tt
  types_in-IsPlain k (entry j v rest) = elim (Bool-cases (str_eq j k)) [
    | inl e ↦ rw e (value_type-IsPlain v, types_in-IsPlain k rest)
    | inr e ↦ rw e (types_in-IsPlain k rest)
  ]

  types_at-IsPlain : (k : Bytes) (v : Value X.Number) → All IsPlain (types_at X k v)
  unfolding types_at
  types_at-IsPlain k (object m) = types_in-IsPlain k m
  types_at-IsPlain k Json.null = tt
  types_at-IsPlain k _ = tt

  types_of-IsPlain : (k : Bytes) (vs : List (Value X.Number)) → All IsPlain (types_of X k vs)
  unfolding types_of
  types_of-IsPlain k [] = tt
  types_of-IsPlain k (v ∷ vs) =
      All-append IsPlain (types_at X k v) (types_of X k vs) (types_at-IsPlain k v)
        (types_of-IsPlain k vs)

  pub entry_type-IsPlain :
      (bytes : Bytes) (n : ℕ) (k : Bytes) → IsPlain (entry_type X k (last_state X bytes n))
  unfolding sampled_types
  entry_type-IsPlain bytes n k =
      subst IsPlain (sym (last_state-type X bytes n k))
        (merge_all-IsPlain null _ refl (types_of-IsPlain k (parsed X (sample bytes n))))

  or_utf8 : (o : Option DataType) → IsPlain (unwrap_or o null) → IsPlain (unwrap_or o utf8)
  or_utf8 none p = refl
  or_utf8 (some d) p = p

  fields-IsBuildable :
      (bytes : Bytes) (n : ℕ) (names : List Bytes)
      → All IsBuildable (map (infer_field X (last_state X bytes n)) names)
  unfolding infer_field
  fields-IsBuildable bytes n [] = tt
  fields-IsBuildable bytes n (k ∷ ks) = (
    (refl, or_utf8 (lookup k (last_state X bytes n).field_types) (entry_type-IsPlain bytes n k)),
    fields-IsBuildable bytes n ks,
  )

  pub infer_schema-IsBuildable :
      (bytes : Bytes) (n : ℕ) {schema : Schema}
      → infer_schema X bytes n ≡ ok schema
      → All IsBuildable schema
  infer_schema-IsBuildable bytes n e =
      rw (infer_schema-fields X bytes n e)
        (fields-IsBuildable bytes n (last_state X bytes n).field_order)
