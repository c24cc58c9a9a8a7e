-- ===== src/Schema/Infer.antt =====
-- The types in `infer_schema`'s map, and the types of the sampled values.
use parq.Prelude.{
  ℕ, ◌≡◌, ◌↔◌, refl, sym, ap, ◌∙◌, List, [], ◌∷◌, ◌++◌, arith, Bytes, All, str_eq, str_eq_iff,
  if◌then◌else◌,
}
use parq.Json.{Value, bool, number, string, array, object, Fields, end, entry}
use parq.Json
use parq.DataType.{DataType, null, merge}
use parq.DataType.Order.{
  Widens, same, from_null, merge-widens, widens-merge_left, widens-merge_right, widens_trans,
  widens_antisymm,
}
use parq.Dict.{lookup-put, lookup-nil}
use parq.Crates.{Crates}
use parq.Schema.Sample.{sample, parsed, infer_values}
use parq.Schema.Errors.{last_state}
use parq.Schema.{
  InferState, infer_start, entry_type, value_type, promote, infer_entry, infer_entries, infer_value,
}

-- `d` is the least type that every type of `ds` can be promoted to.
abbrev pub IsJoin : List DataType → DataType → Type 0
IsJoin ds d = (c : DataType) → Widens d c ↔ All (λ x. Widens x c) ds

unfoldable pub merge_all : DataType → List DataType → DataType
merge_all d [] = d
merge_all d (x ∷ xs) = merge_all (merge d x) xs

merge_all-append :
    (d : DataType) (xs ys : List DataType) → merge_all d (xs ++ ys) ≡ merge_all (merge_all d xs) ys
unfolding merge_all
merge_all-append d [] ys = refl
merge_all-append d (x ∷ xs) ys = merge_all-append (merge d x) xs ys

merge_all-widens :
    (d : DataType) (ds : List DataType) (c : DataType)
    → Widens (merge_all d ds) c ↔ (Widens d c × All (λ x. Widens x c) ds)
unfolding merge_all
merge_all-widens d [] c = (λ h. (h, tt), λ h. h.0)
merge_all-widens d (x ∷ xs) c =
    let (to, from) = merge_all-widens (merge d x) xs c in
    (
      λ h. (
        widens_trans (widens-merge_left d x) (to h).0,
        (widens_trans (widens-merge_right d x) (to h).0, (to h).1),
      ),
      λ h. from (merge-widens h.0 h.1.0, h.1.1),
    )

pub merge_all-IsJoin : (ds : List DataType) → IsJoin ds (merge_all null ds)
merge_all-IsJoin ds c =
    let (to, from) = merge_all-widens null ds c in (λ h. (to h).1, λ h. from (from_null, h))

-- A join is determined by its types, in whatever order they stand.
pub IsJoin-unique : (ds : List DataType) {d e : DataType} → IsJoin ds d → IsJoin ds e → d ≡ e
IsJoin-unique ds {d} {e} p q = widens_antisymm ((p e).1 ((q e).0 same)) ((q d).1 ((p d).0 same))

module _ (X : Crates) where
  open X use {Number, from_slice}

  -- The types of the values at a key, in one object and in a list of records.
  unfoldable pub types_in : Bytes → Fields Number → List DataType
  types_in k end = []
  types_in k (entry j v rest) =
      let more = types_in k rest in if str_eq j k then value_type X v ∷ more else more

  unfoldable pub types_at : Bytes → Value Number → List DataType
  types_at k (object m) = types_in k m
  types_at k _ = []

  unfoldable pub types_of : Bytes → List (Value Number) → List DataType
  types_of k [] = []
  types_of k (v ∷ vs) = types_at k v ++ types_of k vs

  pub infer_entry-type :
      (k key : Bytes) (val : Value Number) (st : InferState X)
      → entry_type X k (infer_entry X key val st)
        ≡ (if str_eq key k then merge (entry_type X k st) (value_type X val) else entry_type X k st)
  unfolding infer_entry promote
  infer_entry-type k key val st = rw lookup-put (ground (arith, str_eq_iff key k))

  infer_entries-type :
      (k : Bytes) (m : Fields Number) (st : InferState X)
      → entry_type X k (infer_entries X m st) ≡ merge_all (entry_type X k st) (types_in k m)
  unfolding infer_entries types_in merge_all
  infer_entries-type k end st = refl
  infer_entries-type k (entry j v rest) st =
      infer_entries-type k rest (infer_entry X j v st) ∙ rw infer_entry-type (ground arith)

  infer_value-type :
      (k : Bytes) (v : Value Number) (st : InferState X)
      → entry_type X k (infer_value X v st) ≡ merge_all (entry_type X k st) (types_at k v)
  unfolding infer_value types_at merge_all
  infer_value-type k (object m) st = infer_entries-type k m st
  infer_value-type k Json.null st = refl
  infer_value-type k _ st = refl

  pub infer_values-type :
      (k : Bytes) (vs : List (Value Number)) (st : InferState X)
      → entry_type X k (infer_values X vs st) ≡ merge_all (entry_type X k st) (types_of k vs)
  unfolding infer_values types_of
  infer_values-type k [] st = unfold merge_all in refl
  infer_values-type k (v ∷ vs) st =
      rw (infer_values-type k vs (infer_value X v st), infer_value-type k v st)
        (sym (merge_all-append (entry_type X k st) (types_at k v) (types_of k vs)))

  -- The types that the sampled records have at a key.
  unfoldable pub sampled_types : Bytes → ℕ → Bytes → List DataType
  sampled_types bytes n k = types_of k (parsed X (sample bytes n))

  pub last_state-type :
      (bytes : Bytes) (n : ℕ) (k : Bytes)
      → entry_type X k (last_state X bytes n) ≡ merge_all null (sampled_types bytes n k)
  unfolding sampled_types
  last_state-type bytes n k =
      infer_values-type k (parsed X (sample bytes n)) (infer_start X)
      ∙ ap (λ d. merge_all d (sampled_types bytes n k)) (rw lookup-nil)
