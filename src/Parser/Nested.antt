-- ===== src/Parser/Nested.antt =====
-- An inferred schema against `parse_chunk` with `--flatten`: the column of a key that holds objects.
mod Examples
use parq.Prelude.{
  ℕ, zero, suc, ◌+◌, ◌≡◌, refl, sym, ap, subst, ◌∙◌, Bool, true, false, not, ◌||◌, Bool-cases, inl,
  inr, Option, none, some, List, [], ◌∷◌, ◌++◌, map, arith, Bytes, Lacks, All, All-append, length,
  length-append, concat, str_eq, str_eq_iff, if◌then◌else◌,
}
use mathlib.Core.List.{Memᴰ}
use parq.Prelude.Results.{ok, err, Result-cases}
use parq.Text.{records}
use parq.Json.{Value, bool, number, string, array, object, Fields, end, entry}
use parq.Json
use parq.Crates.{Crates}
use parq.Flatten.{flatten_object}
use parq.Flatten.Nested.{NestedAt, get-flatten_nested}
use parq.DataType.{DataType, null, type_eq}
use parq.Schema.{Field, Schema, infer_schema, value_type}
use parq.Schema.Sample.{sample, parsed}
use parq.Schema.Infer.{types_in, types_at, types_of, sampled_types}
use parq.Schema.Names.{contains}
use parq.Schema.Columns.{any_typed, infer_schema-names}
use parq.Columns.Cells.{
  Kind, nulls, bools, integers, floats, texts, kind_of, Cell, null_cell, bool_cell, integer_cell,
  float_cell, text_cell, cell,
}
use parq.Columns.{int64_cell, float64_cell, str_cell}
use parq.Parser.{Arrow, ParseConfig, Parsed, parse_chunk}
use parq.Parser.Outcome.{object_in, accepted}
use parq.Parser.Cells.{row_cell, column_of}
use parq.Parser.Table.{shape, rows_column, parse_chunk-column}

-- The name of the column at a place.
abbrev pub name_at : ℕ → Schema → Option Bytes
name_at i [] = none
name_at zero (f ∷ fs) = some f.name
name_at (suc i) (f ∷ fs) = name_at i fs

contains-place :
    (schema : Schema) (k : Bytes)
    → contains (map (λ f. f.name) schema) k ≡ true
    → (i : ℕ) × (name_at i schema ≡ some k)
unfolding contains
contains-place [] k h = absurd (ground arith)
contains-place (f ∷ fs) k h = elim (Bool-cases (str_eq f.name k)) [
  | inl e ↦ (0, ap some ((str_eq_iff f.name k).0 e))
  | inr e ↦ let (i, same) = contains-place fs k (ground arith) in (suc i, same)
]

any_typed-append : (ds es : List DataType) → any_typed (ds ++ es) ≡ (any_typed ds || any_typed es)
unfolding any_typed
any_typed-append [] es = refl
any_typed-append (d ∷ ds) es = ground (arith, any_typed-append ds es)

module _ (X : Crates) where
  open X use {Number, from_slice, get}

  abbrev pub IsNullCell : Cell X → Type 0
  IsNullCell null_cell = Unit
  IsNullCell (bool_cell v) = v ≡ none
  IsNullCell (integer_cell v) = v ≡ none
  IsNullCell (float_cell v) = v ≡ none
  IsNullCell (text_cell v) = v ≡ none

  cell-IsNullCell : (s : Kind) → IsNullCell (cell X s none)
  unfolding int64_cell float64_cell str_cell
  cell-IsNullCell nulls = tt
  cell-IsNullCell bools = refl
  cell-IsNullCell integers = refl
  cell-IsNullCell floats = refl
  cell-IsNullCell texts = refl

  -- the types at a key are those in the objects
  types_of-parsed :
      (k : Bytes) (rs : List Bytes)
      → types_of X k (parsed X rs) ≡ concat (map (types_in X k) (accepted X rs))
  unfolding types_of parsed accepted types_at
  types_of-parsed k [] = refl
  types_of-parsed k (r ∷ rs) = elim (Result-cases (from_slice r)) [
    | inr (x, e) ↦ ground (arith, types_of-parsed k rs)
    | inl (Json.null, e) ↦ ground (arith, types_of-parsed k rs)
    | inl (bool b, e) ↦ ground (arith, types_of-parsed k rs)
    | inl (number n, e) ↦ ground (arith, types_of-parsed k rs)
    | inl (string s, e) ↦ ground (arith, types_of-parsed k rs)
    | inl (array xs, e) ↦ ground (arith, types_of-parsed k rs)
    | inl (object m, e) ↦ ground (arith, types_of-parsed k rs)
  ]

  any_typed-types_in :
      (m : Fields Number) (k : Bytes) {nested : Fields Number}
      → get m k ≡ some (object nested)
      → any_typed (types_in X k m) ≡ true
  unfolding types_in any_typed value_type
  any_typed-types_in end k {nested} h = absurd (ground (arith, X.get-end k))
  any_typed-types_in (entry j v m) k {nested} h = elim (Bool-cases (str_eq j k)) [
    | inl e ↦
        let same : v ≡ object nested = ground (arith, X.get-entry j k v m) in rw (e, same) refl
    | inr e ↦
        let more : get m k ≡ some (object nested) = ground (arith, X.get-entry j k v m) in
        rw e (any_typed-types_in m k more)
  ]

  any_typed-object :
      (k : Bytes) (m : Fields Number) {ms : List (Fields Number)}
      → any_typed (types_in X k m) ≡ true
      → Memᴰ m ms
      → any_typed (concat (map (types_in X k) ms)) ≡ true
  any_typed-object k m {ms = []} h member = elim member [ ]
  any_typed-object k m {ms = x ∷ ms} h (Memᴰ.head same) =
      let typed : any_typed (types_in X k x) ≡ true = rw (sym same) h in
      any_typed-append (types_in X k x) (concat (map (types_in X k) ms)) ∙ ground (arith, typed)
  any_typed-object k m {ms = x ∷ ms} h (Memᴰ.tail later) =
      any_typed-append (types_in X k x) (concat (map (types_in X k) ms))
      ∙ ground (arith, any_typed-object k m h later)

module _ (X : Crates) (A : Arrow X) (c : ParseConfig X A) where
  row_cell-null :
      (i : ℕ) (fs : Schema) (m : Fields X.Number) {k : Bytes}
      → name_at i fs ≡ some k
      → X.get m k ≡ none
      → All (IsNullCell X) (row_cell X i fs m) × (length (row_cell X i fs m) ≡ 1)
  row_cell-null i [] m h e = absurd (ground arith)
  row_cell-null zero (f ∷ fs) m {k} h e =
      let same : f.name ≡ k = ground arith in
      let got : X.get m f.name ≡ none = ap (X.get m) same ∙ e in
      rw got ((cell-IsNullCell X (kind_of f.data_type), tt), refl)
  row_cell-null (suc i) (f ∷ fs) m h e = row_cell-null i fs m h e

  rows_column-null :
      (i : ℕ) (k : Bytes) (ms : List (Fields X.Number))
      → c.flatten_json ≡ true
      → name_at i c.schema ≡ some k
      → Lacks b'_' k
      → All (NestedAt X k) ms
      → All (IsNullCell X) (rows_column X A c i ms) × (length (rows_column X A c i ms) ≡ length ms)
  rows_column-null i k [] f h l n = (tt, refl)
  rows_column-null i k (m ∷ ms) f h l n =
      let lost : X.get (shape X A c m) k ≡ none = rw f (get-flatten_nested X m k l n.0) in
      let (lost_cell, one) = row_cell-null i c.schema (shape X A c m) h lost in
      let (lost_cells, same) = rows_column-null i k ms f h l n.1 in
      (
        All-append (IsNullCell X) (row_cell X i c.schema (shape X A c m)) (rows_column X A c i ms)
            lost_cell lost_cells,
        length-append (row_cell X i c.schema (shape X A c m)) (rows_column X A c i ms)
            ∙ omega (arith, one, same),
      )

  -- If the schema is inferred, a sampled record has an object at a key without `_`, and every
  -- record of the chunk that is an object holds there nothing but objects, and no object at the
  -- empty key, then a chunk that is parsed with `flatten` and without a limit has a column of that
  -- name, with one cell for each of these records, and each cell is null.
  pub nested_column_lost :
      c.limit ≡ none
      → c.flatten_json ≡ true
      → (bytes : Bytes) (n : ℕ) (k : Bytes) {m nested : Fields X.Number}
      → infer_schema X bytes n ≡ ok c.schema
      → Memᴰ m (accepted X (sample bytes n))
      → X.get m k ≡ some (object nested)
      → Lacks b'_' k
      → (chunk : Bytes) → All (NestedAt X k) (accepted X (records chunk))
      → {p : Parsed X A} → (parse_chunk X A c chunk).result ≡ ok p
      → (i : ℕ) × (name_at i c.schema ≡ some k)
        × (length (column_of X A i p.batches) ≡ length (accepted X (records chunk)))
        × All (IsNullCell X) (column_of X A i p.batches)
  unfolding sampled_types
  nested_column_lost u f bytes n k {m} {nested} s g o l chunk a {p} h =
      let typed : any_typed (sampled_types X bytes n k) ≡ true =
        ap any_typed (types_of-parsed X k (sample bytes n))
        ∙ any_typed-object X k m (any_typed-types_in X m k o) g in
      let (i, at) = contains-place c.schema k ((infer_schema-names X bytes n s).1 k ∙ typed) in
      let (lost_cells, same) = rows_column-null i k (accepted X (records chunk)) f at l a in
      let cells = parse_chunk-column X A c u chunk i h in
      (i, at, ap length cells ∙ same, subst (All (IsNullCell X)) (sym cells) lost_cells)
