-- ===== src/Columns/Types.antt =====
-- The Arrow types of the columns that `ColBuilder` builds, against the types of a schema's fields.
use parq.Prelude.{true, ◌≡◌, refl}
use parq.DataType.{DataType, null, boolean, int64, float64, utf8}
use parq.Crates.{Crates}
use parq.Schema.{Field}
use parq.Columns.{
  ColBuilder, null_builder, bool_builder, int64_builder, float64_builder, str_builder, Array,
  null_array, bool_array, int64_array, float64_array, str_array, finish,
}
use parq.Columns.Cells.{Kind, nulls, bools, integers, floats, texts, kind_of, kind}

abbrev pub kind_type : Kind → DataType
kind_type nulls = null
kind_type bools = boolean
kind_type integers = int64
kind_type floats = float64
kind_type texts = utf8

-- A type that a builder's array has: Null, Boolean, Int64, Float64 or Utf8.
abbrev pub IsPlain : DataType → Type 0
IsPlain d = kind_type (kind_of d) ≡ d

-- A field whose column the parser can build.
abbrev pub IsBuildable : Field → Type 0
IsBuildable f = (f.nullable ≡ true) × IsPlain f.data_type

module _ (X : Crates) where
  -- `data_type` of the array that `finish` returns
  abbrev pub array_type : Array X → DataType
  array_type (null_array len) = null
  array_type (bool_array xs) = boolean
  array_type (int64_array xs) = int64
  array_type (float64_array xs) = float64
  array_type (str_array xs) = utf8

  pub array_type-finish : (b : ColBuilder X) → array_type (finish X b) ≡ kind_type (kind X b)
  unfolding finish
  array_type-finish (null_builder len) = refl
  array_type-finish (bool_builder xs) = refl
  array_type-finish (int64_builder xs) = refl
  array_type-finish (float64_builder xs) = refl
  array_type-finish (str_builder xs) = refl
