-- ===== src/DataType.antt =====
-- The part of crates/parq-schema/src/lib.rs that is about `arrow::datatypes::DataType`: its names,
-- and the promotion of a column's type. `other` stands for the variants that the crates never name.
pub mod Order
pub mod Names
mod Examples
use parq.Prelude.{ℕ, ◌+◌, Bool, Bytes, codes, ◌==◌, str_eq, if◌then◌else◌}

pub data DataType : Type 0 where
  null boolean int8 int16 int32 int64 uint8 uint16 uint32 uint64 : DataType
  float32 float64 date32 timestamp_us utf8 : DataType
  other : ℕ → DataType

-- The place of a variant in the enumeration, by which two types are compared.
abbrev pub tag : DataType → ℕ
tag null = 0
tag boolean = 1
tag int64 = 2
tag float64 = 3
tag utf8 = 4
tag int8 = 5
tag int16 = 6
tag int32 = 7
tag uint8 = 8
tag uint16 = 9
tag uint32 = 10
tag uint64 = 11
tag float32 = 12
tag date32 = 13
tag timestamp_us = 14
tag (other n) = 15 + n

-- `a == b`
abbrev pub type_eq : DataType → DataType → Bool
type_eq a b = tag a == tag b

-- The `match` of `merge`, for types that differ.
unfoldable pub merge_distinct : DataType → DataType → DataType
merge_distinct null x = x
merge_distinct x null = x
merge_distinct boolean int64 = int64
merge_distinct int64 boolean = int64
merge_distinct boolean float64 = float64
merge_distinct float64 boolean = float64
merge_distinct int64 float64 = float64
merge_distinct float64 int64 = float64
merge_distinct _ _ = utf8

unfoldable pub merge : DataType → DataType → DataType
unfolding merge_distinct
merge a b = if type_eq a b then a else merge_distinct a b

unfoldable pub str_to_datatype : Bytes → DataType
str_to_datatype s =
    if str_eq s (codes "Boolean")
    then boolean
    else if str_eq s (codes "Int8")
    then int8
    else if str_eq s (codes "Int16")
    then int16
    else if str_eq s (codes "Int32")
    then int32
    else if str_eq s (codes "Int64")
    then int64
    else if str_eq s (codes "UInt8")
    then uint8
    else if str_eq s (codes "UInt16")
    then uint16
    else if str_eq s (codes "UInt32")
    then uint32
    else if str_eq s (codes "UInt64")
    then uint64
    else if str_eq s (codes "Float32")
    then float32
    else if str_eq s (codes "Float64")
    then float64
    else if str_eq s (codes "Date32")
    then date32
    else if str_eq s (codes "Timestamp")
    then timestamp_us
    else utf8

unfoldable pub datatype_to_str : DataType → Bytes
datatype_to_str boolean = codes "Boolean"
datatype_to_str int8 = codes "Int8"
datatype_to_str int16 = codes "Int16"
datatype_to_str int32 = codes "Int32"
datatype_to_str int64 = codes "Int64"
datatype_to_str uint8 = codes "UInt8"
datatype_to_str uint16 = codes "UInt16"
datatype_to_str uint32 = codes "UInt32"
datatype_to_str uint64 = codes "UInt64"
datatype_to_str float32 = codes "Float32"
datatype_to_str float64 = codes "Float64"
datatype_to_str date32 = codes "Date32"
datatype_to_str _ = codes "Utf8"
