-- ===== src/DataType/Names.antt =====
-- The names of types, written and read back.
use parq.Prelude.{◌≡◌, refl, str_eq}
use parq.DataType.{DataType, null, timestamp_us, utf8, other, str_to_datatype, datatype_to_str}

-- What a type is read back as: the types that have no name of their own become strings.
abbrev pub named : DataType → DataType
named null = utf8
named timestamp_us = utf8
named (other n) = utf8
named d = d

-- A written type name is read back as the same type, but for Null, Timestamp and the types that
-- the crates do not name, which come back as Utf8.
pub str_to_datatype-datatype_to_str : (d : DataType) → str_to_datatype (datatype_to_str d) ≡ named d
unfolding str_to_datatype datatype_to_str str_eq
str_to_datatype-datatype_to_str null = refl
str_to_datatype-datatype_to_str _ = refl
