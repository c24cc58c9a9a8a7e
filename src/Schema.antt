-- ===== src/Schema.antt =====
-- crates/parq-schema/src/lib.rs: a schema inferred from the head of the file, or loaded from a
-- schema file, or written to one. The `HashMap` of types is an association list.
pub mod Sample
pub mod Infer
pub mod Names
pub mod Columns
pub mod Types
pub mod Errors
pub mod File
pub mod Reload
pub mod Reported
mod Examples
use parq.Prelude.{
  ℕ, zero, suc, ◌+◌, Bool, true, false, not, ◌&&◌, Option, none, some, List, [], ◌∷◌, ◌++◌, map,
  Bytes, codes, newline, take, str_eq, ◌==◌, if◌then◌else◌,
}
use parq.Prelude.Results.{Result, ok, err, ◌>>=◌}
use parq.Text.{is_empty, split_lines, trim}
use parq.Json.{Value, bool, number, string, array, object, Fields, end, entry}
use parq.Json
use parq.DataType.{
  DataType, null, boolean, int64, float64, utf8, type_eq, merge, str_to_datatype, datatype_to_str,
}
use parq.Dict.{lookup, put}
use parq.Crates.{Crates}
use parq.Error.{Failure, parq_error, io_error, json_error, json_parse, insufficient_data}

-- `arrow::datatypes::Field`; a `Schema` is the list of its fields.
pub record Field : Type 0 where
  pub name : Bytes
  pub data_type : DataType
  pub nullable : Bool

abbrev pub Schema : Type 0
Schema = List Field

abbrev pub unwrap_or {ℓ} : {A : Type ℓ} → Option A → A → A
unwrap_or none d = d
unwrap_or (some a) d = a

-- The bytes `EF BB BF`, which are also the text "\u{feff}".
abbrev pub bom : Bytes
bom = 0xef ∷ 0xbb ∷ 0xbf ∷ []

-- `data.strip_prefix(…).unwrap_or(data)`
unfoldable pub strip_bom : Bytes → Bytes
strip_bom (a ∷ b ∷ c ∷ s) = if a == 0xef && b == 0xbb && c == 0xbf then s else a ∷ b ∷ c ∷ s
strip_bom s = s

module _ (X : Crates) where
  open X use {
    Number, is_i64, from_slice, from_str_vec, to_string_pretty, insert, index, as_str, as_bool,
  }

  unfoldable pub value_type : Value Number → DataType
  value_type Json.null = null
  value_type (bool b) = boolean
  value_type (number n) = if is_i64 n then int64 else float64
  value_type _ = utf8

  unfoldable pub promote : DataType → Value Number → DataType
  promote current value = merge current (value_type value)

  -- The local variables of `infer_schema`.
  pub record InferState : Type 0 where
    pub field_types : List (Bytes × DataType)
    pub field_order : List Bytes
    pub rows_seen : ℕ

  abbrev pub infer_start : InferState
  infer_start = record { field_types = []; field_order = []; rows_seen = 0 }

  -- `field_types.entry(key).or_insert(DataType::Null)`
  abbrev pub entry_type : Bytes → InferState → DataType
  entry_type key st = unwrap_or (lookup key st.field_types) null

  -- The body of the loop over an object's entries.
  unfoldable pub infer_entry : Bytes → Value Number → InferState → InferState
  infer_entry key val st =
      let promoted = promote (entry_type key st) val in
      record st {
        field_types = put key promoted st.field_types;
        field_order =
            if type_eq (entry_type key st) null && not (type_eq promoted null)
            then st.field_order ++ key ∷ []
            else st.field_order;
      }

  unfoldable pub infer_entries : Fields Number → InferState → InferState
  infer_entries end st = st
  infer_entries (entry key val rest) st = infer_entries rest (infer_entry key val st)

  -- `if let Value::Object(obj) = value { … } rows_seen += 1;`
  unfoldable pub infer_value : Value Number → InferState → InferState
  infer_value (object m) st =
      let st' = infer_entries m st in record st' { rows_seen = st'.rows_seen + 1 }
  infer_value v st = record st { rows_seen = st.rows_seen + 1 }

  -- One round of the loop over the lines.
  unfoldable pub infer_line : Bytes → InferState → Result (Failure X) InferState
  infer_line line st = if is_empty (trim line) then ok st else elim (from_slice (trim line)) [
    | ok value ↦ ok (infer_value value st)
    | err e ↦ err (parq_error (json_parse (st.rows_seen + 1) e))
  ]

  unfoldable pub infer_lines : List Bytes → InferState → Result (Failure X) InferState
  infer_lines [] st = ok st
  infer_lines (line ∷ lines) st = infer_line line st >>= λ st'. infer_lines lines st'

  -- The field made of a name in `field_order`.
  unfoldable pub infer_field : InferState → Bytes → Field
  infer_field st name = record {
    name = name;
    data_type = unwrap_or (lookup name st.field_types) utf8;
    nullable = true;
  }

  unfoldable pub finish_schema : InferState → Result (Failure X) Schema
  finish_schema st =
      if st.rows_seen == 0
      then err (parq_error (insufficient_data 0))
      else ok (map (infer_field st) st.field_order)

  unfoldable pub infer_schema : Bytes → ℕ → Result (Failure X) Schema
  infer_schema bytes sample_size =
      infer_lines (take sample_size (split_lines (strip_bom bytes))) infer_start >>= finish_schema

  -- One entry of a schema file.
  unfoldable pub load_field : Value Number → Field
  load_field e = record {
    name = unwrap_or (as_str (index e (codes "name"))) (codes "unknown");
    data_type = str_to_datatype (unwrap_or (as_str (index e (codes "type"))) (codes "Utf8"));
    nullable = unwrap_or (as_bool (index e (codes "nullable"))) true;
  }

  -- `read_to_string` is the file system's.
  unfoldable pub load_schema_from_file :
      (read_to_string : Bytes → Result X.IoError Bytes) (path : Bytes) → Result (Failure X) Schema
  load_schema_from_file read_to_string path = elim (read_to_string path) [
    | err e ↦ err (io_error e)
    | ok content ↦ elim (from_str_vec (strip_bom content)) [
      | err e ↦ err (json_error e)
      | ok entries ↦ ok (map load_field entries)
    ]
  ]

  -- `json!({ "name": …, "type": …, "nullable": … })`
  unfoldable pub field_to_json : Field → Value Number
  field_to_json f = object (
      insert
        (insert (insert end (codes "name") (string f.name)) (codes "type")
          (string (datatype_to_str f.data_type)))
        (codes "nullable") (bool f.nullable))

  unfoldable pub schema_to_json_string : Schema → Result (Failure X) Bytes
  schema_to_json_string schema = ok (to_string_pretty (map field_to_json schema))
