-- ===== src/Schema/File.antt =====
-- A schema written to a file and loaded from it.
use parq.Prelude.{◌≡◌, refl, subst, [], ◌∷◌, ◌++◌, map, Bytes, codes, str_eq}
use parq.Prelude.Results.{Result, ok}
use parq.Json.{string, bool, object, Fields, end}
use parq.DataType.{datatype_to_str}
use parq.DataType.Names.{named, str_to_datatype-datatype_to_str}
use parq.Crates.{Crates}
use parq.Schema.{
  Field, Schema, strip_bom, load_field, load_schema_from_file, field_to_json, schema_to_json_string,
}

-- The field with the type that its type's name is read back as.
abbrev pub renamed : Field → Field
renamed f = record f { data_type = named f.data_type }

strip_bom-bracket : (s : Bytes) → strip_bom (b'[' ∷ s) ≡ b'[' ∷ s
unfolding strip_bom
strip_bom-bracket [] = refl
strip_bom-bracket (a ∷ []) = refl
strip_bom-bracket (a ∷ b ∷ s) = refl

module _ (X : Crates) where
  open X use {from_str_vec, to_string_pretty, insert}

  abbrev entries : Field → Fields X.Number
  entries f =
      insert
        (insert (insert end (codes "name") (string f.name)) (codes "type")
          (string (datatype_to_str f.data_type)))
        (codes "nullable") (bool f.nullable)

  at_name : (f : Field) → X.index (object (entries f)) (codes "name") ≡ string f.name
  unfolding str_eq
  at_name f = X.index-object (entries f) (codes "name") (simp X.get-insert)

  at_type :
      (f : Field)
      → X.index (object (entries f)) (codes "type") ≡ string (datatype_to_str f.data_type)
  unfolding str_eq
  at_type f = X.index-object (entries f) (codes "type") (simp X.get-insert)

  at_nullable : (f : Field) → X.index (object (entries f)) (codes "nullable") ≡ bool f.nullable
  unfolding str_eq
  at_nullable f = X.index-object (entries f) (codes "nullable") (simp X.get-insert)

  load_field-field_to_json : (f : Field) → load_field X (field_to_json X f) ≡ renamed f
  unfolding load_field field_to_json
  load_field-field_to_json f = rw (
    at_name f,
    at_type f,
    at_nullable f,
    X.as_str-string,
    X.as_str-string,
    X.as_bool-bool,
    str_to_datatype-datatype_to_str,
  )

  map-load_field :
      (schema : Schema) → map (load_field X) (map (field_to_json X) schema) ≡ map renamed schema
  map-load_field [] = refl
  map-load_field (f ∷ fs) = cc (load_field-field_to_json f, map-load_field fs)

  -- A file that begins with a written schema, and whose text serde_json reads back as the values
  -- that the schema was made of, is loaded as the schema with the same names and nullability in the
  -- same order, and with the types that are read back for their names: all but Null, Timestamp and
  -- the types without a name come back as they were.
  pub load_schema-written :
      (schema : Schema) (path : Bytes) (read_to_string : Bytes → Result X.IoError Bytes)
      (text tail : Bytes)
      → schema_to_json_string X schema ≡ ok text
      → read_to_string path ≡ ok (text ++ tail)
      → from_str_vec (text ++ tail) ≡ ok (map (field_to_json X) schema)
      → load_schema_from_file X read_to_string path ≡ ok (map renamed schema)
  unfolding load_schema_from_file schema_to_json_string
  load_schema-written schema path read_to_string text tail w r p =
      let (s, head) = X.to_string_pretty-head (map (field_to_json X) schema) in
      let text_eq : b'[' ∷ s ≡ text = cc in
      let no_bom : strip_bom (text ++ tail) ≡ text ++ tail =
        subst (λ t. strip_bom (t ++ tail) ≡ t ++ tail) text_eq (strip_bom-bracket (s ++ tail)) in
      rw (r, load_schema_from_file, no_bom, p, map-load_field schema)
