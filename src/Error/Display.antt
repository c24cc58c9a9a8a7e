-- ===== src/Error/Display.antt =====
-- The texts of errors: the `#[error]` lines of crates/parq-error/src/lib.rs, over the texts of the
-- foreign errors, which are a parameter. A text is the list of its characters.
use parq.Prelude.{◌++◌, Bytes, codes}
use parq.Text.Decimal.{decimal}
use parq.Crates.{Crates}
use parq.Error.{
  ParqError, io, json_parse, insufficient_data, type_mismatch, arrow, parquet, config, Failure,
  parq_error, io_error, json_error, arrow_error, parquet_error, message,
}

-- `to_string` of the foreign errors, `format!("{s:?}")` of a text, and the debug form of an
-- `anyhow::Error`, which `main` prints.
pub record Shown (X : Crates) : Type 0 where
  pub io_text : X.IoError → Bytes
  pub json_text : X.JsonError → Bytes
  pub arrow_text : X.ArrowError → Bytes
  pub parquet_text : X.ParquetError → Bytes
  pub quoted : Bytes → Bytes
  pub debug_error : Failure X → Bytes

module _ (X : Crates) (S : Shown X) where
  unfoldable pub parq_text : ParqError X → Bytes
  parq_text (io e) = codes "I/O error: " ++ S.io_text e
  parq_text (json_parse line source) =
      codes "JSON parse error on line " ++ decimal line ++ codes ": " ++ S.json_text source
  parq_text (insufficient_data rows) =
      codes "Schema inference failed: file has "
      ++ decimal rows
      ++ codes " parseable records (need ≥ 1)"
  parq_text (type_mismatch field expected found line) =
      codes "Type mismatch in field '"
      ++ field
      ++ codes "' on line "
      ++ decimal line
      ++ codes ": expected "
      ++ expected
      ++ codes ", found "
      ++ found
  parq_text (arrow e) = codes "Arrow error: " ++ S.arrow_text e
  parq_text (parquet e) = codes "Parquet error: " ++ S.parquet_text e
  parq_text (config s) = codes "Configuration error: " ++ s

  -- `err.to_string()`
  unfoldable pub failure_text : Failure X → Bytes
  unfolding parq_text
  failure_text (parq_error e) = parq_text e
  failure_text (io_error e) = S.io_text e
  failure_text (json_error e) = S.json_text e
  failure_text (arrow_error e) = S.arrow_text e
  failure_text (parquet_error e) = S.parquet_text e
  failure_text (message s) = s
