-- ===== src/Error.antt =====
-- crates/parq-error/src/lib.rs: `ParqError`, and what an `anyhow::Error` of the crates can hold.
pub mod Display
use parq.Prelude.{ℕ, Bytes}
use parq.Crates.{Crates}

pub data ParqError (X : Crates) : Type 0 where
  io : X.IoError → ParqError X
  json_parse : (line : ℕ) (source : X.JsonError) → ParqError X
  insufficient_data : (rows : ℕ) → ParqError X
  type_mismatch : (field expected found : Bytes) (line : ℕ) → ParqError X
  arrow : X.ArrowError → ParqError X
  parquet : X.ParquetError → ParqError X
  config : Bytes → ParqError X

-- Where `?` or `.into()` makes an `anyhow::Error`, the error's own type is kept: a foreign error
-- passed on by `?` is no `ParqError`.
pub data Failure (X : Crates) : Type 0 where
  parq_error : ParqError X → Failure X
  io_error : X.IoError → Failure X
  json_error : X.JsonError → Failure X
  arrow_error : X.ArrowError → Failure X
  parquet_error : X.ParquetError → Failure X
  message : Bytes → Failure X
