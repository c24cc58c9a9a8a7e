-- ===== src/Io.antt =====
-- crates/parq-io/src/lib.rs: the writer of the output file and the names of the codecs. The parquet
-- crate's `ArrowWriter` and the file system are a parameter; the counters are plain numbers, since
-- no machine writes 2^64 rows. Logging is left out.
pub mod Counters
pub mod Codecs
pub mod Toy
mod Examples
use parq.Prelude.{
  ℕ, ◌+◌, ◌≡◌, Option, none, some, List, [], ◌∷◌, ◌++◌, Bytes, codes, str_eq, if◌then◌else◌,
}
use parq.Prelude.Results.{Result, ok, err, ◌>>=◌}
use parq.Crates.{Crates}
use parq.Error.{Failure, io_error, parquet_error, message}
use parq.Schema.{Schema}
use parq.Parser.{Arrow}
use parq.Prepare.{Compression, snappy, gzip, brotli, zstd, lz4, uncompressed}

-- `parquet::file::properties::WriterProperties`, as far as it is set.
pub record WriterProperties : Type 0 where
  pub compression : Compression
  pub max_row_group_size : ℕ
  pub created_by : Bytes
  pub key_values : Option (List (Bytes × Bytes))

-- `File::create`, `ArrowWriter` and `num_rows`. `content` is what a writer has been given, and
-- `settings` are the properties that it was made with.
pub record Parquet (X : Crates) (A : Arrow X) : Type 1 where
  pub File : Type 0
  pub ArrowWriter : Type 0
  pub create : Bytes → Result X.IoError File
  pub try_new : File → Schema → WriterProperties → Result X.ParquetError ArrowWriter
  pub write : ArrowWriter → A.RecordBatch → Result X.ParquetError ArrowWriter
  pub finish : ArrowWriter → Result X.ParquetError (Unit {0})
  pub num_rows : A.RecordBatch → ℕ
  pub content : ArrowWriter → List A.RecordBatch
  pub settings : ArrowWriter → WriterProperties
  pub content-try_new :
      (file : File) (schema : Schema) (props : WriterProperties) {w : ArrowWriter}
      → try_new file schema props ≡ ok w
      → content w ≡ []
  pub content-write :
      (w : ArrowWriter) (b : A.RecordBatch) {w' : ArrowWriter}
      → write w b ≡ ok w'
      → content w' ≡ content w ++ b ∷ []
  pub settings-try_new :
      (file : File) (schema : Schema) (props : WriterProperties) {w : ArrowWriter}
      → try_new file schema props ≡ ok w
      → settings w ≡ props
  pub settings-write :
      (w : ArrowWriter) (b : A.RecordBatch) {w' : ArrowWriter}
      → write w b ≡ ok w'
      → settings w' ≡ settings w

-- The builder's calls in `new`.
abbrev pub properties : Compression → Option Bytes → Bytes → WriterProperties
properties compression provenance_hash unix_ts = record {
  compression = compression;
  max_row_group_size = 1048576;
  created_by = codes "parq/0.2.0";
  key_values = elim provenance_hash [
    | none ↦ none
    | some hash ↦
        some (
          (codes "parq.provenance.sha256", hash)
          ∷ (codes "parq.provenance.timestamp", unix_ts)
          ∷ [])
  ];
}

module _ (X : Crates) (A : Arrow X) (Q : Parquet X A) where
  open Q use {ArrowWriter, num_rows}

  pub record ParquetStreamWriter : Type 0 where
    pub inner : ArrowWriter
    pub batches_written : ℕ
    pub rows_written : ℕ

  -- `ParquetStreamWriter::new`; `unix_ts` is what the clock says.
  unfoldable pub new_writer :
      Bytes
      → Schema
      → Compression
      → Option Bytes
      → (unix_ts : Bytes) → Result (Failure X) ParquetStreamWriter
  new_writer path schema compression provenance_hash unix_ts = elim (Q.create path) [
    | err e ↦ err (io_error e)
    | ok file ↦ elim (Q.try_new file schema (properties compression provenance_hash unix_ts)) [
      | err e ↦ err (parquet_error e)
      | ok w ↦ ok (record { inner = w; batches_written = 0; rows_written = 0 })
    ]
  ]

  unfoldable pub write_batch :
      ParquetStreamWriter → A.RecordBatch → Result (Failure X) ParquetStreamWriter
  write_batch w batch = elim (Q.write w.inner batch) [
    | err e ↦ err (parquet_error e)
    | ok inner ↦ ok (record {
      inner = inner;
      batches_written = w.batches_written + 1;
      rows_written = w.rows_written + num_rows batch;
    })
  ]

  -- `for batch in rx { w.write_batch(&batch)?; }` of the writer thread.
  unfoldable pub write_batches :
      ParquetStreamWriter → List A.RecordBatch → Result (Failure X) ParquetStreamWriter
  write_batches w [] = ok w
  write_batches w (b ∷ bs) = write_batch w b >>= λ w'. write_batches w' bs

  unfoldable pub close_writer : ParquetStreamWriter → Result (Failure X) (Unit {0})
  close_writer w = elim (Q.finish w.inner) [ err e ↦ err (parquet_error e) | ok u ↦ ok tt ]

  -- The body of the writer thread, for the batches that it receives before the channel is closed.
  unfoldable pub writer_thread :
      Bytes
      → Schema
      → Compression
      → Option Bytes
      → (unix_ts : Bytes) → List A.RecordBatch
      → Result (Failure X) ParquetStreamWriter
  writer_thread path schema compression provenance_hash unix_ts batches =
      new_writer path schema compression provenance_hash unix_ts >>= λ w.
      write_batches w batches >>= λ w'. close_writer w' >>= λ u. ok w'

-- `COMPRESSION_OPTIONS`
abbrev pub compression_options : List Bytes
compression_options =
    codes "snappy" ∷ codes "gzip" ∷ codes "brotli" ∷ codes "zstd" ∷ codes "lz4" ∷ codes "none" ∷ []

module _ (X : Crates) (to_lowercase : Bytes → Bytes) where
  -- The error's text, and the `match` on the name in lower case.
  abbrev unknown : Bytes → Bytes
  unknown other =
      codes "Unknown compression '"
      ++ other
      ++ codes "'. Options: [\"snappy\", \"gzip\", \"brotli\", \"zstd\", \"lz4\", \"none\"]"

  unfoldable pub codec : Bytes → Result (Failure X) Compression
  codec s =
      if str_eq s (codes "snappy")
      then ok snappy
      else if str_eq s (codes "gzip")
      then ok gzip
      else if str_eq s (codes "brotli")
      then ok brotli
      else if str_eq s (codes "zstd")
      then ok zstd
      else if str_eq s (codes "lz4")
      then ok lz4
      else if str_eq s (codes "none")
      then ok uncompressed
      else if str_eq s (codes "uncompressed")
      then ok uncompressed
      else err (message (unknown s))

  unfoldable pub parse_compression : Bytes → Result (Failure X) Compression
  unfolding codec
  parse_compression s = codec (to_lowercase s)
