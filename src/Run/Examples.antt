-- ===== src/Run/Examples.antt =====
-- The theorems on calls of `run_pipeline` at the calls of `Toy`.
use parq.Prelude.{Bytes, some, codes, [], ◌++◌, ◌⊎◌, ◌≡◌, refl, none, arith}
use parq.Prelude.Results.{ok}
use parq.Crates.Toy.{toy}
use parq.Error.{io_error}
use parq.Parser.Toy.{toy_arrow, toy_accepts}
use parq.Pipeline.{WriterFailure, DeadWriterFailure}
use parq.Run.Lenient.{run_pipeline-lenient}
use parq.Schema.{Schema}
use parq.Prepare.{pipeline_schema}
use parq.Run.Toy.{
  input, map_input, no_file, lenient_config, strict_config, strict_error, written, run_metrics,
  lenient_call, strict_call, broken_call, input_inferred,
}
use parq.Prepare.{snappy}
use parq.Io.{properties, ParquetStreamWriter}
use parq.Io.Toy.{toy_parquet}
use parq.Run.{Digest}
use parq.Run.Table.{IsConverted, run_pipeline-IsConverted}
use parq.Run.Ending.{ErrorSource, run_pipeline-ErrorSource}

run_pipeline-IsConverted_example :
    (schema : Schema) × (pipeline_schema toy toy_arrow no_file none input ≡ ok schema)
    × IsConverted toy toy_arrow map_input no_file lenient_config schema input written run_metrics
run_pipeline-IsConverted_example =
    run_pipeline-IsConverted toy toy_arrow map_input no_file lenient_config refl (omega arith) input
      refl (omega arith) lenient_call refl

run_pipeline-ErrorSource_example :
    ErrorSource toy toy_arrow map_input no_file strict_config strict_call strict_error
run_pipeline-ErrorSource_example =
    run_pipeline-ErrorSource toy toy_arrow map_input no_file strict_config strict_call refl

run_pipeline-lenient_example :
    WriterFailure toy toy_arrow (io_error 13) ⊎ DeadWriterFailure toy toy_arrow (io_error 13)
run_pipeline-lenient_example =
    run_pipeline-lenient toy toy_arrow map_input no_file lenient_config refl refl toy_accepts
      (omega arith) input refl (omega arith) input_inferred (λ e. cc) broken_call refl

-- a digest for tests: the text itself
abbrev toy_digest : Digest
toy_digest = record {
  Hasher = Bytes;
  new = [];
  update = λ h s. h ++ s;
  finalize = λ h. h;
  lower_hex = λ s. s;
}

abbrev stored : ParquetStreamWriter toy toy_arrow toy_parquet
stored = record {
  inner = (properties snappy (some input) (codes "0"), written);
  batches_written = 2;
  rows_written = 2;
}
