-- ===== src/Lib.antt =====
-- parq turns newline-delimited JSON into Parquet. `run_pipeline` maps the input file, infers a schema
-- from its head or loads one, cuts the bytes into chunks behind newlines, parses the chunks in
-- parallel into Arrow batches, and passes the batches through a bounded channel to one writer thread;
-- lines that lenient mode skips go through an unbounded channel to a quarantine file.
--
-- The parts, and the code that they model:
--   Chunk      crates/parq-chunk/src/lib.rs: `fixed_chunks`, `snap_to_newline`, `count_lines`,
--              `offset_after_n_lines`, by the same names; each loop is a function by clauses of the
--              loop's variables (`chunk_loop`, `snap_loop`, `offset_loop`).
--   DataType   the part of crates/parq-schema/src/lib.rs about `arrow::datatypes::DataType`: `merge`,
--              `str_to_datatype`, `datatype_to_str`.
--   Schema     the rest of that file: `infer_schema`, with its local variables in `InferState` and its
--              loops as `infer_lines` and `infer_entries`, `load_schema_from_file`,
--              `schema_to_json_string`, `strip_bom`, `value_type`, `promote`.
--   Error      crates/parq-error/src/lib.rs: `ParqError`; `Failure` is what an `anyhow::Error` holds, and
--              Error.Display has the texts of both, over the texts of foreign errors.
--   Flatten    crates/parq-flatten/src/lib.rs: `flatten_object`, `flatten_rec`.
--   Columns    `ColBuilder` of crates/parq-parser/src/lib.rs: `new`, `append`, `finish`. Columns.Cells
--              says what cell a value becomes in a column of each sort.
--   Parser     `parse_chunk` and `flush` of that file. `ParseState` has the local variables, `Round` is
--              how a round of the loop ends, `Run` has the lines that a call sends to quarantine beside
--              what it returns. Parser.Simd is the build with the `simd` feature, over a parameter for
--              simd_json.
--   Prepare    crates/parq-core/src/lib.rs: `PipelineConfig`, and `run_pipeline` up to its threads.
--   Pipeline   the threads of `run_pipeline`: one `Move` for each thing that a task does to the shared
--              state, one `Drain` for each thing that a writer thread does, `Step` for either of them
--              at any task, `Reach` for the states that a schedule leads to, and `returned` for what
--              the call returns in a state.
--   Io         crates/parq-io/src/lib.rs: `ParquetStreamWriter` (`new_writer`, `write_batch`,
--              `close_writer`), the body of the writer thread (`writer_thread`, and `write_batches` for its
--              loop), and `parse_compression`. `Parquet` is a parameter for the parquet crate and the file.
--   Metrics    crates/parq-metrics/src/lib.rs: `ProcessingMetrics`, its three ratios, and the printed
--              report as a list of lines. `Floats` is a parameter for `f64`.
--   Run        crates/parq-core/src/lib.rs: `run_pipeline` as a whole, as the relation
--              `PipelineReturns` between the configuration, the batches written and the result;
--              `Readings` has what it reads off the machine. Run.File has its writer thread with the
--              writer of Io, and `provenance_hash` over a parameter for sha2.
--   Cli        crates/parq/src/main.rs: `main` as a function of the parsed arguments, of the input file
--              and of the pipeline's run; `Ended` is the exit code with the two streams. `log_setup` is
--              the subscriber that it installs, and Cli.Subscriber the parameter for what that writes.
--              Cli.Payload has the payloads of docs/telemetry.md.
--   Python     crates/parq-python/src/lib.rs: `convert`, in the same way.
--   Text       std's splitting and trimming of byte slices; Text.Decimal, its output of numbers and its
--              padding; Dict, std's `HashMap`; Json, the values of serde_json; Crates, the operations of
--              serde_json, Arrow, Parquet and the file system that the code calls, as a parameter with
--              the documented behaviour that is relied on, and Crates.Toy, a small instance of it for
--              tests. `Parser.Arrow` is such a parameter for `RecordBatch::try_new`.
--   Prelude    what all parts share: tests, lists of the native numbers, results, byte strings.
--
-- Chunk.UnitTests and Flatten.UnitTests are the unit tests of those two files.
--
-- How the parts meet: Pipeline calls Parser, Parser calls Columns and Flatten, Prepare calls Schema and
-- Chunk, and Schema calls DataType. Run puts Prepare, Pipeline and Io together; Cli and Python take a
-- run as an argument, and a theorem on a whole process asks that the run be one that `PipelineReturns`
-- allows. What Arrow does with the columns of a batch is asked for by a theorem where it matters, as
-- `Parser.Total.AcceptsMatching` and `RejectsMismatch`, `Parser.Mismatch.RejectsEmpty` and
-- `Run.File.CountsRows`; so is the debug form of a text, which has no newline, in Cli.Payload, and what serde_json does with a byte order mark, `Parser.Bom.RejectsBom`.
-- Text.records says what a record of a file is: a line, trimmed, that is not blank.
--
-- Numbers and bounds. A byte string is the list of its bytes. Indices and counters that stay below the
-- length of a slice are plain numbers; `start + window` is reduced modulo 2^64, since the caller chooses
-- the window, and the theorems ask for a slice of at most isize::MAX bytes and a window below 2^64.
-- `snap_loop` has as fuel the bytes that are left, `chunk_loop` one more than the length of the input,
-- which is enough since each round takes at least one byte: out of fuel and a panic are both `none`, and
-- `Prepare.Halt` keeps them apart from the errors that `run_pipeline` returns. All other loops go over
-- lists.
--
-- Memory. Vectors, channels and builders have no bound in the model, and no capacity. So three panics are
-- outside it: that of an allocation whose capacity is too large or cannot be had (a huge batch size or
-- channel depth, or a slice of 2^59 bytes in `fixed_chunks`), that of a `StringBuilder` with more than
-- i32::MAX bytes of text in one batch, and that of a print to a closed stream. Parser.Capacity has the
-- bytes that string builders get.
--
-- Not modelled: the parsing of arguments, which clap's macro generates, the help text and the
-- allocator; PyO3 and the GIL; how a float or a duration is printed; benches and scripts; the texts of
-- log messages, timing and the size of the thread pool: a step relation that lets any task move at any
-- time has the runs of every pool. A theorem on the output up to the order of its batches says so with
-- `Pipeline.Output.Bag`, a quotient of lists.
pub mod Prelude
pub mod Text
pub mod Chunk
pub mod Json
pub mod DataType
pub mod Crates
pub mod Error
pub mod Dict
pub mod Schema
pub mod Flatten
pub mod Columns
pub mod Parser
pub mod Prepare
pub mod Pipeline
pub mod Io
pub mod Metrics
pub mod Run
pub mod Cli
pub mod Python
