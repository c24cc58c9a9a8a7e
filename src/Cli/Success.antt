-- ===== src/Cli/Success.antt =====
-- What crates/parq/src/main.rs prints for a run of the pipeline that succeeds, with telemetry.
use parq.Prelude.{
  ◌≤◌, ◌≡◌, refl, ap, ◌∙◌, true, false, none, some, List, [], ◌++◌, arith, Bytes, codes, length,
}
use parq.Prelude.Results.{Result, ok}
use parq.Text.{records}
use parq.Text.Decimal.{decimal}
use parq.Crates.{Crates}
use parq.Error.{Failure}
use parq.Error.Display.{Shown}
use parq.Chunk.{isize_max}
use parq.Chunk.Partition.{IsUsize}
use parq.Metrics.{Floats, ProcessingMetrics}
use parq.Parser.{Arrow}
use parq.Parser.Outcome.{accepted}
use parq.Prepare.{PipelineConfig}
use parq.Run.{PipelineReturns}
use parq.Run.Table.{run_pipeline-IsConverted}
use parq.Cli.Subscriber.{Tracing}
use parq.Cli.Outcome.{silent}
use parq.Cli.{Cli, Ended, line, cli_config, finish_main, convert_to, main}

-- The process that reports a number of rows as telemetry.
abbrev pub reports_rows : Bytes → Ended
reports_rows rows = record {
  stdout = line (codes "{\"status\":\"success\",\"rows_processed\":" ++ rows ++ codes "}");
  stderr = [];
  code = 0;
}

module _ (X : Crates) (S : Shown X) (A : Arrow X) (R : Floats) (to_lowercase : Bytes → Bytes)
    (map_input read_to_string : Bytes → Result X.IoError Bytes) where
  finish-reports_rows :
      (cli : Cli) (m : ProcessingMetrics)
      → cli.machine_telemetry ≡ true
      → finish_main X S R to_lowercase cli (ok m) ≡ reports_rows (decimal m.rows_processed)
  unfolding finish_main
  finish-reports_rows cli m t = simp t refl

  -- With --machine-telemetry and without --limit, if `run_pipeline` returns metrics for the
  -- configuration that the arguments give, then the process ends with 0, prints nothing to stderr,
  -- and prints to stdout one line and nothing else: the success with, in decimal, the number of
  -- records of the input that are objects. The input has at most `isize::MAX` bytes.
  pub main_success :
      (T : Tracing) (cli : Cli) {output : Bytes} {config : PipelineConfig}
      → cli.machine_telemetry ≡ true
      → cli.infer_schema_only ≡ false
      → cli.output ≡ some output
      → cli_config X S R to_lowercase cli output ≡ ok config
      → config.limit ≡ none
      → IsUsize config.chunk_size
      → (bytes : Bytes) → map_input config.input_path ≡ ok bytes
      → length bytes ≤ isize_max
      → {written : List A.RecordBatch} {r : Result (Failure X) ProcessingMetrics}
      → PipelineReturns X A map_input read_to_string config written r
      → {m : ProcessingMetrics} → r ≡ ok m
      → (run_pipeline : PipelineConfig → Result (Failure X) ProcessingMetrics)
      → run_pipeline config ≡ r
      → main X S R to_lowercase T map_input run_pipeline cli
        ≡ reports_rows (decimal (length (accepted X (records bytes))))
  unfolding main convert_to
  main_success T cli {output} {config} t only out c u s bytes e l ends {m} done run same =
      let (schema, loaded, converted) =
        run_pipeline-IsConverted X A map_input read_to_string config u s bytes e l ends done in
      let finished : main X S R to_lowercase T map_input run cli
          ≡ finish_main X S R to_lowercase cli (ok m) =
        ground (arith, only, out, c, same, done, silent T cli t) in
      finished
      ∙ finish-reports_rows cli m t
      ∙ ap (λ n. reports_rows (decimal n)) converted.processed
