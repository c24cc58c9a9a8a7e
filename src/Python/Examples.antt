-- ===== src/Python/Examples.antt =====
-- Python and the command line at a call with a codec in capitals.
use parq.Prelude.{◌≡◌, ◌==◌, refl, true, false, codes}
use parq.Prelude.Results.{Result, ok}
use parq.Crates.Toy.{toy}
use parq.Error.{Failure}
use parq.Metrics.{ProcessingMetrics}
use parq.Metrics.Toy.{toy_floats}
use parq.Prepare.{PipelineConfig, default_config}
use parq.Run.Toy.{map_input, run_metrics}
use parq.Cli.{default_cli, cli_config, main}
use parq.Cli.Toy.{toy_shown, lower_ascii, toy_tracing}
use parq.Python.{Arguments, default_arguments, convert_config, convert}
use parq.Python.Agreement.{as_cli, value_of, is_ok, convert-agree}

abbrev arguments : Arguments
arguments = record (default_arguments (codes "in") (codes "out")) { compression = codes "ZSTD" }

abbrev succeeding : PipelineConfig → Result (Failure toy) ProcessingMetrics
succeeding config = ok run_metrics

convert-agree_example :
    (value_of (convert_config lower_ascii arguments)
      ≡ value_of
          (cli_config toy toy_shown toy_floats lower_ascii (as_cli true arguments) (codes "out")))
    × (is_ok toy toy_shown toy_floats lower_ascii
          (convert toy toy_shown lower_ascii succeeding arguments)
        ≡ ((main toy toy_shown toy_floats lower_ascii toy_tracing map_input succeeding
              (as_cli true arguments)).code
            == 0))
    × (as_cli false (default_arguments (codes "in") (codes "out"))
        ≡ default_cli (codes "in") (codes "out"))
    × (convert_config lower_ascii (default_arguments (codes "in") (codes "out"))
        ≡ ok (record default_config { input_path = codes "in"; output_path = codes "out" }))
convert-agree_example =
    convert-agree toy toy_shown toy_floats lower_ascii refl toy_tracing map_input arguments true
      succeeding
