-- ===== src/Cli/Examples.antt =====
-- The theorems on the command line at a failing call of `run_pipeline`.
use parq.Prelude.{
  Bytes, ℕ, sym, ap, map, none, [], ◌∷◌, false, length, ◌≡◌, inr, refl, true, some, arith, codes,
  str_eq,
}
use parq.Prelude.Results.{Result, ok, err}
use parq.Crates.Toy.{toy}
use parq.Error.{Failure}
use parq.Metrics.{ProcessingMetrics}
use parq.Metrics.Toy.{toy_floats}
use parq.Io.{parse_compression}
use parq.Io
use parq.Parser.Toy.{toy_arrow}
use parq.Prepare.{PipelineConfig}
use parq.Run.Toy.{
  input, run_metrics, lenient_config, lenient_call, map_input, no_file, strict_error,
}
use parq.Cli.{Cli, default_cli, log_setup, cli_config, finish_main, convert_to, main}
use parq.Crates.Toy.{toy_parse, toy_entries}
use parq.DataType.{int64, merge, datatype_to_str}
use parq.Dict.{lookup, put}
use parq.Text.{split_lines, trim}
use parq.Schema.{
  Schema, infer_schema, infer_line, infer_lines, infer_value, infer_entry, infer_entries,
  infer_field, finish_schema, strip_bom, promote, value_type, field_to_json, schema_to_json_string,
}
use parq.Prepare.{pipeline_schema}
use parq.Cli.{print_schema}
use parq.Cli.Reload.{prints_schema, printed_schema_reloads}
use parq.Cli.Toy.{toy_shown, lower_ascii, toy_tracing}
use parq.Text.{records}
use parq.Text.Decimal.{decimal}
use parq.Parser.Outcome.{accepted}
use parq.Cli.Success.{reports_rows, main_success}
use parq.Cli.Outcome.{log_text, IsPlain, main-IsPlain}

abbrev arguments : Cli
arguments = record (default_cli (codes "in") (codes "out")) {
  compression = codes "Snappy";
  batch_size = 2;
  channel_depth = 1;
  chunk_size = some 4;
  machine_telemetry = true;
}

abbrev failing : PipelineConfig → Result (Failure toy) ProcessingMetrics
failing config = err strict_error

-- without telemetry, so that there is a log
abbrev logging : Cli
logging = record arguments { machine_telemetry = false }

main-IsPlain_example :
    IsPlain
      (log_text toy_tracing logging)
      (main toy toy_shown toy_floats lower_ascii toy_tracing map_input failing logging)
main-IsPlain_example =
    main-IsPlain toy toy_shown toy_floats lower_ascii map_input failing toy_tracing logging
      (inr refl)

-- the log of a failed process is on stdout
failed_log :
    (main toy toy_shown toy_floats lower_ascii toy_tracing map_input failing logging).stdout
    ≡ codes "warn"
unfolding main convert_to cli_config parse_compression Io.codec str_eq finish_main log_setup
failed_log = refl

abbrev succeeding : PipelineConfig → Result (Failure toy) ProcessingMetrics
succeeding config = ok run_metrics

abbrev lenient_arguments : Cli
lenient_arguments = record arguments {
  ignore_errors = true;
  dead_letter_path = some (codes "dead");
}

lenient_config_run :
    cli_config toy toy_shown toy_floats lower_ascii lenient_arguments (codes "out")
    ≡ ok lenient_config
unfolding cli_config parse_compression Io.codec str_eq
lenient_config_run = refl

main_success_example :
    main toy toy_shown toy_floats lower_ascii toy_tracing map_input succeeding lenient_arguments
    ≡ reports_rows (decimal (length (accepted toy (records input))))
main_success_example =
    main_success toy toy_shown toy_arrow toy_floats lower_ascii map_input no_file toy_tracing
      lenient_arguments refl refl refl lenient_config_run refl (omega arith) input refl
      (omega arith) lenient_call refl succeeding refl

abbrev schema_arguments : Cli
schema_arguments = record (default_cli (codes "in") (codes "out")) {
  infer_schema_only = true;
  quiet = true;
}

abbrev one_record : Bytes → Result ℕ Bytes
one_record path = ok (codes "{a1\n")

abbrev printed_file : Bytes → Result ℕ Bytes
printed_file path = ok (codes "[]\n")

abbrev schema_a : Schema
schema_a = record { name = codes "a"; data_type = int64; nullable = true } ∷ []

one_record_schema : infer_schema toy (codes "{a1\n") 10000 ≡ ok schema_a
unfolding infer_schema infer_line infer_value infer_entries infer_entry infer_field finish_schema
    strip_bom promote value_type lookup put split_lines trim toy_parse str_eq infer_lines merge
one_record_schema = refl

nothing_logged : toy_tracing.logged (log_setup toy_tracing schema_arguments) ≡ []
unfolding log_setup
nothing_logged = refl

printed_schema :
    main toy toy_shown toy_floats lower_ascii toy_tracing one_record failing schema_arguments
    ≡ prints_schema toy toy_shown toy_arrow toy_floats lower_ascii one_record printed_file schema_a
unfolding main print_schema log_setup schema_to_json_string infer_schema infer_line infer_value
    infer_entries infer_entry infer_field finish_schema strip_bom promote value_type lookup put
    split_lines trim toy_parse str_eq infer_lines merge
printed_schema = refl

same_entries : toy.from_str_vec (codes "[]\n") ≡ ok (map (field_to_json toy) schema_a)
unfolding toy_entries field_to_json datatype_to_str
same_entries = refl

printed_schema_reloads_example :
    (main toy toy_shown toy_floats lower_ascii toy_tracing one_record failing schema_arguments
      ≡ prints_schema toy toy_shown toy_arrow toy_floats lower_ascii one_record printed_file
          schema_a)
    × (pipeline_schema toy toy_arrow printed_file (some (codes "schema.json")) (codes "{a1\n")
        ≡ pipeline_schema toy toy_arrow printed_file none (codes "{a1\n"))
printed_schema_reloads_example =
    printed_schema_reloads toy toy_shown toy_arrow toy_floats lower_ascii one_record printed_file
      toy_tracing failing schema_arguments (codes "{a1\n") (codes "schema.json") refl refl
      one_record_schema nothing_logged (sym (ap (λ r. ok r.stdout) printed_schema)) same_entries
