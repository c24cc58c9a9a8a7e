-- ===== src/Metrics/Examples.antt =====
-- The theorems on the statistics at one run.
use parq.Prelude.{◌≡◌, ◌++◌, List, ◌∷◌, [], arith, Bytes, All, length}
use parq.Metrics.{
  ProcessingMetrics, throughput_mib_per_sec, rows_per_sec, compression_ratio, report, head_lines,
  foot_line,
}
use parq.Metrics.Toy.{toy_floats}
use parq.Metrics.Ratios.{IsU64, IsFinite, ratios_bounded}
use parq.Metrics.Report.{IsWide, frame, report_misaligned}

abbrev one_run : ProcessingMetrics
one_run = record {
  input_bytes = 1048576;
  output_bytes = 524288;
  rows_processed = 1000;
  rows_errored = 1;
  threads_used = 8;
  total_duration_ms = 500;
  parse_duration_ms = 300;
  write_duration_ms = 400;
}

one_run-IsU64 : IsU64 toy_floats one_run
one_run-IsU64 = record {
  input = omega arith;
  output = omega arith;
  rows = omega arith;
  time = omega arith;
}

ratios_bounded_example :
    IsFinite toy_floats (throughput_mib_per_sec toy_floats one_run)
    × IsFinite toy_floats (rows_per_sec toy_floats one_run)
    × IsFinite toy_floats (compression_ratio toy_floats one_run)
ratios_bounded_example = ratios_bounded toy_floats one_run one_run-IsU64

report_misaligned_example :
    (rows : List Bytes) × (report toy_floats one_run
      ≡ head_lines toy_floats ++ rows ++ foot_line toy_floats ∷ [])
    × (length rows ≡ 11)
    × All (IsWide toy_floats) rows
    × All (λ l. length l ≡ 52) (frame toy_floats)
report_misaligned_example = report_misaligned toy_floats one_run
