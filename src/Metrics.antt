-- ===== src/Metrics.antt =====
-- crates/parq-metrics/src/lib.rs: the statistics of a run, their ratios, and the report as a list of
-- lines. A line of the report is the list of its characters, since the widths of a format count
-- those. Floating-point numbers and their output are a parameter.
pub mod Ratios
pub mod Report
pub mod Toy
mod Examples
use parq.Prelude.{
  concat, ℕ, zero, suc, ◌+◌, ◌≤◌, ◌<◌, ◌≡◌, ◌≢◌, ◌^◌, List, [], ◌∷◌, ◌++◌, map, Bytes, codes,
  newline, ◌==◌, if◌then◌else◌,
}
use parq.Text.Decimal.{decimal, pad_left, pad_right, pad_center}

-- `f64`, its division, `x as f64` of an integer, and its output with a number of places. `Within e`
-- are the finite numbers of magnitude at most 2^e, and `Above e` those of magnitude at least 2^-e,
-- which are no zero. The laws are those of IEEE 754 far away from overflow and underflow.
pub record Floats : Type 1 where
  pub F64 : Type 0
  pub zero : F64
  pub of_int : ℕ → F64
  pub div : F64 → F64 → F64
  pub fixed : ℕ → F64 → Bytes
  -- `format!("{:.2?}", Duration::from_millis(n))`
  pub duration : ℕ → Bytes
  pub Within : ℕ → F64 → Type 0
  pub Above : ℕ → F64 → Type 0
  pub zero-Within : Within 0 zero
  pub of_int-Within : (n e : ℕ) → n < 2 ^ e → e ≤ 64 → Within e (of_int n)
  pub of_int-Above : (n : ℕ) → n ≢ 0 → n < 2 ^ 64 → Above 0 (of_int n)
  pub div-Within :
      (a b : ℕ) (x y : F64) → Within a x → Above b y → a + b ≤ 1000 → Within (a + b) (div x y)
  pub div-Above :
      (a b : ℕ) (x y : F64) → Above a x → Within b y → a + b ≤ 1000 → Above (a + b) (div x y)

pub record ProcessingMetrics : Type 0 where
  pub input_bytes : ℕ
  pub output_bytes : ℕ
  pub rows_processed : ℕ
  pub rows_errored : ℕ
  pub threads_used : ℕ
  pub total_duration_ms : ℕ
  pub parse_duration_ms : ℕ
  pub write_duration_ms : ℕ

module _ (R : Floats) where
  open R use {F64, of_int, div, fixed, duration}

  -- `x as f64 / 1_048_576.0` and `ms as f64 / 1000.0`
  abbrev mib : ℕ → F64
  mib n = div (of_int n) (of_int 1048576)

  abbrev seconds : ℕ → F64
  seconds n = div (of_int n) (of_int 1000)

  unfoldable pub throughput_mib_per_sec : ProcessingMetrics → F64
  throughput_mib_per_sec m =
      if m.total_duration_ms == 0
      then R.zero
      else div (mib m.input_bytes) (seconds m.total_duration_ms)

  unfoldable pub rows_per_sec : ProcessingMetrics → F64
  rows_per_sec m =
      if m.total_duration_ms == 0
      then R.zero
      else div (of_int m.rows_processed) (seconds m.total_duration_ms)

  unfoldable pub compression_ratio : ProcessingMetrics → F64
  compression_ratio m =
      if m.output_bytes == 0 then R.zero else div (of_int m.input_bytes) (of_int m.output_bytes)

  abbrev dashes : ℕ → Bytes
  dashes zero = []
  dashes (suc n) = 0x2500 ∷ dashes n

  -- `"┌{sep}┐"`, `"│{:^50}│"`, `"├{sep}┤"` and `"└{sep}┘"`
  unfoldable pub head_lines : List Bytes
  unfolding pad_center
  head_lines =
      (codes "┌" ++ dashes 50 ++ codes "┐")
      ∷ (codes "│" ++ pad_center 50 (codes " ⚡  Pipeline Metrics  ⚡ ") ++ codes "│")
      ∷ (codes "├" ++ dashes 50 ++ codes "┤")
      ∷ []

  unfoldable pub foot_line : Bytes
  foot_line = codes "└" ++ dashes 50 ++ codes "┘"

  -- `"│  {label:<22}{value:>26}  │"`
  unfoldable pub row_line : Bytes × Bytes → Bytes
  row_line (label, value) = codes "│  " ++ pad_left 22 label ++ pad_right 26 value ++ codes "  │"

  unfoldable pub report_rows : ProcessingMetrics → List (Bytes × Bytes)
  unfolding throughput_mib_per_sec rows_per_sec compression_ratio
  report_rows m =
      (codes "Input size", fixed 2 (mib m.input_bytes) ++ codes " MiB")
      ∷ (codes "Output size", fixed 2 (mib m.output_bytes) ++ codes " MiB")
      ∷ (codes "Compression", fixed 2 (compression_ratio m) ++ codes "×")
      ∷ (codes "Rows processed", decimal m.rows_processed)
      ∷ (codes "Rows errored", decimal m.rows_errored)
      ∷ (codes "Threads used", decimal m.threads_used)
      ∷ (codes "Total time", duration m.total_duration_ms)
      ∷ (codes "  ↳ Parse", duration m.parse_duration_ms)
      ∷ (codes "  ↳ Write", duration m.write_duration_ms)
      ∷ (codes "Throughput", fixed 1 (throughput_mib_per_sec m) ++ codes " MiB/s")
      ∷ (codes "Row rate", fixed 0 (rows_per_sec m) ++ codes " rows/s")
      ∷ []

  -- The lines that `fmt` writes.
  unfoldable pub report : ProcessingMetrics → List Bytes
  unfolding head_lines foot_line row_line report_rows
  report m = head_lines ++ map row_line (report_rows m) ++ foot_line ∷ []

  -- `println!` of an empty line and of the report.
  unfoldable pub print_report : ProcessingMetrics → Bytes
  unfolding report
  print_report m = newline ∷ concat (map (λ l. l ++ newline ∷ []) (report m)) ++ newline ∷ []
