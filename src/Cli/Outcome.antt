-- ===== src/Cli/Outcome.antt =====
-- How the process of crates/parq/src/main.rs ends: its exit code and its two streams.
use parq.Prelude.{
  if◌then◌else◌, ◌||◌, ◌≢◌, ◌++◌, ◌∷◌, ap, ◌∙◌, append-nil, ◌≡◌, ◌⊎◌, inl, inr, refl, true, Option,
  none, some, [], arith, codes, Bytes, Bool-cases,
}
use parq.Prelude.Results.{Result, ok, err, ◌>>=◌, Result-cases}
use parq.Crates.{Crates}
use parq.Error.{Failure, io_error}
use parq.Error.Display.{Shown}
use parq.Schema.{infer_schema, schema_to_json_string}
use parq.Metrics.{Floats, ProcessingMetrics}
use parq.Prepare.{PipelineConfig, is_some}
use parq.Cli.Subscriber.{Tracing}
use parq.Cli.{
  returned_error, telemetry, log_setup, line, after_logging, Cli, Ended, print_schema, finish_main,
  cli_config, convert_to, main,
}

-- What is logged to stdout, if the arguments do not suppress it.
abbrev pub log_text : Tracing → Cli → Bytes
log_text T cli = if cli.quiet || cli.machine_telemetry then [] else T.logged (log_setup T cli)

-- A success ends with 0 and prints to stdout only, behind the log; a failure ends with 1, prints to
-- stderr, and leaves the log on stdout.
abbrev pub IsPlain : Bytes → Ended → Type 0
IsPlain log r =
    ((r.code ≡ 0) × (r.stderr ≡ []) × ((text : Bytes) × (r.stdout ≡ log ++ text)))
    ⊎ ((r.code ≡ 1) × (r.stderr ≢ []) × (r.stdout ≡ log))

logged-log_text : (T : Tracing) (cli : Cli) → T.logged (log_setup T cli) ≡ log_text T cli
unfolding log_setup
logged-log_text T cli = ground (arith, T.logged-none)

-- with telemetry nothing is logged
pub silent :
    (T : Tracing) (cli : Cli) → cli.machine_telemetry ≡ true → T.logged (log_setup T cli) ≡ []
silent T cli t = logged-log_text T cli ∙ ground (arith, t)

line-ne-nil : (s : Bytes) → line s ≢ []
line-ne-nil [] e = ground arith
line-ne-nil (c ∷ s) e = ground arith

IsPlain-after_logging :
    (log printed : Bytes) (r : Ended)
    → printed ≡ log
    → IsPlain [] r
    → IsPlain log (after_logging printed r)
IsPlain-after_logging log printed r h (inl (code, quiet, out)) =
    inl (code, quiet, (r.stdout, ap (λ s. s ++ r.stdout) h))
IsPlain-after_logging log printed r h (inr (code, told, out)) =
    inr (code, told, ap (λ s. printed ++ s) out ∙ append-nil printed ∙ h)

module _ (X : Crates) (S : Shown X) (R : Floats) (to_lowercase : Bytes → Bytes)
    (map_input : Bytes → Result X.IoError Bytes)
    (run : PipelineConfig → Result (Failure X) ProcessingMetrics) where
  returned_error-ne-nil : (e : Failure X) → (returned_error X S e).stderr ≢ []
  returned_error-ne-nil e = line-ne-nil (codes "Error: " ++ S.debug_error e)

  print_schema-IsPlain : (cli : Cli) → IsPlain [] (print_schema X S map_input cli)
  unfolding print_schema
  print_schema-IsPlain cli = elim (Result-cases (map_input cli.input)) [
    | inr (x, e) ↦ rw (e, print_schema) (inr (refl, returned_error-ne-nil (io_error x), refl))
    | inl (bytes, e) ↦
        rw (e, print_schema)
          (elim (Result-cases (infer_schema X bytes 10000 >>= schema_to_json_string X)) [
            | inl (text, f) ↦ rw (f, IsPlain) (inl (refl, refl, (line text, refl)))
            | inr (x, f) ↦ rw (f, IsPlain) (inr (refl, returned_error-ne-nil x, refl))
          ])
  ]

  finish_main-IsPlain :
      (cli : Cli) (r : Result (Failure X) ProcessingMetrics)
      → IsPlain [] (finish_main X S R to_lowercase cli r)
  unfolding finish_main
  finish_main-IsPlain cli (ok m) = inl (refl, refl, (_, refl))
  finish_main-IsPlain cli (err e) = elim (Bool-cases cli.machine_telemetry) [
    | inl t ↦ rw t (inr (refl, line-ne-nil (telemetry X S e), refl))
    | inr t ↦ rw t (inr (refl, returned_error-ne-nil e, refl))
  ]

  convert_to-IsPlain :
      (cli : Cli) (o : Option Bytes)
      → is_some o ≡ true
      → IsPlain [] (convert_to X S R to_lowercase run cli o)
  unfolding convert_to
  convert_to-IsPlain cli none h = absurd (ground arith)
  convert_to-IsPlain cli (some output) h =
      elim (Result-cases (cli_config X S R to_lowercase cli output)) [
        | inl (config, f) ↦ rw (f, convert_to) (finish_main-IsPlain cli (run config))
        | inr (x, f) ↦ rw (f, convert_to) (inr (refl, returned_error-ne-nil x, refl))
      ]

  -- With the arguments that clap lets through, where there is an output unless only the schema is
  -- asked for, and if the pipeline's run returns and the streams take what is printed, the process
  -- ends with 0, prints nothing to stderr, and prints its log and then its result to stdout; or it ends with 1, prints to stderr, and prints nothing
  -- but its log to stdout. The log is empty with --quiet and with --machine-telemetry.
  pub main-IsPlain :
      (T : Tracing) (cli : Cli)
      → (cli.infer_schema_only ≡ true) ⊎ (is_some cli.output ≡ true)
      → IsPlain (log_text T cli) (main X S R to_lowercase T map_input run cli)
  unfolding main
  main-IsPlain T cli h =
      IsPlain-after_logging (log_text T cli) (T.logged (log_setup T cli)) _ (logged-log_text T cli)
        (elim (Bool-cases cli.infer_schema_only) [
          | inl o ↦ simp o (print_schema-IsPlain cli)
          | inr o ↦ simp o (convert_to-IsPlain cli cli.output (ground arith))
        ])
