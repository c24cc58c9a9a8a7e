-- ===== src/Cli/Subscriber.antt =====
-- What `main` of crates/parq/src/main.rs uses of tracing_subscriber: a parameter of the model.
use parq.Prelude.{◌≡◌, Bool, Option, none, [], Bytes}

-- What `fmt()` is told before `init`: its filter, whether a line names the module that logs, and
-- whether it has the compact form.
pub record LogSetup (EnvFilter : Type 0) : Type 0 where
  pub filter : EnvFilter
  pub with_target : Bool
  pub compact : Bool

pub record Tracing : Type 1 where
  pub EnvFilter : Type 0
  -- `EnvFilter::new`, and `EnvFilter::try_from_default_env().ok()`, which reads RUST_LOG
  pub new_filter : Bytes → EnvFilter
  pub try_from_default_env : Option EnvFilter
  -- The lines that the run logs, to stdout, where `fmt` writes unless it is told otherwise. Without
  -- a subscriber the macros of tracing write nothing.
  pub logged : Option (LogSetup EnvFilter) → Bytes
  pub logged-none : logged none ≡ []
