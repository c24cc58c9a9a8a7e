-- ===== src/Cli/Telemetry.antt =====
-- The telemetry that crates/parq/src/main.rs prints for a failed run of the pipeline.
use parq.Prelude.{◌≡◌, [], Bytes}
use parq.Crates.{Crates}
use parq.Error.{Failure}
use parq.Error.Display.{Shown}
use parq.Cli.Payload.{IsLine, IsPayload}
use parq.Cli.{Cli, Ended, line}

module _ (X : Crates) (S : Shown X) where
  -- How a failed run ends with telemetry: one line on stderr.
  pub record IsFailed (e : Failure X) (ended : Ended) : Type 0 where
    pub exit_code : ended.code ≡ 1
    pub no_stdout : ended.stdout ≡ []
    pub text : Bytes
    pub printed : ended.stderr ≡ line text
    pub is_line : IsLine text
    pub is_payload : IsPayload X S e text
