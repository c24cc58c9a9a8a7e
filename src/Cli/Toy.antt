-- ===== src/Cli/Toy.antt =====
-- Texts of errors for tests: a foreign error is a number, and its text is that number.
use parq.Prelude.{
  refl, Option, none, some, ◌&&◌, leb, [], ◌∷◌, Bytes, codes, ◌+◌, ◌==◌, newline, if◌then◌else◌,
}
use parq.Text.Decimal.{decimal}
use parq.Crates.Toy.{toy}
use parq.Error.Display.{Shown}
use parq.Cli.Subscriber.{LogSetup, Tracing}

-- A text with its newlines escaped, in front of another.
abbrev pub escape : Bytes → Bytes → Bytes
escape [] t = t
escape (c ∷ s) t = if c == newline then b'\\' ∷ b'n' ∷ escape s t else c ∷ escape s t

abbrev pub toy_shown : Shown toy
toy_shown = record {
  io_text = decimal;
  json_text = decimal;
  arrow_text = decimal;
  parquet_text = decimal;
  quoted = λ s. b'"' ∷ escape s (b'"' ∷ []);
  debug_error = λ e. codes "error";
}

-- Capital letters become small.
abbrev pub lower_ascii : Bytes → Bytes
lower_ascii [] = []
lower_ascii (c ∷ s) = (if leb b'A' c && leb c b'Z' then c + 32 else c) ∷ lower_ascii s

-- A run that logs the name of its filter.
abbrev pub toy_logged : Option (LogSetup Bytes) → Bytes
toy_logged none = []
toy_logged (some l) = l.filter

abbrev pub toy_tracing : Tracing
toy_tracing = record {
  EnvFilter = Bytes;
  new_filter = λ s. s;
  try_from_default_env = none;
  logged = toy_logged;
  logged-none = refl;
}
