-- ===== src/Parser/Capacity/Examples.antt =====
-- A chunk with a column of texts.
use parq.Prelude.{true, false, none, [], ◌∷◌, Bytes, codes}
use parq.DataType.{utf8}
use parq.Crates.Toy.{toy}
use parq.Parser.{ParseConfig}
use parq.Parser.Toy.{toy_arrow}

abbrev texts : ParseConfig toy toy_arrow
texts = record {
  schema = record { name = codes "a"; data_type = utf8; nullable = true } ∷ [];
  batch_size = 1;
  ignore_errors = true;
  flatten_json = false;
  limit = none;
  has_dead_letter = true;
}

abbrev text_rows : Bytes
text_rows = codes "{as\nxx\n{a5\n"
