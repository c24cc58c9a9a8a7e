-- ===== src/Io/Toy.antt =====
-- A small instance of the parquet crate, for tests: a writer is its properties and its batches.
use parq.Prelude.{ℕ, ◌≡◌, ap, List, [], ◌∷◌, ◌++◌, length}
use parq.Prelude.Results.{Result, ok}
use parq.Crates.Toy.{toy}
use parq.Columns.{Array}
use parq.Parser.Toy.{toy_arrow}
use parq.Parser.Cells.{column}
use parq.Io.{WriterProperties, Parquet}

abbrev pub ToyWriter : Type 0
ToyWriter = WriterProperties × List (List (Array toy))

pub ok-toy_writer : (v w : ToyWriter) → ◌≡◌ {A = Result ℕ ToyWriter} (ok v) (ok w) → w ≡ v
ok-toy_writer v w h = cc

abbrev pub toy_parquet : Parquet toy toy_arrow
toy_parquet = record {
  File = ℕ;
  ArrowWriter = ToyWriter;
  create = λ path. ok (length path);
  try_new = λ file schema props. ok (props, []);
  write = λ w b. ok (w.0, w.1 ++ b ∷ []);
  finish = λ w. ok tt;
  num_rows = λ b. length (column toy 0 b);
  content = λ w. w.1;
  settings = λ w. w.0;
  content-try_new = λ file schema props h. ap (λ v. v.1) (ok-toy_writer _ _ h);
  content-write = λ w b h. ap (λ v. v.1) (ok-toy_writer _ _ h);
  settings-try_new = λ file schema props h. ap (λ v. v.0) (ok-toy_writer _ _ h);
  settings-write = λ w b h. ap (λ v. v.0) (ok-toy_writer _ _ h);
}
