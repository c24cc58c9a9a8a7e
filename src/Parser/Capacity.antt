-- ===== src/Parser/Capacity.antt =====
-- What the string builders of crates/parq-parser/src/lib.rs are given. An Arrow `StringBuilder` counts
-- the bytes of its values in an i32 and panics beyond that; the builders of the model have no bound,
-- so a chunk is followed to its end here only where no Arrow builder reaches that count.
mod Examples
use parq.Prelude.{ℕ, ◌+◌, ◌-◌, ◌^◌, refl, some, List, [], ◌∷◌, length}
use parq.Crates.{Crates}
use parq.Columns.Cells.{Cell, text_cell}

-- `i32::MAX`
abbrev pub max_offset : ℕ
max_offset = 2 ^ 31 - 1

module _ (X : Crates) where
  -- The bytes of the texts of a column.
  abbrev pub text_bytes : List (Cell X) → ℕ
  text_bytes [] = 0
  text_bytes (text_cell (some s) ∷ cs) = length s + text_bytes cs
  text_bytes (_ ∷ cs) = text_bytes cs
