-- ===== src/Text.antt =====
-- The standard library's byte-slice operations that the crates call: splitting at newlines and
-- trimming ASCII whitespace.
pub mod Lines
pub mod Decimal
use parq.Prelude.{ℕ, Bool, true, false, ◌||◌, Bytes, newline, List, [], ◌∷◌, ◌==◌, if◌then◌else◌}
use mathlib.Core.List.{reverse}

-- Puts a byte in front of the first piece.
unfoldable pub cons_first : ℕ → List Bytes → List Bytes
cons_first c [] = (c ∷ []) ∷ []
cons_first c (l ∷ ls) = (c ∷ l) ∷ ls

-- `data.split(|&b| b == b'\n')`: the pieces between newlines, at least one.
unfoldable pub split_lines : Bytes → List Bytes
unfolding cons_first
split_lines [] = [] ∷ []
split_lines (c ∷ s) =
    let rest = split_lines s in if c == newline then [] ∷ rest else cons_first c rest

-- `u8::is_ascii_whitespace`
unfoldable pub is_space : ℕ → Bool
is_space c = c == 32 || c == 9 || c == 10 || c == 12 || c == 13

unfoldable pub trim_start : Bytes → Bytes
unfolding is_space
trim_start [] = []
trim_start (c ∷ s) = let rest = trim_start s in if is_space c then rest else c ∷ s

-- `line.trim_ascii()`
unfoldable pub trim : Bytes → Bytes
unfolding trim_start
trim s = reverse (trim_start (reverse (trim_start s)))

abbrev pub is_empty : Bytes → Bool
is_empty [] = true
is_empty (c ∷ s) = false

-- The lines that hold a record: trimmed, and not blank.
unfoldable pub keep_records : List Bytes → List Bytes
keep_records [] = []
keep_records (l ∷ ls) =
    let rest = keep_records ls in if is_empty (trim l) then rest else trim l ∷ rest

unfoldable pub records : Bytes → List Bytes
records s = keep_records (split_lines s)
