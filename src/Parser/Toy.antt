-- ===== src/Parser/Toy.antt =====
-- Arrow for tests: a batch is the list of its columns, and every list of columns is a batch.
use parq.Prelude.{ℕ, ◌≡◌, refl, Bool, true, false, ◌&&◌, List, [], ◌∷◌, map, arith, if◌then◌else◌}
use parq.DataType.{DataType, null, boolean, int64, float64, utf8}
use parq.Prelude.Results.{Result, ok, err}
use parq.Crates.Toy.{toy}
use parq.Schema.{Schema}
use parq.Columns.{Array, null_array, bool_array, int64_array, float64_array, str_array}
use parq.Columns.Types.{array_type}
use parq.Parser.{Arrow}
use parq.Parser.Mismatch.{RejectsEmpty}
use parq.Parser.Total.{AcceptsMatching, RejectsMismatch}

unfoldable pub toy_new : Schema → List (Array toy) → Result ℕ (List (Array toy))
toy_new schema arrays = ok arrays

pub toy_new-columns :
    (schema : Schema) (arrays : List (Array toy)) {b : List (Array toy)}
    → toy_new schema arrays ≡ ok b
    → b ≡ arrays
unfolding toy_new
toy_new-columns schema arrays h = cc

abbrev pub toy_arrow : Arrow toy
toy_arrow = record {
  RecordBatch = List (Array toy);
  try_new = toy_new;
  columns = λ b. b;
  try_new-columns = toy_new-columns;
}

pub toy_accepts : AcceptsMatching toy toy_arrow
unfolding toy_new
toy_accepts schema arrays n s h t l = (arrays, refl)

-- Whether an array has a type.
abbrev is_of : Array toy → DataType → Bool
is_of (null_array len) null = true
is_of (bool_array xs) boolean = true
is_of (int64_array xs) int64 = true
is_of (float64_array xs) float64 = true
is_of (str_array xs) utf8 = true
is_of _ _ = false

is_of_sound : (a : Array toy) (d : DataType) → is_of a d ≡ true → array_type toy a ≡ d
is_of_sound (null_array len) null h = refl
is_of_sound (bool_array xs) boolean h = refl
is_of_sound (int64_array xs) int64 h = refl
is_of_sound (float64_array xs) float64 h = refl
is_of_sound (str_array xs) utf8 h = refl
is_of_sound _ _ h = absurd cc

abbrev are_of : List (Array toy) → Schema → Bool
are_of [] [] = true
are_of (a ∷ arrays) (f ∷ fs) = is_of a f.data_type && are_of arrays fs
are_of _ _ = false

are_of_sound :
    (arrays : List (Array toy)) (fs : Schema)
    → are_of arrays fs ≡ true
    → map (array_type toy) arrays ≡ map (λ f. f.data_type) fs
are_of_sound [] [] h = refl
are_of_sound [] (f ∷ fs) h = absurd cc
are_of_sound (a ∷ arrays) [] h = absurd cc
are_of_sound (a ∷ arrays) (f ∷ fs) h =
    let first = is_of_sound a f.data_type (ground arith) in
    let rest = are_of_sound arrays fs (ground arith) in rw (first, rest) refl

unfoldable pub check_types : Schema → List (Array toy) → Result ℕ (List (Array toy))
check_types [] arrays = err 8
check_types (f ∷ fs) arrays = if are_of arrays (f ∷ fs) then ok arrays else err 8

pub check_types-columns :
    (schema : Schema) (arrays : List (Array toy)) {b : List (Array toy)}
    → check_types schema arrays ≡ ok b
    → b ≡ arrays
unfolding check_types
check_types-columns [] arrays h = absurd (ground arith)
check_types-columns (f ∷ fs) arrays h = ground arith

-- An Arrow that compares the types, and wants a column.
abbrev pub typed_arrow : Arrow toy
typed_arrow = record {
  RecordBatch = List (Array toy);
  try_new = check_types;
  columns = λ b. b;
  try_new-columns = check_types-columns;
}

pub typed_rejects : RejectsMismatch toy typed_arrow
unfolding check_types
typed_rejects [] arrays b h = absurd (ground arith)
typed_rejects (f ∷ fs) arrays b h = are_of_sound arrays (f ∷ fs) (ground arith)

pub typed-RejectsEmpty : RejectsEmpty toy typed_arrow
unfolding check_types
typed-RejectsEmpty b h = ground arith
