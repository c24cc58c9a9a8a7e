-- ===== src/Columns/Cells.antt =====
-- The cells of a column: what each value of a field becomes, by the type of the field.
use parq.Prelude.{
  ℕ, zero, suc, ◌+◌, ◌≡◌, refl, ap, subst, true, false, Bool, Option, none, some, List, [], ◌∷◌,
  ◌++◌, map, arith, Bytes,
}
use parq.Prelude.Int.{ℤ}
use parq.Prelude.Results.{ok}
use parq.Json.{Value, bool, number, string, array, object}
use parq.Json
use parq.DataType.{
  DataType, null, boolean, int8, int16, int32, int64, uint8, uint16, uint32, uint64, float32,
  float64,
}
use parq.Crates.{Crates}
use parq.Schema.{unwrap_or}
use parq.Columns.{
  ColBuilder, null_builder, bool_builder, int64_builder, float64_builder, str_builder, new_builder,
  parse_i64, append_bool, int64_cell, float64_cell, str_cell, append, Array, null_array, bool_array,
  int64_array, float64_array, str_array, finish,
}

-- The five sorts of columns.
pub data Kind : Type 0 where
  nulls bools integers floats texts : Kind

abbrev pub kind_of : DataType → Kind
kind_of null = nulls
kind_of boolean = bools
kind_of int8 = integers
kind_of int16 = integers
kind_of int32 = integers
kind_of int64 = integers
kind_of uint8 = integers
kind_of uint16 = integers
kind_of uint32 = integers
kind_of uint64 = integers
kind_of float32 = floats
kind_of float64 = floats
kind_of _ = texts

module _ {ℓ κ} {B : Type ℓ} {C : Type κ} where
  pub map-last : (f : B → C) (xs : List B) (x : B) → map f (xs ++ x ∷ []) ≡ map f xs ++ f x ∷ []
  map-last f [] x = refl
  map-last f (y ∷ xs) x = ap (λ l. f y ∷ l) (map-last f xs x)

module _ (X : Crates) where
  open X use {Number, F64, as_i64, as_f64, f64_zero, f64_nan, f64_as_i64, parse_f64, to_string}

  pub data Cell : Type 0 where
    null_cell : Cell
    bool_cell : Option Bool → Cell
    integer_cell : Option ℤ → Cell
    float_cell : Option F64 → Cell
    text_cell : Option Bytes → Cell

  -- a value that is no Boolean is null in a column of Booleans
  abbrev truth : Option (Value Number) → Option Bool
  truth (some (bool b)) = some b
  truth _ = none

  -- A number, from its i64 and its f64: one that is no i64 becomes what the cast makes of its f64.
  abbrev whole : Option ℤ → Option F64 → ℤ
  whole (some i) f = i
  whole none (some f) = f64_as_i64 f
  whole none none = f64_as_i64 f64_zero

  -- a number without an f64 becomes NaN
  abbrev real : Option F64 → F64
  real (some f) = f
  real none = f64_nan

  -- What a value becomes in a column. A text in a column of numbers is parsed; a number, a Boolean,
  -- an array or an object in a column of texts is its JSON text.
  abbrev pub cell : Kind → Option (Value Number) → Cell
  cell nulls v = null_cell
  cell bools v = bool_cell (truth v)
  cell integers none = integer_cell none
  cell integers (some (number n)) = integer_cell (some (whole (as_i64 n) (as_f64 n)))
  cell integers (some (string s)) = integer_cell (parse_i64 s)
  cell integers (some Json.null) = integer_cell none
  cell integers (some (bool b)) = integer_cell none
  cell integers (some (array vs)) = integer_cell none
  cell integers (some (object m)) = integer_cell none
  cell floats none = float_cell none
  cell floats (some (number n)) = float_cell (some (real (as_f64 n)))
  cell floats (some (string s)) = float_cell (parse_f64 s)
  cell floats (some Json.null) = float_cell none
  cell floats (some (bool b)) = float_cell none
  cell floats (some (array vs)) = float_cell none
  cell floats (some (object m)) = float_cell none
  cell texts none = text_cell none
  cell texts (some Json.null) = text_cell none
  cell texts (some (string s)) = text_cell (some s)
  cell texts (some (number n)) = text_cell (some (to_string (number n)))
  cell texts (some (bool b)) = text_cell (some (to_string (bool b)))
  cell texts (some (array vs)) = text_cell (some (to_string (array vs)))
  cell texts (some (object m)) = text_cell (some (to_string (object m)))

  whole_lem :
      (i : Option ℤ) (f : Option F64) → unwrap_or i (f64_as_i64 (unwrap_or f f64_zero)) ≡ whole i f
  whole_lem (some i) f = refl
  whole_lem none (some f) = refl
  whole_lem none none = refl

  real_lem : (f : Option F64) → unwrap_or f f64_nan ≡ real f
  real_lem (some f) = refl
  real_lem none = refl

  -- The three cells of `append` are those.
  int64_cell_lem : (v : Option (Value Number)) → integer_cell (int64_cell X v) ≡ cell integers v
  unfolding int64_cell
  int64_cell_lem none = refl
  int64_cell_lem (some (number n)) =
      ap (λ i. integer_cell (some i)) (whole_lem (as_i64 n) (as_f64 n))
  int64_cell_lem (some (string s)) = refl
  int64_cell_lem (some Json.null) = refl
  int64_cell_lem (some (bool b)) = refl
  int64_cell_lem (some (array vs)) = refl
  int64_cell_lem (some (object m)) = refl

  float64_cell_lem : (v : Option (Value Number)) → float_cell (float64_cell X v) ≡ cell floats v
  unfolding float64_cell
  float64_cell_lem none = refl
  float64_cell_lem (some (number n)) = ap (λ f. float_cell (some f)) (real_lem (as_f64 n))
  float64_cell_lem (some (string s)) = refl
  float64_cell_lem (some Json.null) = refl
  float64_cell_lem (some (bool b)) = refl
  float64_cell_lem (some (array vs)) = refl
  float64_cell_lem (some (object m)) = refl

  str_cell_lem : (v : Option (Value Number)) → text_cell (str_cell X v) ≡ cell texts v
  unfolding str_cell
  str_cell_lem none = refl
  str_cell_lem (some Json.null) = refl
  str_cell_lem (some (string s)) = refl
  str_cell_lem (some (number n)) = refl
  str_cell_lem (some (bool b)) = refl
  str_cell_lem (some (array vs)) = refl
  str_cell_lem (some (object m)) = refl

  abbrev repeat_null : ℕ → List Cell
  repeat_null zero = []
  repeat_null (suc n) = null_cell ∷ repeat_null n

  abbrev pub cells : Array X → List Cell
  cells (null_array len) = repeat_null len
  cells (bool_array xs) = map bool_cell xs
  cells (int64_array xs) = map integer_cell xs
  cells (float64_array xs) = map float_cell xs
  cells (str_array xs) = map text_cell xs

  abbrev pub kind : ColBuilder X → Kind
  kind (null_builder len) = nulls
  kind (bool_builder xs) = bools
  kind (int64_builder xs) = integers
  kind (float64_builder xs) = floats
  kind (str_builder xs) = texts

  pub kind-new_builder : (d : DataType) → kind (new_builder X d) ≡ kind_of d
  unfolding new_builder
  kind-new_builder null = refl
  kind-new_builder _ = refl

  pub cells-new_builder : (d : DataType) → cells (finish X (new_builder X d)) ≡ []
  unfolding new_builder finish
  cells-new_builder null = refl
  cells-new_builder _ = refl

  repeat_null-suc : (n : ℕ) → repeat_null (suc n) ≡ repeat_null n ++ null_cell ∷ []
  repeat_null-suc zero = refl
  repeat_null-suc (suc n) = ap (λ l. null_cell ∷ l) (repeat_null-suc n)

  repeat_null-last : (n : ℕ) → repeat_null (n + 1) ≡ repeat_null n ++ null_cell ∷ []
  repeat_null-last n =
      let e : suc n ≡ n + 1 = omega arith in
      subst (λ k. repeat_null k ≡ repeat_null n ++ null_cell ∷ []) e (repeat_null-suc n)

  -- A builder that has got a cell.
  pub record Grows (v : Option (Value Number)) (b b' : ColBuilder X) : Type 0 where
    pub same_kind : kind b' ≡ kind b
    pub one_more : cells (finish X b') ≡ cells (finish X b) ++ cell (kind b) v ∷ []

  Grows-eq :
      {v : Option (Value Number)} {b b1 b' : ColBuilder X} → Grows v b b1 → b1 ≡ b' → Grows v b b'
  Grows-eq {v} {b} g e = subst (Grows v b) e g

  bool-Grows :
      (xs : List (Option Bool)) (v : Option (Value Number)) (x : Option Bool)
      → truth v ≡ x
      → Grows v (bool_builder xs) (bool_builder (xs ++ x ∷ []))
  unfolding finish
  bool-Grows xs v x h = record { same_kind = refl; one_more = rw h (map-last bool_cell xs x) }

  append_bool-Grows :
      (xs : List (Option Bool)) (v : Option (Value Number)) (line : ℕ) (lenient : Bool)
      {b' : ColBuilder X}
      → append_bool X xs v line lenient ≡ ok b'
      → Grows v (bool_builder xs) b'
  unfolding append_bool
  append_bool-Grows xs none line lenient h = Grows-eq (bool-Grows xs none none refl) cc
  append_bool-Grows xs (some (bool b)) line lenient h =
      Grows-eq (bool-Grows xs (some (bool b)) (some b) refl) cc
  append_bool-Grows xs (some Json.null) line lenient h =
      Grows-eq (bool-Grows xs (some Json.null) none refl) cc
  append_bool-Grows xs (some (number n)) line true h =
      Grows-eq (bool-Grows xs (some (number n)) none refl) cc
  append_bool-Grows xs (some (string s)) line true h =
      Grows-eq (bool-Grows xs (some (string s)) none refl) cc
  append_bool-Grows xs (some (array vs)) line true h =
      Grows-eq (bool-Grows xs (some (array vs)) none refl) cc
  append_bool-Grows xs (some (object m)) line true h =
      Grows-eq (bool-Grows xs (some (object m)) none refl) cc
  append_bool-Grows xs (some (number n)) line false h = cc
  append_bool-Grows xs (some (string s)) line false h = cc
  append_bool-Grows xs (some (array vs)) line false h = cc
  append_bool-Grows xs (some (object m)) line false h = cc

  -- Appending a value adds its cell, as the column's sort has it, whenever it does not fail.
  pub append-Grows :
      (b : ColBuilder X) (v : Option (Value Number)) (line : ℕ) (lenient : Bool) {b' : ColBuilder X}
      → append X b v line lenient ≡ ok b'
      → Grows v b b'
  unfolding append finish
  append-Grows (null_builder len) v line lenient h =
      Grows-eq {b1 = null_builder (len + 1)}
        (record { same_kind = refl; one_more = repeat_null-last len }) cc
  append-Grows (bool_builder xs) v line lenient h = append_bool-Grows xs v line lenient h
  append-Grows (int64_builder xs) v line lenient h =
      Grows-eq {b1 = int64_builder (xs ++ int64_cell X v ∷ [])}
        (record {
          same_kind = refl;
          one_more = rw (← int64_cell_lem v) (map-last integer_cell xs (int64_cell X v));
        })
        cc
  append-Grows (float64_builder xs) v line lenient h =
      Grows-eq {b1 = float64_builder (xs ++ float64_cell X v ∷ [])}
        (record {
          same_kind = refl;
          one_more = rw (← float64_cell_lem v) (map-last float_cell xs (float64_cell X v));
        })
        cc
  append-Grows (str_builder xs) v line lenient h =
      Grows-eq {b1 = str_builder (xs ++ str_cell X v ∷ [])}
        (record {
          same_kind = refl;
          one_more = rw (← str_cell_lem v) (map-last text_cell xs (str_cell X v));
        })
        cc
