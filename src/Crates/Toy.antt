-- ===== src/Crates/Toy.antt =====
-- A small instance of the interface, for tests: numbers are integers, and a line such as `{a1bt`
-- stands for the object with 1 at `a` and true at `b`.
use parq.Prelude.{
  ℕ, ◌-◌, ◌≡◌, refl, Bool, true, Option, none, some, List, [], ◌∷◌, arith, Bytes, codes, str_eq,
  str_eq_iff, ◌==◌, if◌then◌else◌,
}
use parq.Prelude.Int.{ℤ, pos}
use parq.Prelude.Results.{Result, ok, err}
use parq.Json.{Value, null, bool, number, string, array, object, nil, Fields, end, entry}
use parq.Crates.{Crates}

unfoldable pub toy_get : Fields ℤ → Bytes → Option (Value ℤ)
toy_get end k = none
toy_get (entry j v m) k = if str_eq j k then some v else toy_get m k

unfoldable pub toy_insert : Fields ℤ → Bytes → Value ℤ → Fields ℤ
toy_insert end k v = entry k v end
toy_insert (entry j w m) k v =
    let rest = toy_insert m k v in if str_eq j k then entry k v m else entry j w rest

pub toy_get-insert :
    (m : Fields ℤ) (j k : Bytes) (v : Value ℤ)
    → toy_get (toy_insert m j v) k ≡ (if str_eq j k then some v else toy_get m k)
unfolding toy_get toy_insert
toy_get-insert end j k v = refl
toy_get-insert (entry i w m) j k v =
    ground (arith, str_eq_iff i j, str_eq_iff i k, str_eq_iff j k, toy_get-insert m j k v)

-- `t` is true, `n` null, `s` a string, `l` an empty array, `o` an object, and a digit a number.
unfoldable pub toy_value : ℕ → Value ℤ
toy_value c =
    if c == b't'
    then bool true
    else if c == b'n'
    then null
    else if c == b's'
    then string (codes "s")
    else if c == b'l'
    then array nil
    else if c == b'o'
    then object (entry (codes "x") (number (pos 7)) end)
    else number (pos (c - b'0'))

unfoldable pub toy_fields : Bytes → Fields ℤ
unfolding toy_value
toy_fields [] = end
toy_fields (c ∷ []) = end
toy_fields (c ∷ d ∷ s) = entry (c ∷ []) (toy_value d) (toy_fields s)

unfoldable pub toy_parse : Bytes → Result ℕ (Value ℤ)
unfolding toy_fields
toy_parse [] = err 0
toy_parse (c ∷ s) =
    if c == b'{' then ok (object (toy_fields s)) else if c == b'n' then ok null else err c

unfoldable pub toy_index : Value ℤ → Bytes → Value ℤ
unfolding toy_get
toy_index (object m) k = elim (toy_get m k) [ none ↦ null | some v ↦ v ]
toy_index _ k = null

pub toy_index-object :
    (m : Fields ℤ) (k : Bytes) {v : Value ℤ} → toy_get m k ≡ some v → toy_index (object m) k ≡ v
unfolding toy_index
toy_index-object m k h = ground arith

unfoldable pub toy_str : Value ℤ → Option Bytes
toy_str (string s) = some s
toy_str _ = none

unfoldable pub toy_bool : Value ℤ → Option Bool
toy_bool (bool b) = some b
toy_bool _ = none

pub toy_get-end : (k : Bytes) → toy_get end k ≡ none
unfolding toy_get
toy_get-end k = refl

pub toy_get-entry :
    (j k : Bytes) (v : Value ℤ) (m : Fields ℤ)
    → toy_get (entry j v m) k ≡ (if str_eq j k then some v else toy_get m k)
unfolding toy_get
toy_get-entry j k v m = refl

pub toy_str-string : (s : Bytes) → toy_str (string s) ≡ some s
unfolding toy_str
toy_str-string s = refl

pub toy_bool-bool : (b : Bool) → toy_bool (bool b) ≡ some b
unfolding toy_bool
toy_bool-bool b = refl

-- Any text of a schema file holds one entry.
unfoldable pub toy_entries : List (Value ℤ)
unfolding toy_insert
toy_entries =
    object (
      toy_insert
        (toy_insert (toy_insert end (codes "name") (string (codes "a"))) (codes "type")
          (string (codes "Int64")))
        (codes "nullable") (bool true))
    ∷ []

abbrev pub toy : Crates
toy = record {
  Number = ℤ;
  F64 = ℤ;
  JsonError = ℕ;
  ArrowError = ℕ;
  ParquetError = ℕ;
  IoError = ℕ;
  is_i64 = λ n. true;
  as_i64 = λ n. some n;
  as_f64 = λ n. some n;
  is_i64-as_i64 = λ n. (λ h. (n, refl), λ h. refl);
  f64_zero = pos 0;
  f64_nan = pos 0;
  f64_as_i64 = λ x. x;
  parse_f64 = λ s. none;
  from_slice = toy_parse;
  bang_error = 0;
  from_str_vec = λ s. ok toy_entries;
  to_string_pretty = λ vs. codes "[]";
  to_string_pretty-head = λ vs. (b']' ∷ [], refl);
  to_string = λ v. codes "[]";
  debug = λ v. codes "?";
  get = toy_get;
  insert = toy_insert;
  get-end = toy_get-end;
  get-entry = toy_get-entry;
  get-insert = toy_get-insert;
  index = toy_index;
  index-object = toy_index-object;
  as_str = toy_str;
  as_str-string = toy_str-string;
  as_bool = toy_bool;
  as_bool-bool = toy_bool-bool;
}
