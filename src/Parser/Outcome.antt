-- ===== src/Parser/Outcome.antt =====
-- One round of `parse_chunk`'s loop, by the kind of the line.
use parq.Prelude.{
  ℕ, ◌+◌, ◌≡◌, true, false, Option, none, some, List, [], ◌∷◌, arith, Bytes, inl, inr,
}
use parq.Prelude.Results.{Result, ok, Result-cases}
use parq.Text.{is_empty, trim}
use parq.Json.{Value, object, Fields}
use parq.Crates.{Crates}
use parq.Parser.{
  Arrow, ParseConfig, ParseState, broke, went, round_of, flush_batch, parse_object, parse_line,
  reject, limit_reached,
}

module _ (X : Crates) where
  open X use {Number, from_slice, JsonError}

  -- The object that a record is, if it is one.
  abbrev pub object_in : Result JsonError (Value Number) → Option (Fields Number)
  object_in (ok (object m)) = some m
  object_in _ = none

  -- The records that are objects, as those objects, and the records that are not.
  unfoldable pub accepted : List Bytes → List (Fields Number)
  accepted [] = []
  accepted (r ∷ rs) =
      let rest = accepted rs in elim (object_in (from_slice r)) [ none ↦ rest | some m ↦ m ∷ rest ]

  unfoldable pub rejected : List Bytes → List Bytes
  rejected [] = []
  rejected (r ∷ rs) =
      let rest = rejected rs in elim (object_in (from_slice r)) [ none ↦ r ∷ rest | some m ↦ rest ]

module _ (X : Crates) (A : Arrow X) (c : ParseConfig X A) where
  open X use {Number, from_slice}

  -- The counters that a step leaves alone, or raises.
  pub record Advances (n : ℕ) (st st' : ParseState X A) : Type 0 where
    pub total_ok : st'.total_ok ≡ st.total_ok + n
    pub total_skip : st'.total_skip ≡ st.total_skip
    pub line_no : st'.line_no ≡ st.line_no

  pub flush_batch-Advances :
      (st : ParseState X A) {st' : ParseState X A}
      → flush_batch X A c st ≡ ok st'
      → Advances 0 st st'
  unfolding flush_batch
  flush_batch-Advances st h = ground arith

  pub parse_object-Advances :
      (m : Fields Number) (st : ParseState X A) {st' : ParseState X A}
      → parse_object X A c m st ≡ ok st'
      → Advances 1 st st'
  unfolding parse_object
  parse_object-Advances m st h = ground arith

  -- The state with the line counted.
  abbrev pub counted : ParseState X A → ParseState X A
  counted st = record st { line_no = st.line_no + 1 }

  pub parse_line-blank :
      (line : Bytes) (st : ParseState X A)
      → limit_reached c.limit st.total_ok ≡ false
      → is_empty (trim line) ≡ true
      → parse_line X A c line st ≡ went (counted st) []
  parse_line-blank line st h e = unfold parse_line in rw (h, e)

  pub parse_line-stop :
      (line : Bytes) (st : ParseState X A)
      → limit_reached c.limit st.total_ok ≡ true
      → parse_line X A c line st ≡ broke (counted st)
  parse_line-stop line st h = unfold parse_line in rw h

  pub parse_line-object :
      (line : Bytes) (st : ParseState X A) (m : Fields Number)
      → limit_reached c.limit st.total_ok ≡ false
      → is_empty (trim line) ≡ false
      → object_in X (from_slice (trim line)) ≡ some m
      → parse_line X A c line st ≡ round_of X A (parse_object X A c m (counted st))
  parse_line-object line st m h e p = unfold parse_line in ground arith

  pub parse_line-reject :
      (line : Bytes) (st : ParseState X A)
      → limit_reached c.limit st.total_ok ≡ false
      → is_empty (trim line) ≡ false
      → object_in X (from_slice (trim line)) ≡ none
      → (x : X.JsonError) × (parse_line X A c line st ≡ reject X A c (trim line) x (counted st))
  unfolding parse_line
  parse_line-reject line st h e p = elim (Result-cases (from_slice (trim line))) [
    | inl (v, q) ↦ (X.bang_error, ground arith)
    | inr (x, q) ↦ (x, ground arith)
  ]
