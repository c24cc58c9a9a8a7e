-- ===== src/Parser/Sizes.antt =====
-- The sizes of the batches that `parse_chunk` returns.
use parq.Prelude.{
  ℕ, ◌+◌, ◌*◌, ◌<◌, ◌≡◌, ◌⊎◌, inl, inr, refl, sym, ap, subst, ◌∙◌, Bool-cases, List, [], ◌∷◌, ◌++◌,
  map, arith, Bytes, All, All-append, leb, ltb, length, length-append, max,
}
use parq.Prelude.Results.{ok, >>=-eq-ok, Result-cases}
use parq.Text.{split_lines}
use parq.Json.{Fields}
use parq.Crates.{Crates}
use parq.Error.{Failure}
use parq.Columns.{finish}
use parq.Parser.{
  Arrow, ParseConfig, ParseState, parse_start, new_builders, flush_batch, flush_full, append_fields,
  parse_object, reject, parse_lines, Parsed, finish_chunk, parse_chunk,
}
use parq.Parser.Cells.{column, IsFor, append_fields-IsFor, new_builders-IsFor}
use parq.Parser.Table.{shape}
use parq.Parser.Lengths.{AreOf, length-column, append_fields-AreOf, new_builders-AreOf}
use parq.Parser.Kept.{Kept, KeptRound, parse_lines-Kept}

more_full : (k f t n : ℕ) → t ≡ k * f + f → n ≡ k + 1 → t ≡ n * f + 0
more_full k f t n h e =
    let next : t ≡ (k + 1) * f + 0 = grind arith in subst (λ m. t ≡ m * f + 0) (sym e) next

module _ (X : Crates) (A : Arrow X) (c : ParseConfig X A) where
  -- The rows of a full batch: a size of 0 acts like a size of 1.
  abbrev pub full : ℕ
  full = max 1 c.batch_size

  -- Each column of the batch has this many cells.
  abbrev pub HasRows : ℕ → A.RecordBatch → Type 0
  HasRows n b = (i : ℕ) → i < length c.schema → length (column X i (A.columns b)) ≡ n

  -- Every batch so far is full, the next one is not, and together they have the accepted rows.
  pub record IsFilling (st : ParseState X A) : Type 0 where
    pub built : IsFor X c.schema st.builders
    pub waiting : AreOf X st.batch_rows c.schema st.builders
    pub room : st.batch_rows < full
    pub batches : All (HasRows full) st.batches
    pub total : st.total_ok ≡ length st.batches * full + st.batch_rows

  -- The batch of these builders.
  flushed-HasRows :
      (st : ParseState X A) (n : ℕ) {b : A.RecordBatch}
      → A.try_new c.schema (map (finish X) st.builders) ≡ ok b
      → AreOf X n c.schema st.builders
      → HasRows n b
  flushed-HasRows st n {b} e w i l =
      ap (λ arrays. length (column X i arrays)) (A.try_new-columns c.schema _ e)
      ∙ length-column X n i st.builders w.1 (omega (arith, w.0))

  -- The builders are taken when they hold as many rows as a full batch.
  flush_batch-IsFilling :
      (st : ParseState X A) {st' : ParseState X A}
      → flush_batch X A c st ≡ ok st'
      → AreOf X full c.schema st.builders
      → All (HasRows full) st.batches
      → st.total_ok ≡ length st.batches * full + full
      → IsFilling st'
  unfolding flush_batch
  flush_batch-IsFilling st {st'} h w bs t =
      elim (Result-cases (A.try_new c.schema (map (finish X) st.builders))) [
        | inl (b, e) ↦
            let same : record st {
              batches = st.batches ++ b ∷ [];
              builders = new_builders X A c.schema;
              batch_rows = 0;
            }
                ≡ st' =
              ground arith in
            let longer : length (st.batches ++ b ∷ []) ≡ length st.batches + 1 =
              length-append st.batches (b ∷ []) in
            subst IsFilling same (record {
              built = new_builders-IsFor X A c.schema;
              waiting = new_builders-AreOf X A c.schema;
              room = omega arith;
              batches =
                  All-append (HasRows full) st.batches (b ∷ []) bs
                    (flushed-HasRows st full e w, tt);
              total = more_full (length st.batches) full st.total_ok _ t longer;
            })
        | inr (x, e) ↦ absurd (ground arith)
      ]

  flush_full-IsFilling :
      (st : ParseState X A) {st' : ParseState X A} (n : ℕ)
      → flush_full X A c st ≡ ok st'
      → n < full
      → st.batch_rows ≡ n + 1
      → IsFor X c.schema st.builders
      → AreOf X (n + 1) c.schema st.builders
      → All (HasRows full) st.batches
      → st.total_ok ≡ length st.batches * full + (n + 1)
      → IsFilling st'
  unfolding flush_full
  flush_full-IsFilling st {st'} n h l r f w bs t =
      elim (Bool-cases (leb c.batch_size st.batch_rows)) [
        | inl e ↦
            let same : n + 1 ≡ full = ground arith in
            flush_batch-IsFilling st (ground arith)
              (subst (λ k. AreOf X k c.schema st.builders) same w) bs
              (subst (λ k. st.total_ok ≡ length st.batches * full + k) same t)
        | inr e ↦
            let same : st ≡ st' = ground arith in
            subst IsFilling same (record {
              built = f;
              waiting = subst (λ k. AreOf X k c.schema st.builders) (sym r) w;
              room = ground arith;
              batches = bs;
              total = subst (λ k. st.total_ok ≡ length st.batches * full + k) (sym r) t;
            })
      ]

  abbrev AnyError : Failure X → Type 0
  AnyError e = Unit

  row-IsFilling :
      (m : Fields X.Number) (st : ParseState X A) {st' : ParseState X A}
      → parse_object X A c m st ≡ ok st'
      → IsFilling st
      → IsFilling st'
  unfolding parse_object
  row-IsFilling m st e h =
      let (bs, f, g) =
        >>=-eq-ok
          (append_fields X A c.schema st.builders (shape X A c m) st.line_no c.ignore_errors) _ e in
      flush_full-IsFilling _ st.batch_rows g h.room refl
        (append_fields-IsFor X A c.schema st.builders (shape X A c m) st.line_no c.ignore_errors bs
          f h.built)
        (append_fields-AreOf X A st.batch_rows c.schema st.builders (shape X A c m) st.line_no
          c.ignore_errors f h.waiting)
        h.batches (omega (arith, h.total))

  parse_object-IsFilling :
      (m : Fields X.Number) (st : ParseState X A)
      → IsFilling st
      → Kept X A IsFilling AnyError (parse_object X A c m st)
  parse_object-IsFilling m st h = elim (Result-cases (parse_object X A c m st)) [
    | inr (x, e) ↦ rw (e, Kept) tt
    | inl (st', e) ↦ rw (e, Kept) (row-IsFilling m st e h)
  ]

  reject-IsFilling :
      (trimmed : Bytes) (x : X.JsonError) (st : ParseState X A)
      → IsFilling st
      → KeptRound X A IsFilling AnyError (reject X A c trimmed x st)
  unfolding reject
  reject-IsFilling trimmed x st h = elim (Bool-cases c.ignore_errors) [
    | inl e ↦
        rw (e, KeptRound)
          (record {
            built = h.built;
            waiting = h.waiting;
            room = h.room;
            batches = h.batches;
            total = h.total;
          })
    | inr e ↦ rw (e, KeptRound) tt
  ]

  lines-IsFilling :
      (ls : List Bytes) (st : ParseState X A)
      → IsFilling st
      → Kept X A IsFilling AnyError (parse_lines X A c ls st).result
  lines-IsFilling =
      parse_lines-Kept X A IsFilling AnyError c
        (λ st h. record {
          built = h.built;
          waiting = h.waiting;
          room = h.room;
          batches = h.batches;
          total = h.total;
        })
        reject-IsFilling parse_object-IsFilling

  start-IsFilling : IsFilling (parse_start X A c)
  start-IsFilling = record {
    built = new_builders-IsFor X A c.schema;
    waiting = new_builders-AreOf X A c.schema;
    room = omega arith;
    batches = tt;
    total = grind arith;
  }

  -- Full batches, and behind them one with the rows that are left, if any are.
  pub record IsCut (p : Parsed X A) : Type 0 where
    pub before : List A.RecordBatch
    pub rest : ℕ
    pub all_full : All (HasRows full) before
    pub not_full : rest < full
    pub total : p.rows_ok ≡ length before * full + rest
    pub last :
        ((rest ≡ 0) × (p.batches ≡ before))
        ⊎ ((0 < rest) × (b : A.RecordBatch) × (p.batches ≡ before ++ b ∷ []) × HasRows rest b)

  finish_chunk-IsCut :
      (st : ParseState X A) {p : Parsed X A} → finish_chunk X A c st ≡ ok p → IsFilling st → IsCut p
  unfolding finish_chunk flush_batch
  finish_chunk-IsCut st {p} h s = elim (Bool-cases (ltb 0 st.batch_rows)) [
    | inl e ↦ elim (Result-cases (A.try_new c.schema (map (finish X) st.builders))) [
      | inl (b, q) ↦ record {
        before = st.batches;
        rest = st.batch_rows;
        all_full = s.batches;
        not_full = s.room;
        total = ground (arith, s.total);
        last = inr (ground arith, b, ground arith, flushed-HasRows st st.batch_rows q s.waiting);
      }
      | inr (x, q) ↦ absurd (ground arith)
    ]
    | inr e ↦ record {
      before = st.batches;
      rest = st.batch_rows;
      all_full = s.batches;
      not_full = s.room;
      total = ground (arith, s.total);
      last = inl (ground arith, ground arith);
    }
  ]

  -- A chunk that is parsed is cut into batches of the batch size, where 0 counts as 1: each batch but
  -- the last has exactly that many rows in every column, the last one has the rows that are left, at
  -- least one, and together they have the rows that are counted.
  pub parse_chunk-IsCut :
      (bytes : Bytes) {p : Parsed X A} → (parse_chunk X A c bytes).result ≡ ok p → IsCut p
  unfolding parse_chunk
  parse_chunk-IsCut bytes h =
      let (st, e, f) =
        >>=-eq-ok (parse_lines X A c (split_lines bytes) (parse_start X A c)).result
          (finish_chunk X A c) h in
      finish_chunk-IsCut st f (
        subst (Kept X A IsFilling AnyError) e
          (lines-IsFilling (split_lines bytes) (parse_start X A c) start-IsFilling))
