-- ===== src/Chunk/UnitTests.antt =====
-- The unit tests of crates/parq-chunk/src/lib.rs, each as a test into `Bool`. An assertion that fails
-- and a panic of the splitter are both `false`.
use parq.Prelude.{
  ℕ, zero, suc, ◌+◌, ◌*◌, ◌/◌, ◌%◌, ◌≤◌, ◌≡◌, refl, ap, ◌∙◌, Bool, true, false, ◌&&◌, Option, none,
  some, List, [], ◌∷◌, ◌++◌, arith, Bytes, codes, newline, length, length-append, concat, str_eq,
  str_eq_refl, ◌==◌, if◌then◌else◌,
}
use parq.Text.Decimal.{put_digits, decimal}
use parq.Chunk.{isize_max, window_of, fixed_chunks}
use parq.Chunk.Partition.{IsUsize}
use parq.Chunk.Cuts.{EndsLine, CutsLines, fixed_chunks-lossless, fixed_chunks-CutsLines}

-- The rows of the test data, from number `i` on.
unfoldable pub ndjson_from : ℕ → ℕ → Bytes
ndjson_from i zero = []
ndjson_from i (suc rows) =
    codes "{\"id\":" ++ (decimal i ++ (codes "}\n" ++ ndjson_from (i + 1) rows))

unfoldable pub ndjson : ℕ → Bytes
ndjson rows = ndjson_from 0 rows

-- `rebuilt == data`
unfoldable pub rebuilds : Bytes → Option ℕ → Bool
rebuilds text chunk_size = elim (fixed_chunks text chunk_size) [
  | none ↦ false
  | some chunks ↦ str_eq (concat chunks) text
]

unfoldable pub lossless_for : List ℕ → Bytes → Bool
lossless_for [] text = true
lossless_for (cs ∷ sizes) text = rebuilds text (some cs) && lossless_for sizes text

unfoldable pub lossless_for_multiple_chunk_sizes : Bool
lossless_for_multiple_chunk_sizes = lossless_for (64 ∷ 512 ∷ 4096 ∷ 1048576 ∷ []) (ndjson 50000)

-- `*chunk.last().unwrap() == b'\n'`
unfoldable pub ends_in_newline : Bytes → Bool
ends_in_newline [] = false
ends_in_newline (c ∷ []) = c == newline
ends_in_newline (c ∷ d ∷ s) = ends_in_newline (d ∷ s)

-- The loop over the chunks behind the first `start` bytes: a chunk's end is told by its offset.
unfoldable pub all_end_lines : (start stop : ℕ) → List Bytes → Bool
all_end_lines start stop [] = true
all_end_lines start stop (chunk ∷ chunks) =
    (if start + length chunk == stop then true else ends_in_newline chunk)
    && all_end_lines (start + length chunk) stop chunks

unfoldable pub no_chunk_splits_mid_line : Bool
no_chunk_splits_mid_line = elim (fixed_chunks (ndjson 1000) (some 128)) [
  | none ↦ false
  | some chunks ↦ all_end_lines 0 (length (ndjson 1000)) chunks
]

unfoldable pub empty_input : Bool
empty_input = elim (fixed_chunks [] none) [
  | none ↦ false
  | some [] ↦ true
  | some (c ∷ chunks) ↦ false
]

unfoldable pub no_trailing_newline : Bool
unfolding rebuilds
no_trailing_newline = rebuilds (codes "a\nb\nno_newline") (some 4)

put_digits-short : (fuel n : ℕ) (out : Bytes) → length (put_digits fuel n out) ≤ fuel + length out
unfolding put_digits
put_digits-short zero n out = omega arith
put_digits-short (suc fuel) n out =
    ground (arith, put_digits-short fuel (n / 10) ((b'0' + n % 10) ∷ out))

decimal-short : (n : ℕ) → length (decimal n) ≤ n + 1
unfolding decimal
decimal-short n = omega (arith, put_digits-short (n + 1) n [])

more_rows : (rows t m : ℕ) → m ≤ t → (n : ℕ) → n ≤ rows * t → m + n ≤ suc rows * t
more_rows rows t m h n k = grind arith

ndjson-short : (rows i top : ℕ) → i + rows ≤ top → length (ndjson_from i rows) ≤ rows * (top + 9)
unfolding ndjson_from
ndjson-short zero i top h = omega arith
ndjson-short (suc rows) i top h =
    let rest = ndjson-short rows (i + 1) top (omega arith) in
    let this : length (decimal i) + 8 ≤ top + 9 = omega (arith, decimal-short i) in
    let all =
      more_rows rows (top + 9) (length (decimal i) + 8) this (length (ndjson_from (i + 1) rows))
        rest in
    omega (arith, all, length-append (decimal i) (125 ∷ 10 ∷ ndjson_from (i + 1) rows))

ndjson-bound : (rows : ℕ) → rows * (rows + 9) ≤ isize_max → length (ndjson rows) ≤ isize_max
unfolding ndjson
ndjson-bound rows h = omega (arith, ndjson-short rows 0 rows (omega arith), h)

rebuilds-always :
    (text : Bytes) (chunk_size : Option ℕ)
    → length text ≤ isize_max
    → IsUsize chunk_size
    → rebuilds text chunk_size ≡ true
unfolding rebuilds
rebuilds-always text chunk_size l h =
    let (cs, e, same) = fixed_chunks-lossless text chunk_size l h in
    rw (e, rebuilds) (ap (λ s. str_eq s text) same ∙ str_eq_refl text)

abbrev AreUsize : List ℕ → Type 0
AreUsize [] = Unit
AreUsize (n ∷ ns) = IsUsize (some n) × AreUsize ns

lossless_for-always :
    (sizes : List ℕ) (text : Bytes)
    → length text ≤ isize_max
    → AreUsize sizes
    → lossless_for sizes text ≡ true
unfolding lossless_for
lossless_for-always [] text l h = refl
lossless_for-always (n ∷ ns) text l h =
    ground (arith, rebuilds-always text (some n) l h.0, lossless_for-always ns text l h.1)

lossless_test : lossless_for_multiple_chunk_sizes ≡ true
unfolding lossless_for_multiple_chunk_sizes
lossless_test =
    lossless_for-always (64 ∷ 512 ∷ 4096 ∷ 1048576 ∷ []) (ndjson 50000)
      (ndjson-bound 50000 (omega arith)) (omega arith)

ends_in_newline-append : (s : Bytes) → ends_in_newline (s ++ newline ∷ []) ≡ true
unfolding ends_in_newline
ends_in_newline-append [] = refl
ends_in_newline-append (c ∷ []) = refl
ends_in_newline-append (c ∷ d ∷ s) = ends_in_newline-append (d ∷ s)

EndsLine-newline :
    {window : ℕ} {chunk : Bytes} → EndsLine window chunk → ends_in_newline chunk ≡ true
EndsLine-newline l = ap ends_in_newline l.whole ∙ ends_in_newline-append (l.body ++ l.line)

both_hold :
    (last b rest : Bool) → b ≡ true → rest ≡ true → ((if last then true else b) && rest) ≡ true
both_hold last b rest h k = ground arith

CutsLines-all_end_lines :
    (window start stop : ℕ) (cs : List Bytes)
    → CutsLines window cs
    → start + length (concat cs) ≡ stop
    → all_end_lines start stop cs ≡ true
unfolding all_end_lines
CutsLines-all_end_lines window start stop [] h e = refl
CutsLines-all_end_lines window start stop (x ∷ []) h e = ground (arith, length-append x [])
CutsLines-all_end_lines window start stop (x ∷ y ∷ cs) h e =
    let rest =
      CutsLines-all_end_lines window (start + length x) stop (y ∷ cs) h.1
        (omega (arith, e, length-append x (concat (y ∷ cs)))) in
    both_hold (start + length x == stop) (ends_in_newline x)
      (all_end_lines (start + length x) stop (y ∷ cs)) (EndsLine-newline h.0) rest

mid_line_test : no_chunk_splits_mid_line ≡ true
unfolding no_chunk_splits_mid_line
mid_line_test =
    let short = ndjson-bound 1000 (omega arith) in
    let (cs, e, same) = fixed_chunks-lossless (ndjson 1000) (some 128) short (omega arith) in
    let cut = fixed_chunks-CutsLines (ndjson 1000) (some 128) short (omega arith) e in
    rw (e, no_chunk_splits_mid_line)
      (CutsLines-all_end_lines (window_of (some 128)) 0 (length (ndjson 1000)) cs cut
        (omega (arith, ap length same)))

empty_test : empty_input ≡ true
unfolding empty_input fixed_chunks
empty_test = refl

newline_test : no_trailing_newline ≡ true
unfolding no_trailing_newline
newline_test = rebuilds-always (codes "a\nb\nno_newline") (some 4) (omega arith) (omega arith)
