-- ===== src/Text/Lines.antt =====
-- How lines and records of a concatenation are those of its parts.
use parq.Prelude.{
  ◌+◌, ◌≤◌, length, ℕ, ◌≡◌, ◌≢◌, refl, List, [], ◌∷◌, ◌++◌, arith, Bytes, newline, append_assoc,
  append-nil,
}
use parq.Text.{cons_first, split_lines, trim, keep_records, records}

cons_first-append :
    (c : ℕ) (ls ms : List Bytes) → ls ≢ [] → cons_first c (ls ++ ms) ≡ cons_first c ls ++ ms
unfolding cons_first
cons_first-append c [] ms h = absurd (h refl)
cons_first-append c (l ∷ ls) ms h = refl

split_lines-ne-nil : (s : Bytes) → split_lines s ≢ []
unfolding split_lines
split_lines-ne-nil [] h = cc
split_lines-ne-nil (c ∷ s) h = ground arith

-- A newline ends a line: what is before it and what is behind it are split apart.
pub split_lines-append :
    (a b : Bytes) → split_lines (a ++ newline ∷ b) ≡ split_lines a ++ split_lines b
unfolding split_lines
split_lines-append [] b = ground arith
split_lines-append (c ∷ a) b = ground (
  arith,
  split_lines-append a b,
  cons_first-append c (split_lines a) (split_lines b) (split_lines-ne-nil a),
)

keep_records-append :
    (ls ms : List Bytes) → keep_records (ls ++ ms) ≡ keep_records ls ++ keep_records ms
unfolding keep_records
keep_records-append [] ms = refl
keep_records-append (l ∷ ls) ms = ground (arith, keep_records-append ls ms)

-- The records before a newline, and those behind it.
pub records-append : (a b : Bytes) → records (a ++ newline ∷ b) ≡ records a ++ records b
unfolding records
records-append a b = rw split_lines-append (keep_records-append (split_lines a) (split_lines b))

pub records-nil : records [] ≡ []
unfolding records split_lines keep_records trim
records-nil = refl

-- A final newline adds no record.
pub records-newline : (a : Bytes) → records (a ++ newline ∷ []) ≡ records a
records-newline a = rw (records-append, records-nil, append-nil)

-- The records of a text that goes on behind a newline.
pub records_line_append :
    (a b : Bytes) → records ((a ++ newline ∷ []) ++ b) ≡ records (a ++ newline ∷ []) ++ records b
records_line_append a b = rw (append_assoc, records-append, records-newline)

-- The bytes of all lines.
abbrev total : List Bytes → ℕ
total [] = 0
total (l ∷ ls) = length l + total ls

total-cons_first : (c : ℕ) (ls : List Bytes) → total (cons_first c ls) ≡ 1 + total ls
unfolding cons_first
total-cons_first c [] = refl
total-cons_first c (l ∷ ls) = omega arith

total-split_lines : (s : Bytes) → total (split_lines s) ≤ length s
unfolding split_lines
total-split_lines [] = omega arith
total-split_lines (c ∷ s) = ground (arith, total-split_lines s, total-cons_first c (split_lines s))

length-keep_records : (ls : List Bytes) → length (keep_records ls) ≤ total ls
unfolding keep_records trim
length-keep_records [] = omega arith
length-keep_records ([] ∷ ls) = omega (arith, length-keep_records ls)
length-keep_records ((c ∷ l) ∷ ls) = ground (arith, length-keep_records ls)

-- A record takes a byte at least.
pub length-records : (s : Bytes) → length (records s) ≤ length s
unfolding records
length-records s = omega (arith, length-keep_records (split_lines s), total-split_lines s)
