-- ===== src/Parser/Bom.antt =====
-- A chunk that begins with a byte order mark: inference strips the mark, `parse_chunk` does not.

use parq.Prelude.{
  ℕ, ◌≡◌, refl, sym, ap, ◌∙◌, false, Bool-cases, inl, inr, List, [], ◌∷◌, ◌++◌, arith, Bytes, take,
}
use mathlib.Core.List.{reverse, reverse-append}
use parq.Prelude.Results.{err, ◌>>=◌}
use parq.Text.{is_space, trim_start, trim, cons_first, split_lines}
use parq.Crates.{Crates}
use parq.Error.{parq_error, json_parse}
use parq.Schema.{strip_bom, infer_start, infer_lines, finish_schema, infer_schema}
use parq.Parser.{
  Round, after_round, finish_chunk, Arrow, ParseConfig, failed, parse_start, limit_reached, reject,
  parse_line, parse_lines, parse_chunk,
}

-- The byte order mark of UTF-8.
abbrev pub bom : Bytes
bom = 239 ∷ 187 ∷ 191 ∷ []

trim_start-tail :
    (s : Bytes) (c : ℕ) (t : Bytes)
    → is_space c ≡ false
    → (r : Bytes) × (trim_start (s ++ c ∷ t) ≡ r ++ c ∷ t)
unfolding trim_start
trim_start-tail [] c t h = ([], rw h refl)
trim_start-tail (x ∷ s) c t h = elim (Bool-cases (is_space x)) [
  | inl e ↦ let (r, same) = trim_start-tail s c t h in (r, rw e same)
  | inr e ↦ (x ∷ s, rw e refl)
]

-- The mark is no white space.
trim-bom : (l : Bytes) → (r : Bytes) × (trim (bom ++ l) ≡ bom ++ r)
unfolding trim trim_start is_space
trim-bom l =
    let (r, same) = trim_start-tail (reverse l) 191 (187 ∷ 239 ∷ []) refl in
    (
      reverse r,
      ap (λ s. reverse (trim_start s)) (reverse-append bom l)
          ∙ ap reverse same
          ∙ reverse-append r (191 ∷ 187 ∷ 239 ∷ []),
    )

cons_first-line :
    (c : ℕ) (ls : List Bytes)
    → (l : Bytes) × (rest : List Bytes) × (cons_first c ls ≡ (c ∷ l) ∷ rest)
unfolding cons_first
cons_first-line c [] = ([], [], refl)
cons_first-line c (l ∷ ls) = (l, ls, refl)

-- The first line has the mark.
split_lines-bom :
    (s : Bytes) → (l : Bytes) × (rest : List Bytes) × (split_lines (bom ++ s) ≡ (bom ++ l) ∷ rest)
unfolding split_lines cons_first
split_lines-bom s =
    let (l, rest, same) = cons_first-line 191 (split_lines s) in
    (l, rest, ap (λ ls. cons_first 239 (cons_first 187 ls)) same)

strip_bom-bom : (s : Bytes) → strip_bom (bom ++ s) ≡ s
unfolding strip_bom
strip_bom-bom s = refl

module _ (X : Crates) where
  -- serde_json takes the mark for malformed JSON.
  abbrev pub RejectsBom : Type 0
  RejectsBom = (s : Bytes) → (e : X.JsonError) × (X.from_slice (bom ++ s) ≡ err e)

  module _ (A : Arrow X) (c : ParseConfig X A) where
    parse_line-bom :
        RejectsBom
        → c.ignore_errors ≡ false
        → limit_reached c.limit 0 ≡ false
        → (l : Bytes)
        → (e : X.JsonError) × (parse_line X A c (bom ++ l) (parse_start X A c)
            ≡ failed (parq_error (json_parse 1 e)))
    unfolding parse_line reject
    parse_line-bom h s u l =
        let (r, trimmed) = trim-bom l in
        let (e, rejected) = h r in (e, ground (arith, trimmed, rejected, u, s))

    -- If serde_json takes the mark for malformed JSON, then `infer_schema` gives for bytes behind a
    -- mark what it gives without it, if there is no second one; but `parse_chunk` fails on them in
    -- strict mode, unless the limit is 0, with malformed JSON on the first line.
    pub bom_not_stripped :
        RejectsBom
        → c.ignore_errors ≡ false
        → limit_reached c.limit 0 ≡ false
        → (bytes : Bytes) (n : ℕ) → strip_bom bytes ≡ bytes
        → (infer_schema X (bom ++ bytes) n ≡ infer_schema X bytes n)
          × (e : X.JsonError) × ((parse_chunk X A c (bom ++ bytes)).result
              ≡ err (parq_error (json_parse 1 e)))
    unfolding infer_schema parse_chunk parse_lines
    bom_not_stripped h s u bytes n clean =
        let (l, rest, split) = split_lines-bom bytes in
        let (e, fails) = parse_line-bom h s u l in
        let rounds = λ (ls : List Bytes).
          (parse_lines X A c ls (parse_start X A c)).result >>= finish_chunk X A c in
        let after = λ (r : Round X A).
          (after_round X A r (λ st'. parse_lines X A c rest st')).result >>= finish_chunk X A c in
        (
          ap (λ t. infer_lines X (take n (split_lines t)) (infer_start X) >>= finish_schema X)
              (strip_bom-bom bytes ∙ sym clean),
          e,
          ap rounds split ∙ ap after fails,
        )
