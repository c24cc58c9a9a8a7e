-- ===== src/Chunk/Lines.antt =====
-- The newline counters of crates/parq-chunk/src/lib.rs.
use parq.Prelude.{
  ◌⊎◌, max, subst, sym, ltb, ℕ, zero, suc, ◌+◌, ◌≤◌, ◌<◌, ◌≡◌, refl, inl, inr, [], ◌∷◌, ◌++◌, arith,
  Bytes, newline, length, take, ◌==◌, leb, Bool-cases,
}
use parq.Chunk.{count_lines, offset_loop, offset_after_n_lines}

pub count_lines-append : (a b : Bytes) → count_lines (a ++ b) ≡ count_lines a + count_lines b
unfolding count_lines
count_lines-append [] b = omega arith
count_lines-append (c ∷ a) b = ground (arith, count_lines-append a b)

-- The loop from index `i`, with `count` newlines seen: `n` is reached within the rest.
loop_reached :
    (total n : ℕ) (rest : Bytes) (i count : ℕ)
    → count < n
    → n ≤ count + count_lines rest
    → (k : ℕ) × (offset_loop total n rest i count ≡ i + suc k)
      × (count + count_lines (take (suc k) rest) ≡ n)
      × (count + count_lines (take k rest) < n)
      × (k < length rest)
unfolding offset_loop count_lines
loop_reached total n [] i count h q = absurd (omega arith)
loop_reached total n (b ∷ rest) i count h q = elim (Bool-cases (b == newline)) [
  | inl e ↦ elim (Bool-cases (leb n (count + 1))) [
    | inl d ↦ (0, ground arith, ground arith, ground arith, omega arith)
    | inr d ↦
        let (k, at, here, before, within) =
          loop_reached total n rest (i + 1) (count + 1) (ground arith) (ground arith) in
        (suc k, ground arith, ground arith, ground arith, omega arith)
  ]
  | inr e ↦
      let (k, at, here, before, within) =
        loop_reached total n rest (i + 1) count h (ground arith) in
      (suc k, ground arith, ground arith, ground arith, omega arith)
]

-- it is not
loop_short :
    (total n : ℕ) (rest : Bytes) (i count : ℕ)
    → count + count_lines rest < n
    → offset_loop total n rest i count ≡ total
unfolding offset_loop count_lines
loop_short total n [] i count h = refl
loop_short total n (b ∷ rest) i count h =
    ground
      (arith, loop_short total n rest (i + 1) (count + 1), loop_short total n rest (i + 1) count)

loop_zero :
    (total : ℕ) (rest : Bytes) (i : ℕ) → offset_loop total 0 rest i 0 ≡ offset_loop total 1 rest i 0
unfolding offset_loop
loop_zero total [] i = refl
loop_zero total (b ∷ rest) i = ground (arith, loop_zero total rest (i + 1))

-- With at least `n` newlines in the bytes, for a positive `n`, the offset is the one just behind
-- the `n`-th: exactly `n` newlines stand before it, and fewer before its last byte.
offset_after_n_lines-reached :
    (bytes : Bytes) (n : ℕ)
    → 0 < n
    → n ≤ count_lines bytes
    → (k : ℕ) × (offset_after_n_lines bytes n ≡ suc k)
      × (count_lines (take (suc k) bytes) ≡ n)
      × (count_lines (take k bytes) < n)
      × (k < length bytes)
unfolding offset_after_n_lines
offset_after_n_lines-reached bytes n p h =
    let (k, at, here, before, within) = loop_reached (length bytes) n bytes 0 0 p (omega arith) in
    (k, omega arith, omega arith, omega arith, within)

-- With fewer than `n` newlines in the bytes the offset is their length.
offset_after_n_lines-short :
    (bytes : Bytes) (n : ℕ) → count_lines bytes < n → offset_after_n_lines bytes n ≡ length bytes
unfolding offset_after_n_lines
offset_after_n_lines-short bytes n h = loop_short (length bytes) n bytes 0 0 (omega arith)

-- No lines asked for is answered like one line.
offset_after_no_lines :
    (bytes : Bytes) → offset_after_n_lines bytes 0 ≡ offset_after_n_lines bytes 1
unfolding offset_after_n_lines
offset_after_no_lines bytes = loop_zero (length bytes) bytes 0

-- Just behind the n-th newline, or, when there are fewer, the length.
abbrev pub IsOffset : Bytes → ℕ → ℕ → Type 0
IsOffset bytes n i =
    ((count_lines bytes < n) × (i ≡ length bytes))
    ⊎ ((k : ℕ) × (i ≡ suc k)
        × (count_lines (take (suc k) bytes) ≡ n)
        × (count_lines (take k bytes) < n)
        × (k < length bytes))

positive-IsOffset :
    (bytes : Bytes) (n : ℕ) → 0 < n → IsOffset bytes n (offset_after_n_lines bytes n)
positive-IsOffset bytes n p = elim (Bool-cases (ltb (count_lines bytes) n)) [
  | inl e ↦
      let less : count_lines bytes < n = ground arith in
      inl (less, offset_after_n_lines-short bytes n less)
  | inr e ↦ inr (offset_after_n_lines-reached bytes n p (ground arith))
]

-- The offset is just behind the n-th newline, or the length of the bytes when there are fewer. Zero
-- lines are answered like one line.
pub offset_after_n_lines-IsOffset :
    (bytes : Bytes) (n : ℕ) → IsOffset bytes (max 1 n) (offset_after_n_lines bytes n)
offset_after_n_lines-IsOffset bytes zero =
    subst (IsOffset bytes 1) (sym (offset_after_no_lines bytes))
      (positive-IsOffset bytes 1 (omega arith))
offset_after_n_lines-IsOffset bytes (suc n) =
    let e : suc n ≡ max 1 (suc n) = omega arith in
    subst (λ m. IsOffset bytes m (offset_after_n_lines bytes (suc n))) e
      (positive-IsOffset bytes (suc n) (omega arith))
