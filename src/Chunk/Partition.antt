-- ===== src/Chunk/Partition.antt =====
-- `fixed_chunks` against an inductive description of a partition into chunks that end with a line.
use parq.Prelude.{
  ℕ, zero, suc, ◌+◌, ◌-◌, ◌≤◌, ◌<◌, ◌%◌, min, ◌≡◌, refl, sym, ap, ◌⊎◌, ◌∙◌, Option, none, some,
  List, [], ◌∷◌, ◌++◌, arith, Bytes, append_assoc, append-nil, length, take, drop, leb, lt→ltb,
  Bool-cases, false, leb→le, ◌==◌, inl, inr, length-take, length-drop, take-append-drop, drop-drop,
  drop-length,
}
use parq.Chunk.{usize_mod, isize_max, slice, push, chunk_loop, window_of, fixed_chunks}
use parq.Chunk.Snap.{
  IsLine, line_length, line_length-le, line_length-pos, take-IsLine, snap_to_newline-eq,
}

-- `xs` is cut into `chunks`: each chunk but the last is `window` bytes and the rest of the line
-- that those reach into.
pub data Partition (window : ℕ) : Bytes → List Bytes → Type 0 where
  empty : {xs : Bytes} → xs ≡ [] → Partition window xs []
  final : {xs : Bytes} → 0 < length xs → length xs ≤ window → Partition window xs (xs ∷ [])
  cut :
      {xs : Bytes} (body line rest : Bytes) {chunks : List Bytes}
      → xs ≡ body ++ line ++ rest
      → length body ≡ window
      → 0 < length line
      → IsLine line rest
      → Partition window rest chunks
      → Partition window xs ((body ++ line) ∷ chunks)

-- the chunk that one round cuts off
abbrev chunk_at : Bytes → ℕ → ℕ → Bytes
chunk_at xs window n = take window xs ++ take n (drop window xs)

take_both :
    (m n : ℕ) (xs : Bytes) → m ≤ length xs → take (m + n) xs ≡ take m xs ++ take n (drop m xs)
take_both zero n xs h = let e : 0 + n ≡ n = omega arith in ap (λ k. take k xs) e
take_both (suc m) n [] h = elim h [ ]
take_both (suc m) n (x ∷ xs) h =
    let e : suc m + n ≡ suc (m + n) = omega arith in
    ap (λ k. take k (x ∷ xs)) e ∙ ap (λ s. x ∷ s) (take_both m n xs (omega arith))

take-length : (xs : Bytes) (n : ℕ) → length xs ≤ n → take n xs ≡ xs
take-length [] zero h = refl
take-length [] (suc n) h = refl
take-length (x ∷ xs) zero h = elim h [ ]
take-length (x ∷ xs) (suc n) h = ap (λ s. x ∷ s) (take-length xs n (omega arith))

-- In range a slice is the bytes between its ends.
slice-some :
    (xs : Bytes) (start stop : ℕ)
    → start ≤ stop
    → stop ≤ length xs
    → slice xs start stop ≡ some (take (stop - start) (drop start xs))
unfolding slice
slice-some xs start stop h k = ground arith

-- Nothing wraps around: a window that reaches past the file is used at the start only.
abbrev Fits : ℕ → ℕ → ℕ → Type 0
Fits start window n = (window < usize_mod) × (n ≤ isize_max) × ((start ≡ 0) ⊎ (window < n))

tentative-eq :
    (start window n : ℕ)
    → start < n
    → Fits start window n
    → min ((start + window) % usize_mod) n ≡ min (start + window) n
tentative-eq start window n h f = omega arith

-- The three ways in which a round ends.
module _ (fuel : ℕ) (bytes : Bytes) (window start : ℕ) (chunks : List Bytes) where
  loop_done : length bytes ≤ start → chunk_loop (suc fuel) bytes window start chunks ≡ some chunks
  unfolding chunk_loop
  loop_done h = ground arith

  loop_final :
      start < length bytes
      → Fits start window (length bytes)
      → length bytes ≤ start + window
      → chunk_loop (suc fuel) bytes window start chunks ≡ some (chunks ++ drop start bytes ∷ [])
  unfolding chunk_loop push
  loop_final h f k = rw (tentative-eq start window (length bytes) h f) (
      ground (
        arith,
        slice-some bytes start (length bytes),
        take-length (drop start bytes) (length bytes - start),
        length-drop start bytes,
      ))

  abbrev line_end : ℕ
  line_end = line_length (drop (start + window) bytes)

  at_window :
      Fits start window (length bytes)
      → start + window < length bytes
      → min ((start + window) % usize_mod) (length bytes) ≡ start + window
  at_window f k = omega arith

  not_end : start + window < length bytes → (start + window == length bytes) ≡ false
  not_end k = ground arith

  fits_line : start + window < length bytes → start + window + line_end ≤ length bytes
  fits_line k =
      omega
        (arith, line_length-le (drop (start + window) bytes), length-drop (start + window) bytes)

  chunk_at-eq :
      start + window < length bytes
      → take (start + window + line_end - start) (drop start bytes)
        ≡ chunk_at (drop start bytes) window line_end
  chunk_at-eq k =
      let e : start + window + line_end - start ≡ window + line_end = omega arith in
      rw (
        e,
        take_both window line_end (drop start bytes) (omega (arith, length-drop start bytes)),
        drop-drop window start bytes,
      )

  loop_cut :
      Fits start window (length bytes)
      → start + window < length bytes
      → chunk_loop (suc fuel) bytes window start chunks
        ≡ chunk_loop fuel bytes window
            (start + window + line_end)
            (chunks ++ chunk_at (drop start bytes) window line_end ∷ [])
  unfolding chunk_loop push
  loop_cut f k = rw (
    lt→ltb start (length bytes) (omega arith),
    at_window f k,
    not_end k,
    snap_to_newline-eq bytes (start + window) (omega arith),
    slice-some bytes start (start + window + line_end) (omega arith) (fits_line k),
    chunk_at-eq k,
    push,
    at_window f k,
    snap_to_newline-eq bytes (start + window) (omega arith),
  )

-- A chunk size that a `usize` can hold.
abbrev pub IsUsize : Option ℕ → Type 0
IsUsize none = Unit
IsUsize (some n) = n < usize_mod

-- What a round cuts off, and what is left, make up the file from `start` on.
split_at :
    (xs : Bytes) (window n : ℕ)
    → xs ≡ take window xs ++ take n (drop window xs) ++ drop n (drop window xs)
split_at xs window n =
    rw (append_assoc, take-append-drop n (drop window xs), take-append-drop window xs)

abbrev Cut : ℕ → Bytes → ℕ → ℕ → List Bytes → Type 0
Cut fuel bytes window start chunks =
    (cs : List Bytes) × (chunk_loop fuel bytes window start chunks ≡ some (chunks ++ cs))
    × Partition window (drop start bytes) cs

-- One more chunk in front of what the later rounds cut.
next-Cut :
    (fuel : ℕ) (bytes : Bytes) (window start : ℕ) (chunks : List Bytes)
    → Fits start window (length bytes)
    → start + window < length bytes
    → Cut fuel bytes window (start + window + line_length (drop (start + window) bytes)) (
        chunks
        ++ chunk_at (drop start bytes) window (line_length (drop (start + window) bytes)) ∷ [])
    → Cut (suc fuel) bytes window start chunks
next-Cut fuel bytes window start chunks f k (cs, e, p) =
    let n : ℕ = line_length (drop (start + window) bytes) in
    let left : drop n (drop window (drop start bytes)) ≡ drop (start + window + n) bytes =
      rw (drop-drop window start bytes) (drop-drop n (start + window) bytes) in
    let line : IsLine (take n (drop window (drop start bytes)))
        (drop n (drop window (drop start bytes))) =
      rw (drop-drop window start bytes) (take-IsLine (drop (start + window) bytes)) in
    (
      chunk_at (drop start bytes) window n ∷ cs,
      loop_cut fuel bytes window start chunks f k ∙ e ∙ ap some (append_assoc chunks _ cs),
      cut (take window (drop start bytes)) (take n (drop window (drop start bytes)))
          (drop n (drop window (drop start bytes))) (split_at (drop start bytes) window n)
          (omega (arith, length-take window (drop start bytes), length-drop start bytes))
          (omega (
            arith,
            length-take n (drop window (drop start bytes)),
            length-drop window (drop start bytes),
            length-drop start bytes,
            length-drop (start + window) bytes,
            line_length-le (drop (start + window) bytes),
            line_length-pos (drop (start + window) bytes),
          ))
          line (rw left p),
    )

chunk_loop-Partition :
    (fuel : ℕ) (bytes : Bytes) (window start : ℕ) (chunks : List Bytes)
    → start ≤ length bytes
    → length bytes < start + fuel
    → Fits start window (length bytes)
    → 0 < window
    → Cut fuel bytes window start chunks
chunk_loop-Partition zero bytes window start chunks l h f p = absurd (omega arith)
chunk_loop-Partition (suc fuel) bytes window start chunks l h f p =
    elim (Bool-cases (leb (length bytes) start)) [
      | inl e ↦ (
        [],
        loop_done fuel bytes window start chunks (leb→le _ _ e) ∙ ap some (sym (append-nil chunks)),
        empty (drop-length bytes start (leb→le _ _ e)),
      )
      | inr e ↦ elim (Bool-cases (leb (length bytes) (start + window))) [
        | inl d ↦ (
          drop start bytes ∷ [],
          loop_final fuel bytes window start chunks (ground arith) f (leb→le _ _ d),
          final (ground (arith, length-drop start bytes)) (ground (arith, length-drop start bytes)),
        )
        | inr d ↦ next-Cut fuel bytes window start chunks f (ground arith) (
            chunk_loop-Partition fuel bytes window
              (start + window + line_length (drop (start + window) bytes)) _
              (fits_line fuel bytes window start chunks (ground arith)) (omega (arith))
              (ground arith) p)
      ]
    ]

pub window-bounds : (c : Option ℕ) → IsUsize c → (0 < window_of c) × (window_of c < usize_mod)
unfolding window_of
window-bounds none h = omega arith
window-bounds (some n) h = omega arith

-- The splitter returns, and what it returns is a partition.
pub fixed_chunks-Partition :
    (bytes : Bytes) (chunk_size : Option ℕ)
    → length bytes ≤ isize_max
    → IsUsize chunk_size
    → (cs : List Bytes) × (fixed_chunks bytes chunk_size ≡ some cs)
      × Partition (window_of chunk_size) bytes cs
unfolding fixed_chunks
fixed_chunks-Partition [] c l h = ([], refl, empty refl)
fixed_chunks-Partition (b ∷ s) c l h =
    let (pos, fits) = window-bounds c h in
    chunk_loop-Partition (length (b ∷ s) + 1) (b ∷ s) (window_of c) 0 [] (omega arith) (omega arith)
      (fits, l, inl refl) pos
