-- ===== src/Chunk/Snap.antt =====
-- `snap_to_newline` against a cut of the remaining bytes at the first newline.
use native.Mathlib.Numerals.{add-one}
use parq.Prelude.{
  ℕ, zero, suc, ◌+◌, ◌-◌, ◌≤◌, ◌<◌, ◌≡◌, ◌≢◌, refl, ap, ◌⊎◌, inl, inr, true, false, [], ◌∷◌, ◌++◌,
  arith, Bytes, newline, length, take, drop, ltb, ltb→lt, ==_iff, Bool-cases, ◌==◌, Lacks,
  drop-length, drop-cons,
}
use parq.Chunk.{snap_loop, snap_to_newline}

-- `head` is one line of `xs`: it ends with the only newline in it, or no newline is in `xs`.
pub record IsLine (head rest : Bytes) : Type 0 where
  pub body : Bytes
  pub clean : Lacks newline body
  pub ends : (head ≡ body ++ newline ∷ []) ⊎ ((head ≡ body) × (rest ≡ []))

cons-IsLine : (c : ℕ) {head rest : Bytes} → c ≢ newline → IsLine head rest → IsLine (c ∷ head) rest
cons-IsLine c h l = record {
  body = c ∷ l.body;
  clean = (h, l.clean);
  ends = elim l.ends [ inl e ↦ inl (ap (λ s. c ∷ s) e) | inr (e, f) ↦ inr (ap (λ s. c ∷ s) e, f) ];
}

-- The length of the first line of a list of bytes, its newline included.
abbrev pub line_length : Bytes → ℕ
line_length [] = 0
line_length (c ∷ s) = elim (c == newline) [ true ↦ 1 | false ↦ suc (line_length s) ]

pub line_length-le : (s : Bytes) → line_length s ≤ length s
line_length-le [] = omega arith
line_length-le (c ∷ s) = ground (arith, line_length-le s)

pub line_length-pos : (s : Bytes) → 0 < length s → 0 < line_length s
line_length-pos [] h = elim h [ ]
line_length-pos (c ∷ s) h = ground arith

-- `xs` starts with a line of that length.
pub take-IsLine : (s : Bytes) → IsLine (take (line_length s) s) (drop (line_length s) s)
take-IsLine [] = record { body = []; clean = tt; ends = inr (refl, refl) }
take-IsLine (c ∷ s) = elim (Bool-cases (c == newline)) [
  | inl e ↦
      rw (e, line_length)
        (record { body = []; clean = tt; ends = inl (rw ((==_iff c newline).0 e)) })
  | inr e ↦
      rw (e, line_length) (cons-IsLine c (λ p. cc (e, (==_iff c newline).1 p)) (take-IsLine s))
]

snap_loop-eq :
    (fuel : ℕ) (bytes : Bytes) (i : ℕ)
    → i ≤ length bytes
    → length bytes ≤ i + fuel
    → snap_loop fuel bytes i ≡ i + line_length (drop i bytes)
unfolding snap_loop
snap_loop-eq zero bytes i h k = rw (drop-length bytes i (omega arith)) (omega arith)
snap_loop-eq (suc fuel) bytes i h k = elim (Bool-cases (ltb i (length bytes))) [
  | inl e ↦
      rw (e, drop-cons i bytes 0 (ltb→lt _ _ e))
        (ground (arith, snap_loop-eq fuel bytes (i + 1), add-one i))
  | inr e ↦ rw (e, drop-length bytes i (ground arith)) (ground arith)
]

-- The byte after the next newline at or behind `pos`, or the end.
pub snap_to_newline-eq :
    (bytes : Bytes) (pos : ℕ)
    → pos ≤ length bytes
    → snap_to_newline bytes pos ≡ pos + line_length (drop pos bytes)
unfolding snap_to_newline
snap_to_newline-eq bytes pos h = snap_loop-eq (length bytes - pos) bytes pos h (omega arith)
