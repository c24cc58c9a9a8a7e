-- ===== src/Chunk/Cuts.antt =====
-- The chunks of `fixed_chunks` of crates/parq-chunk/src/lib.rs: their bytes, cuts and number.
use parq.Prelude.{
  ℕ, ◌≤◌, ◌<◌, ◌≡◌, ap, subst, ◌∙◌, sym, inl, inr, Option, some, List, [], ◌∷◌, ◌++◌, arith, Bytes,
  newline, Lacks, length, length-append, concat, append-nil, append_assoc,
}
use parq.Chunk.{isize_max, window_of, fixed_chunks}
use parq.Chunk.Snap.{IsLine}
use parq.Chunk.Partition.{Partition, empty, final, cut, IsUsize, fixed_chunks-Partition}

concat-Partition :
    {window : ℕ} {xs : Bytes} {cs : List Bytes} → Partition window xs cs → concat cs ≡ xs
concat-Partition (empty e) = sym e
concat-Partition (final {xs = xs} p q) = append-nil xs
concat-Partition (cut body line rest e _ _ _ p) =
    ap (λ s. (body ++ line) ++ s) (concat-Partition p) ∙ sym e

-- For every slice of at most `isize::MAX` bytes and every chunk size the splitter returns, and its
-- chunks, one behind the other, are the bytes of the slice, each once and in order.
pub fixed_chunks-lossless :
    (bytes : Bytes) (chunk_size : Option ℕ)
    → length bytes ≤ isize_max
    → IsUsize chunk_size
    → (cs : List Bytes) × (fixed_chunks bytes chunk_size ≡ some cs) × (concat cs ≡ bytes)
fixed_chunks-lossless bytes chunk_size l h =
    let (cs, e, p) = fixed_chunks-Partition bytes chunk_size l h in (cs, e, concat-Partition p)

-- `window` bytes, then the rest of one line with its newline.
pub record EndsLine (window : ℕ) (chunk : Bytes) : Type 0 where
  pub body : Bytes
  pub line : Bytes
  pub whole : chunk ≡ body ++ line ++ newline ∷ []
  pub full : length body ≡ window
  pub clean : Lacks newline line

-- Every chunk but the last ends the line that its window reaches into; no chunk is empty.
abbrev pub CutsLines : ℕ → List Bytes → Type 0
CutsLines window [] = Unit
CutsLines window (x ∷ []) = 0 < length x
CutsLines window (x ∷ y ∷ cs) = EndsLine window x × CutsLines window (y ∷ cs)

not_empty :
    {window : ℕ} {xs c : Bytes} {cs : List Bytes} → Partition window xs (c ∷ cs) → 0 < length xs
not_empty (final p q) = p
not_empty (cut body line rest e _ pos _ _) =
    rw e (omega (arith, length-append (body ++ line) rest, length-append body line))

ends_line :
    {window : ℕ} (body line rest : Bytes)
    → length body ≡ window
    → IsLine line rest
    → 0 < length rest
    → EndsLine window (body ++ line)
ends_line body line rest full l pos = elim l.ends [
  | inl e ↦ record {
    body = body;
    line = l.body;
    whole = ap (λ s. body ++ s) e ∙ sym (append_assoc body l.body (newline ∷ []));
    full = full;
    clean = l.clean;
  }
  | inr (e, f) ↦ absurd (omega (arith, ap length f))
]

CutsLines-Partition :
    {window : ℕ} {xs : Bytes} {cs : List Bytes} → Partition window xs cs → CutsLines window cs
CutsLines-Partition (empty e) = tt
CutsLines-Partition (final p q) = p
CutsLines-Partition (cut body line rest {chunks = []} e full pos l p) =
    omega (arith, length-append body line)
CutsLines-Partition (cut body line rest {chunks = y ∷ cs} e full pos l p) =
    (ends_line body line rest full l (not_empty p), CutsLines-Partition p)

-- The partition of a call that returned.
pub Partition-of :
    (bytes : Bytes) (chunk_size : Option ℕ) {cs : List Bytes}
    → length bytes ≤ isize_max
    → IsUsize chunk_size
    → fixed_chunks bytes chunk_size ≡ some cs
    → Partition (window_of chunk_size) bytes cs
Partition-of bytes chunk_size {cs} l h e =
    let (cs', e', p) = fixed_chunks-Partition bytes chunk_size l h in
    let same : cs' ≡ cs = cc in subst (Partition (window_of chunk_size) bytes) same p

-- Under these bounds no chunk is empty, and every chunk but the last is `window` bytes followed by
-- the rest of the line that those end in, up to and with its newline: no line is split.
pub fixed_chunks-CutsLines :
    (bytes : Bytes) (chunk_size : Option ℕ) {cs : List Bytes}
    → length bytes ≤ isize_max
    → IsUsize chunk_size
    → fixed_chunks bytes chunk_size ≡ some cs
    → CutsLines (window_of chunk_size) cs
fixed_chunks-CutsLines bytes chunk_size l h e =
    CutsLines-Partition (Partition-of bytes chunk_size l h e)
