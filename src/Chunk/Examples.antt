-- ===== src/Chunk/Examples.antt =====
-- Runs of the splitter, and its theorems at small inputs.
use parq.Prelude.{◌≡◌, refl, some, List, [], ◌∷◌, map, arith, Bytes, codes, concat}
use parq.Text.{records}
use parq.Chunk.{fixed_chunks, window_of, offset_after_n_lines, snap_to_newline, slice, push}
use parq.Chunk.Cuts.{CutsLines, fixed_chunks-lossless, fixed_chunks-CutsLines}
use parq.Chunk.Records.{fixed_chunks-records}
use parq.Chunk.Lines.{IsOffset, offset_after_n_lines-IsOffset}

abbrev three_lines : Bytes
three_lines = codes "a\nb\nno_newline"

abbrev two_chunks : List Bytes
two_chunks = codes "a\nb\n" ∷ codes "no_newline" ∷ []

chunks_of_two : fixed_chunks three_lines (some 2) ≡ some two_chunks
unfolding fixed_chunks slice push snap_to_newline
chunks_of_two = refl

fixed_chunks-lossless_example :
    (cs : List Bytes) × (fixed_chunks three_lines (some 2) ≡ some cs) × (concat cs ≡ three_lines)
fixed_chunks-lossless_example =
    fixed_chunks-lossless three_lines (some 2) (omega arith) (omega arith)

fixed_chunks-CutsLines_example : CutsLines (window_of (some 2)) two_chunks
fixed_chunks-CutsLines_example =
    fixed_chunks-CutsLines three_lines (some 2) (omega arith) (omega arith) chunks_of_two

fixed_chunks-records_example : concat (map records two_chunks) ≡ records three_lines
fixed_chunks-records_example =
    fixed_chunks-records three_lines (some 2) (omega arith) (omega arith) chunks_of_two

offset_after_n_lines-IsOffset_example : IsOffset three_lines 2 (offset_after_n_lines three_lines 2)
offset_after_n_lines-IsOffset_example = offset_after_n_lines-IsOffset three_lines 2
