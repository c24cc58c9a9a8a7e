-- ===== src/Metrics/Report.antt =====
-- The lines of the report of crates/parq-metrics/src/lib.rs, and their widths.
use parq.Prelude.{
  ◌+◌, ◌≤◌, ◌≡◌, List, [], ◌∷◌, ◌++◌, map, arith, Bytes, All, codes, length, length-append, max,
  refl,
}
use parq.Text.Decimal.{pad_left, pad_right, pad_center, length-pad_left, length-pad_right}
use parq.Metrics.{Floats, ProcessingMetrics, head_lines, foot_line, row_line, report_rows, report}

module _ (R : Floats) where
  row_line-width :
      (label value : Bytes)
      → length (row_line R (label, value)) ≡ 6 + max 22 (length label) + max 26 (length value)
  unfolding row_line
  row_line-width label value = omega (
    arith,
    length-append (codes "│  " ++ pad_left 22 label ++ pad_right 26 value) (codes "  │"),
    length-append (codes "│  " ++ pad_left 22 label) (pad_right 26 value),
    length-append (codes "│  ") (pad_left 22 label),
    length-pad_left 22 label,
    length-pad_right 26 value,
  )

  -- The frame's lines, and the lines of a table of labels and values.
  abbrev pub frame : List Bytes
  frame = head_lines R ++ foot_line R ∷ []

  frame-width : All (λ l. length l ≡ 52) frame
  unfolding head_lines foot_line pad_center
  frame-width = (refl, (refl, (refl, (refl, tt))))

  abbrev pub IsWide : Bytes → Type 0
  IsWide l = 54 ≤ length l

  rows-IsWide : (rows : List (Bytes × Bytes)) → All IsWide (map (row_line R) rows)
  rows-IsWide [] = tt
  rows-IsWide ((label, value) ∷ rows) =
      (omega (arith, row_line-width label value), rows-IsWide rows)

  -- The report is not aligned: its frame and its title are 52 characters wide, and each of its
  -- eleven rows is at least 54 wide, whatever the run.
  pub report_misaligned :
      (m : ProcessingMetrics)
      → (rows : List Bytes) × (report R m ≡ head_lines R ++ rows ++ foot_line R ∷ [])
        × (length rows ≡ 11)
        × All IsWide rows
        × All (λ l. length l ≡ 52) frame
  unfolding report report_rows
  report_misaligned m =
      (map (row_line R) (report_rows R m), refl, refl, rows-IsWide (report_rows R m), frame-width)
