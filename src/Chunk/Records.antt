-- ===== src/Chunk/Records.antt =====
-- The records of the chunks that `fixed_chunks` gives, and those of the file.
use parq.Prelude.{
  ℕ, ◌≤◌, ◌≡◌, sym, inl, inr, Option, some, List, ◌++◌, map, Bytes, length, concat, append-nil,
  append_assoc,
}
use parq.Text.{records}
use parq.Text.Lines.{records-nil, records_line_append}
use parq.Chunk.{isize_max, fixed_chunks}
use parq.Chunk.Snap.{IsLine}
use parq.Chunk.Partition.{Partition, empty, final, cut, IsUsize}
use parq.Chunk.Cuts.{Partition-of}

records-cut :
    (body line rest : Bytes)
    → IsLine line rest
    → records (body ++ line ++ rest) ≡ records (body ++ line) ++ records rest
records-cut body line rest l = elim l.ends [
  | inl e ↦ rw (e, ← append_assoc, records_line_append)
  | inr (e, f) ↦ rw (f, records-nil, append-nil, append-nil)
]

pub records-Partition :
    {window : ℕ} {xs : Bytes} {cs : List Bytes}
    → Partition window xs cs
    → concat (map records cs) ≡ records xs
records-Partition (empty e) = rw e (sym records-nil)
records-Partition (final {xs = xs} p q) = append-nil (records xs)
records-Partition (cut body line rest e full pos l p) =
    rw (e, records-Partition p) (sym (records-cut body line rest l))

-- The records of the chunks, one chunk behind the other, are the records of the file: no record is
-- lost, split, joined to another or moved, whatever the chunk size,
-- for a file of at most `isize::MAX` bytes.
pub fixed_chunks-records :
    (bytes : Bytes) (chunk_size : Option ℕ) {cs : List Bytes}
    → length bytes ≤ isize_max
    → IsUsize chunk_size
    → fixed_chunks bytes chunk_size ≡ some cs
    → concat (map records cs) ≡ records bytes
fixed_chunks-records bytes chunk_size l h e =
    records-Partition (Partition-of bytes chunk_size l h e)
