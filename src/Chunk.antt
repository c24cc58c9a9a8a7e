-- ===== src/Chunk.antt =====
-- crates/parq-chunk/src/lib.rs: the splitter that cuts the mapped file into windows, each cut just
-- behind a newline, and its line counters. A slice of the file is the list of its bytes, and an
-- index that stays below the length of a slice is a plain number; `start + window` adds a number
-- that the caller chose and is reduced modulo 2^64, as in a release build. `none` is a panic, or
-- fuel that ran out; the capacity that the vector of chunks asks for is taken to be there.
pub mod Snap
pub mod Partition
pub mod Cuts
pub mod Records
pub mod Lines
pub mod UnitTests
mod Examples
use parq.Prelude.{
  ℕ, zero, suc, ◌+◌, ◌-◌, ◌*◌, ◌%◌, ◌^◌, min, max, true, false, Option, none, some, List, [], ◌∷◌,
  ◌++◌, Bytes, newline, length, get_or, take, drop, ltb, leb, ◌==◌, if◌then◌else◌,
}

abbrev pub chunk_size_bytes : ℕ
chunk_size_bytes = 64 * 1024 * 1024

abbrev pub usize_mod : ℕ
usize_mod = 2 ^ 64

-- The length of a Rust slice is at most `isize::MAX`.
abbrev pub isize_max : ℕ
isize_max = 2 ^ 63 - 1

-- The `while` loop of `snap_to_newline`; the fuel is the number of bytes from `i` on.
unfoldable pub snap_loop : ℕ → Bytes → ℕ → ℕ
snap_loop zero bytes i = length bytes
snap_loop (suc fuel) bytes i =
    let rest = snap_loop fuel bytes (i + 1) in
    if ltb i (length bytes)
    then (if get_or bytes i 0 == newline then i + 1 else rest)
    else length bytes

unfoldable pub snap_to_newline : Bytes → ℕ → ℕ
unfolding snap_loop
snap_to_newline bytes pos = snap_loop (length bytes - pos) bytes pos

-- `&data[start..end]`, which panics out of range.
unfoldable pub slice : Bytes → ℕ → ℕ → Option Bytes
slice bytes start stop =
    if leb start stop
    then (if leb stop (length bytes) then some (take (stop - start) (drop start bytes)) else none)
    else none

-- `chunks.push(…)`, where the slice may panic.
unfoldable pub push : List Bytes → Option Bytes → Option (List Bytes)
push chunks none = none
push chunks (some chunk) = some (chunks ++ chunk ∷ [])

-- The `while` loop of `fixed_chunks` with its variables `start` and `chunks`.
unfoldable pub chunk_loop : ℕ → Bytes → ℕ → ℕ → List Bytes → Option (List Bytes)
chunk_loop zero bytes window start chunks = none
chunk_loop (suc fuel) bytes window start chunks =
    if ltb start (length bytes)
    then (let tentative = min ((start + window) % usize_mod) (length bytes) in
        if tentative == length bytes
        then push chunks (slice bytes start (length bytes))
        else (let stop = snap_to_newline bytes tentative in
            elim (push chunks (slice bytes start stop)) [
              | none ↦ none
              | some chunks' ↦ chunk_loop fuel bytes window stop chunks'
            ]))
    else some chunks

-- `chunk_size.unwrap_or(CHUNK_SIZE_BYTES).max(1)`
unfoldable pub window_of : Option ℕ → ℕ
window_of none = chunk_size_bytes
window_of (some n) = max n 1

unfoldable pub fixed_chunks : Bytes → Option ℕ → Option (List Bytes)
unfolding chunk_loop window_of
fixed_chunks [] chunk_size = some []
fixed_chunks (c ∷ s) chunk_size =
    chunk_loop (length (c ∷ s) + 1) (c ∷ s) (window_of chunk_size) 0 []

-- The number of newlines.
unfoldable pub count_lines : Bytes → ℕ
count_lines [] = 0
count_lines (c ∷ s) = let rest = count_lines s in if c == newline then suc rest else rest

-- The `for` loop of `offset_after_n_lines`: `i` is the index of the first byte of `rest`.
unfoldable pub offset_loop : ℕ → ℕ → Bytes → ℕ → ℕ → ℕ
offset_loop total n [] i count = total
offset_loop total n (b ∷ rest) i count = elim (b == newline) [
  | true ↦ elim (leb n (count + 1)) [
    | true ↦ i + 1
    | false ↦ offset_loop total n rest (i + 1) (count + 1)
  ]
  | false ↦ offset_loop total n rest (i + 1) count
]

unfoldable pub offset_after_n_lines : Bytes → ℕ → ℕ
unfolding offset_loop
offset_after_n_lines bytes n = offset_loop (length bytes) n bytes 0 0
