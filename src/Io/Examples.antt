-- ===== src/Io/Examples.antt =====
-- The writer's theorems at a batch, and those on the codecs.
use parq.Prelude.{All, arith, ◌≡◌, refl, List, [], ◌∷◌, map, Bytes, codes}
use parq.Prelude.Results.{ok}
use parq.Crates.Toy.{toy}
use parq.Columns.{Array, int64_array}
use parq.Prepare.{snappy, gzip, brotli, zstd, lz4, uncompressed}
use parq.Io.{compression_options, parse_compression}
use parq.Cli.Toy.{lower_ascii}
use parq.Io.Codecs.{name_of, IsLower, parse_compression-name_of}

abbrev one_batch : List (List (Array toy))
one_batch = (int64_array [] ∷ []) ∷ []

lower_ascii-IsLower : (s : Bytes) → All IsLower s → lower_ascii s ≡ s
lower_ascii-IsLower [] h = refl
lower_ascii-IsLower (c ∷ s) h =
    let rest = lower_ascii-IsLower s h.1 in let head = h.0 in ground (arith, rest, head)

parse_compression-name_of_example :
    (parse_compression toy lower_ascii (codes "zstd") ≡ ok zstd)
    × (parse_compression toy lower_ascii (codes "ZStd") ≡ ok zstd)
    × (compression_options ≡ map name_of (snappy ∷ gzip ∷ brotli ∷ zstd ∷ lz4 ∷ uncompressed ∷ []))
parse_compression-name_of_example =
    parse_compression-name_of toy lower_ascii lower_ascii-IsLower zstd (codes "ZStd") refl
