-- ===== src/Io/Codecs.antt =====
-- The names of the codecs.
use parq.Prelude.{ℕ, ◌≡◌, refl, true, ◌&&◌, ◌||◌, [], ◌∷◌, map, Bytes, codes, leb, str_eq, All}
use parq.Prelude.Results.{ok}
use parq.Crates.{Crates}
use parq.Prepare.{Compression, snappy, gzip, brotli, zstd, lz4, uncompressed}
use parq.Io.{compression_options, codec, parse_compression}

abbrev pub name_of : Compression → Bytes
name_of snappy = codes "snappy"
name_of gzip = codes "gzip"
name_of brotli = codes "brotli"
name_of zstd = codes "zstd"
name_of lz4 = codes "lz4"
name_of uncompressed = codes "none"

-- A small ASCII letter or a digit.
abbrev pub IsLower : ℕ → Type 0
IsLower c = (leb b'a' c && leb c b'z' || leb b'0' c && leb c b'9') ≡ true

name_of-IsLower : (c : Compression) → All IsLower (name_of c)
name_of-IsLower snappy = (refl, (refl, (refl, (refl, (refl, (refl, tt))))))
name_of-IsLower gzip = (refl, (refl, (refl, (refl, tt))))
name_of-IsLower brotli = (refl, (refl, (refl, (refl, (refl, (refl, tt))))))
name_of-IsLower zstd = (refl, (refl, (refl, (refl, tt))))
name_of-IsLower lz4 = (refl, (refl, (refl, tt)))
name_of-IsLower uncompressed = (refl, (refl, (refl, (refl, tt))))

module _ (X : Crates) (to_lowercase : Bytes → Bytes) where
  codec-name_of : (c : Compression) → codec X to_lowercase (name_of c) ≡ ok c
  unfolding codec str_eq
  codec-name_of snappy = refl
  codec-name_of _ = refl

  -- If `to_lowercase` leaves small ASCII letters and digits alone, each codec is parsed from its
  -- name, and from every text that is the name in lower case; the names are those that are listed
  -- for the help text.
  pub parse_compression-name_of :
      ((s : Bytes) → All IsLower s → to_lowercase s ≡ s)
      → (c : Compression) (s : Bytes) → to_lowercase s ≡ name_of c
      → (parse_compression X to_lowercase (name_of c) ≡ ok c)
        × (parse_compression X to_lowercase s ≡ ok c)
        × (compression_options
            ≡ map name_of (snappy ∷ gzip ∷ brotli ∷ zstd ∷ lz4 ∷ uncompressed ∷ []))
  unfolding parse_compression
  parse_compression-name_of lower c s e =
      (rw (lower (name_of c) (name_of-IsLower c)) (codec-name_of c), rw e (codec-name_of c), refl)
