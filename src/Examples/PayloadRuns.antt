-- ===== src/Examples/PayloadRuns.antt =====
-- Tests of server/webbou/crypto.go and server/webbou/compression.go.
use web_bou.Prelude.{
  ℕ, zero, suc, ◌*◌, ◌≤◌, ◌<◌, ◌≡◌, ◌↔◌, refl, Option, none, some, [], ◌∷◌, length, leb,
  if◌then◌else◌, arith,
}
use web_bou.Encoding.{Bytes}
use web_bou.Compression.{Libraries, compress, decompress, decompress-compress_medium}

-- A run of one byte.
abbrev zeros : ℕ → Bytes
zeros zero = []
zeros (suc n) = 0 ∷ zeros n

-- A stand-in for both compressors that stores its input: a block is the input itself, and a
-- Zstandard frame is the input behind a mark.
abbrev marked : Bytes → Option Bytes
marked [] = none
marked (b ∷ bytes) = if leb 1 b then some bytes else none

abbrev restore : Bytes → ℕ → Option Bytes
restore block size = if leb (length block) size then some block else none

restore_fits :
    (bytes block : Bytes) (size : ℕ)
    → some bytes ≡ some block
    → length bytes ≤ size
    → restore block size ≡ some bytes
restore_fits bytes block size e h = ground (arith, e, h)

restore_short :
    (bytes block : Bytes) (size : ℕ)
    → some bytes ≡ some block
    → size < length bytes
    → restore block size ≡ none
restore_short bytes block size e h = ground (arith, e, h)

abbrev storing : Libraries
storing = record {
  lz4_compress_block = λ bytes. some bytes;
  lz4_uncompress_block = restore;
  zstd_encode = λ bytes. 1 ∷ bytes;
  zstd_decode = marked;
  zstd_decode-encode = λ bytes. refl;
  lz4_fits = restore_fits;
  lz4_short = restore_short;
}

zeros_packed : compress storing (zeros 600) ≡ some (zeros 600)
unfolding compress
zeros_packed = refl

decompress-compress_medium_example :
    (decompress storing (zeros 600) ≡ some (zeros 600))
    ↔ (length (zeros 600) ≤ length (zeros 600) * 4)
decompress-compress_medium_example =
    decompress-compress_medium storing (zeros 600) (zeros 600) (omega arith) (omega arith)
      zeros_packed refl
