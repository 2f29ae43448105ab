-- ===== src/Compression.antt =====
-- server/webbou/compression.go: the choice of a compressor by size. The LZ4 and Zstandard libraries
-- are parameters.
pub mod Estimate
use web_bou.Prelude.{
  ℕ, ◌*◌, ◌≤◌, ◌<◌, ◌≡◌, ◌↔◌, Option, none, some, ltb, length, if◌then◌else◌, arith, Bool-cases,
  inl, inr, leb,
}
use web_bou.Encoding.{Bytes}

-- github.com/pierrec/lz4/v4 on blocks and github.com/klauspost/compress/zstd. `none` is an error.
pub record Libraries : Type 0 where
  pub lz4_compress_block : Bytes → Option Bytes
  -- The number is the size of the destination.
  pub lz4_uncompress_block : Bytes → ℕ → Option Bytes
  pub zstd_encode : Bytes → Bytes
  pub zstd_decode : Bytes → Option Bytes
  pub zstd_decode-encode : (bytes : Bytes) → zstd_decode (zstd_encode bytes) ≡ some bytes
  -- A block is restored if the destination holds the result, and otherwise it is an error.
  pub lz4_fits :
      (bytes block : Bytes) (size : ℕ)
      → lz4_compress_block bytes ≡ some block
      → length bytes ≤ size
      → lz4_uncompress_block block size ≡ some bytes
  pub lz4_short :
      (bytes block : Bytes) (size : ℕ)
      → lz4_compress_block bytes ≡ some block
      → size < length bytes
      → lz4_uncompress_block block size ≡ none

module _ (lib : Libraries) where
  abbrev compress_lz4 : Bytes → Option Bytes
  compress_lz4 bytes = lib.lz4_compress_block bytes

  abbrev compress_zstd : Bytes → Option Bytes
  compress_zstd bytes = some (lib.zstd_encode bytes)

  abbrev decompress_zstd : Bytes → Option Bytes
  decompress_zstd bytes = lib.zstd_decode bytes

  unfoldable pub compress : Bytes → Option Bytes
  compress bytes =
      if ltb (length bytes) 512
      then some bytes
      else if ltb (length bytes) 4096
      then compress_lz4 bytes
      else compress_zstd bytes

  unfoldable pub decompress_lz4 : Bytes → Option Bytes
  decompress_lz4 bytes = lib.lz4_uncompress_block bytes (length bytes * 4)

  abbrev or_lz4 : Bytes → Option Bytes → Option Bytes
  or_lz4 bytes none = decompress_lz4 bytes
  or_lz4 bytes (some result) = some result

  unfoldable pub decompress : Bytes → Option Bytes
  decompress bytes = or_lz4 bytes (decompress_zstd bytes)

  -- Data of 4096 bytes or more is restored by `Decompress` from what `Compress` makes of it.
  decompress-compress_large :
      (bytes : Bytes)
      → 4096 ≤ length bytes
      → (packed : Bytes) × (compress bytes ≡ some packed) × (decompress packed ≡ some bytes)
  unfolding compress decompress
  decompress-compress_large bytes large =
      (lib.zstd_encode bytes, ground (arith, large), rw (lib.zstd_decode-encode bytes))

  -- Data from 512 bytes to less than 4096, whose LZ4 block does not happen to be a Zstandard frame, is
  -- restored by `Decompress` exactly if the block is at least a quarter of its size: its estimate of
  -- the result's size is too small for data that compresses better.
  pub decompress-compress_medium :
      (bytes packed : Bytes)
      → 512 ≤ length bytes
      → length bytes < 4096
      → compress bytes ≡ some packed
      → lib.zstd_decode packed ≡ none
      → (decompress packed ≡ some bytes) ↔ (length bytes ≤ length packed * 4)
  unfolding compress decompress decompress_lz4
  decompress-compress_medium bytes packed low high made not_zstd =
      let block : lib.lz4_compress_block bytes ≡ some packed = ground (arith, made, low, high) in
      rw not_zstd (elim (Bool-cases (leb (length bytes) (length packed * 4))) [
        | inl fits ↦ (λ _. ground arith, λ h. lib.lz4_fits bytes packed (length packed * 4) block h)
        | inr short ↦
            let lost = lib.lz4_short bytes packed (length packed * 4) block (ground arith) in
            (λ e. absurd (cc), λ h. absurd (ground arith))
      ])
