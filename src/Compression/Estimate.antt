-- ===== src/Compression/Estimate.antt =====
-- server/webbou/compression.go, `ShouldCompress` and `EstimateCompressionRatio`, which look at the size and at
-- the first bytes. float64 is a parameter, and 0.8 is the quotient of 8 and 10.
use web_bou.Prelude.{
  nat_eq, ℕ, ◌+◌, ◌≤◌, ◌≡◌, ◌≢◌, refl, Bool, true, false, some, none, [], ◌∷◌, length, take,
  length-take, ltb, ◌==◌, if◌then◌else◌, arith,
}
use web_bou.Prelude.Maps.{Map, get, put, get-put, length-put_le}
use web_bou.Encoding.{Bytes}
use web_bou.Limits.Float.{Float64}
use web_bou.Compression.{Libraries, compress}

unfoldable should_compress : Bytes → Bool
should_compress bytes = ltb 512 (length bytes)

-- The loop over the sample, the map left at its end.
unfoldable unique_in : Bytes → Map ℕ Bool → Map ℕ Bool
unique_in [] unique = unique
unique_in (b ∷ bytes) unique = unique_in bytes (put b true unique)

unfoldable estimate_compression_ratio : (fl : Float64) → Bytes → fl.F
estimate_compression_ratio fl bytes =
    if ltb (length bytes) 100
    then fl.of_nat 1
    else let entropy =
        fl.div (fl.of_nat (length (unique_in (take 100 bytes) []))) (fl.of_nat 100) in
      if fl.lt (fl.div (fl.of_nat 8) (fl.of_nat 10)) entropy
      then fl.div (fl.of_nat 9) (fl.of_nat 10)
      else fl.div (fl.of_nat 3) (fl.of_nat 10)

-- Does a byte occur?
abbrev occurs : ℕ → Bytes → Bool
occurs b [] = false
occurs b (c ∷ bytes) = let later = occurs b bytes in if c == b then true else later

length-unique_in :
    (bytes : Bytes) (unique : Map ℕ Bool)
    → length (unique_in bytes unique) ≤ length bytes + length unique
unfolding unique_in
length-unique_in [] unique = omega arith
length-unique_in (b ∷ bytes) unique =
    omega (arith, length-unique_in bytes (put b true unique), length-put_le b true unique)

get-unique_in :
    (bytes : Bytes) (unique : Map ℕ Bool) (b : ℕ)
    → get b (unique_in bytes unique) ≡ (if occurs b bytes then some true else get b unique)
unfolding unique_in
get-unique_in [] unique b = refl
get-unique_in (c ∷ bytes) unique b =
    ground (arith, get-unique_in bytes (put c true unique) b, get-put c b true unique)

-- The map of the sample holds the bytes that occur in it and no others, so at most 100 of them.
unique_in_lem :
    (bytes : Bytes)
    → ((b : ℕ)
        → get b (unique_in (take 100 bytes) [])
          ≡ (if occurs b (take 100 bytes) then some true else none))
      × (length (unique_in (take 100 bytes) []) ≤ 100)
unfolding get
unique_in_lem bytes = (
  λ b. get-unique_in (take 100 bytes) [] b,
  omega (arith, length-unique_in (take 100 bytes) [], length-take 100 bytes),
)

-- `ShouldCompress` and `Compress` part at one size: of the data that `ShouldCompress` refuses, `Compress`
-- leaves all as it is but that of 512 bytes, which it gives to LZ4.
compress-refused :
    (lib : Libraries) (bytes : Bytes)
    → should_compress bytes ≡ false
    → ((length bytes ≢ 512) → compress lib bytes ≡ some bytes)
      × ((length bytes ≡ 512) → compress lib bytes ≡ lib.lz4_compress_block bytes)
unfolding should_compress compress
compress-refused lib bytes e = (λ n. ground (arith, e, n), λ s. ground (arith, s))
