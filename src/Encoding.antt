-- ===== src/Encoding.antt =====
-- What the frames use of Go's standard library: encoding/binary (big-endian uint32) and hash/crc32
-- (the IEEE polynomial, bit by bit). Bytes are numbers below 256.
use Prim.Native.Nat.{bit_xor}
use mathlib.Core.List.{foldl}
use web_bou.Prelude.{
  ℕ, All-get_or, ◌+◌, ◌*◌, ◌/◌, ◌%◌, ◌<◌, ◌≡◌, ◌↔◌, refl, Bool, true, false, eqb_iff, List, [], ◌∷◌,
  get_or, All, arith, eqb, if◌then◌else◌,
}
use web_bou.Prelude.Words.{u32, u32_mod}

abbrev pub Bytes : Type 0
Bytes = List ℕ

-- binary.BigEndian.PutUint32
abbrev pub put_uint32 : ℕ → Bytes
put_uint32 x = (x / 16777216 % 256) ∷ (x / 65536 % 256) ∷ (x / 256 % 256) ∷ (x % 256) ∷ []

abbrev be32 : ℕ → ℕ → ℕ → ℕ → ℕ
be32 a b c d = a * 16777216 + b * 65536 + c * 256 + d

-- binary.BigEndian.Uint32(data[i:i+4]), where the slice is in range
abbrev pub uint32_at : Bytes → ℕ → ℕ
uint32_at bytes i =
    be32 (get_or bytes i 0) (get_or bytes (i + 1) 0) (get_or bytes (i + 2) 0)
      (get_or bytes (i + 3) 0)

abbrev pub IsBytes : Bytes → Type 0
IsBytes = All (λ b. b < 256)

pub be32-put :
    (x : ℕ)
    → x < u32_mod
    → be32 (x / 16777216 % 256) (x / 65536 % 256) (x / 256 % 256) (x % 256) ≡ x
be32-put x h = omega arith

crc_bit : ℕ → ℕ
crc_bit c = if eqb (c % 2) 1 then bit_xor (c / 2) 0xedb88320 else c / 2

crc_byte : ℕ → ℕ → ℕ
unfolding crc_bit
crc_byte c b =
    crc_bit (crc_bit (crc_bit (crc_bit (crc_bit (crc_bit (crc_bit (crc_bit (bit_xor c b))))))))

-- crc32.ChecksumIEEE; the result is a uint32
unfoldable pub crc32 : Bytes → ℕ
unfolding crc_byte
crc32 bytes = u32 (bit_xor (foldl crc_byte 0xffffffff bytes) 0xffffffff)

pub crc32_lt : (bytes : Bytes) → crc32 bytes < u32_mod
unfolding crc32
crc32_lt bytes = omega arith

-- The check value that the CRC-32 specification gives for the text "123456789".
crc32_check : crc32 (0x31 ∷ 0x32 ∷ 0x33 ∷ 0x34 ∷ 0x35 ∷ 0x36 ∷ 0x37 ∷ 0x38 ∷ 0x39 ∷ []) ≡ 0xcbf43926
unfolding crc32
crc32_check = refl

pub put-be32 :
    (a b c d : ℕ)
    → a < 256
    → b < 256
    → c < 256
    → d < 256
    → put_uint32 (be32 a b c d) ≡ a ∷ b ∷ c ∷ d ∷ []
put-be32 a b c d ha hb hc hd = ground arith

pub be32_lt : (a b c d : ℕ) → a < 256 → b < 256 → c < 256 → d < 256 → be32 a b c d < u32_mod
be32_lt a b c d ha hb hc hd = omega arith

pub byte_at : (bytes : Bytes) (n : ℕ) → IsBytes bytes → get_or bytes n 0 < 256
byte_at bytes n h = All-get_or (λ b. b < 256) n 0 bytes (omega arith) h

-- The comparison of two byte strings.
abbrev pub equal_bytes : Bytes → Bytes → Bool
equal_bytes [] [] = true
equal_bytes [] (y ∷ ys) = false
equal_bytes (x ∷ xs) [] = false
equal_bytes (x ∷ xs) (y ∷ ys) = let rest = equal_bytes xs ys in if eqb x y then rest else false

pub equal_bytes_iff : (xs ys : Bytes) → (equal_bytes xs ys ≡ true) ↔ (xs ≡ ys)
equal_bytes_iff [] [] = (λ e. refl, λ e. refl)
equal_bytes_iff [] (y ∷ ys) = (λ e. absurd (cc), λ e. absurd (cc))
equal_bytes_iff (x ∷ xs) [] = (λ e. absurd (cc), λ e. absurd (cc))
equal_bytes_iff (x ∷ xs) (y ∷ ys) =
    let (sound, complete) = equal_bytes_iff xs ys in
    (λ e. ground (arith, e, sound, eqb_iff x y), λ e. ground (arith, e, complete, eqb_iff x y))
