-- ===== src/Server/Ids.antt =====
-- server/webbou/server.go, `generateSessionID` and `randomString`, over lists of character codes. What
-- rand.Read filled, and the clock as text, are arguments.
use web_bou.Prelude.{
  ℕ, ◌+◌, ◌-◌, ◌%◌, ◌≤◌, ◌<◌, ◌≡◌, refl, ap, Option, none, some, [], ◌∷◌, ◌++◌, length, ltb, All,
  if◌then◌else◌, arith,
}
use mathlib.Core.Path.{ap₂}
use web_bou.Encoding.{Bytes}

-- The character at a place of `letters`: "a" to "z", then "0" to "9".
abbrev letter : ℕ → ℕ
letter i = if ltb i 26 then 97 + i else 48 + (i - 26)

-- `b[i] = letters[int(b[i])%len(letters)]`
abbrev spell : Bytes → Bytes
spell [] = []
spell (b ∷ bytes) = letter (b % 36) ∷ spell bytes

unfoldable random_string : Option Bytes → Bytes → Bytes
random_string (some b) clock = spell b
random_string none clock = clock

-- The time in seconds, "-", and eight random characters.
unfoldable generate_session_id : Bytes → Option Bytes → Bytes → Bytes
generate_session_id second random clock = second ++ 45 ∷ random_string random clock

-- A small letter or a digit.
abbrev IsLetter : ℕ → Type 0
IsLetter c = (48 ≤ c) × (c < 123)

letter-injective : (i j : ℕ) → i < 36 → j < 36 → letter i ≡ letter j → i ≡ j
letter-injective i j h k e = ground (arith, h, k, e)

spell-length : (bytes : Bytes) → (length (spell bytes) ≡ length bytes) × All IsLetter (spell bytes)
spell-length [] = (refl, tt)
spell-length (b ∷ bytes) =
    let (size, letters) = spell-length bytes in
    (omega (arith, size), ((ground arith, ground arith), letters))

abbrev residues : Bytes → Bytes
residues [] = []
residues (b ∷ bytes) = b % 36 ∷ residues bytes

abbrev head_or : ℕ → Bytes → ℕ
head_or d [] = d
head_or d (b ∷ bytes) = b

abbrev tail_of : Bytes → Bytes
tail_of [] = []
tail_of (b ∷ bytes) = bytes

spell-equal : (a b : Bytes) → spell a ≡ spell b → residues a ≡ residues b
spell-equal [] [] e = refl
spell-equal [] (y ∷ b) e = absurd (cc)
spell-equal (x ∷ a) [] e = absurd (cc)
spell-equal (x ∷ a) (y ∷ b) e =
    ap₂ (λ c cs. c ∷ cs)
      (letter-injective (x % 36) (y % 36) (omega arith) (omega arith) (ap (head_or 0) e))
      (spell-equal a b (ap tail_of e))

append_same : (xs : Bytes) (ys zs : Bytes) → xs ++ ys ≡ xs ++ zs → ys ≡ zs
append_same [] ys zs e = e
append_same (x ∷ xs) ys zs e = append_same xs ys zs (ap tail_of e)

-- Two identifiers of the same second are the same only if the random bytes agree modulo 36, and the
-- random part is of letters and digits, one for each byte.
generate_session_id-equal :
    (second a b clock_a clock_b : Bytes)
    → (length (random_string (some a) clock_a) ≡ length a)
      × All IsLetter (random_string (some a) clock_a)
      × (generate_session_id second (some a) clock_a ≡ generate_session_id second (some b) clock_b
          → residues a ≡ residues b)
unfolding generate_session_id random_string
generate_session_id-equal second a b clock_a clock_b =
    let (size, letters) = spell-length a in
    (
      size,
      letters,
      λ e. spell-equal a b (ap tail_of (append_same second (45 ∷ spell a) (45 ∷ spell b) e)),
    )
