-- ===== src/Protocol/Flags.antt =====
-- server/webbou/protocol.go: the flags of a frame are eight independent bits.
use Prim.Native.Nat.{bit_and, bit_or}
use web_bou.Prelude.{
  ℕ, zero, suc, ◌^◌, ◌+◌, ◌<◌, ◌≤◌, ◌≡◌, refl, Bool, true, false, not, ◌&&◌, ◌||◌, arith, eqb, ltb,
  if◌then◌else◌, Bool-cases, inl, inr,
}
use web_bou.Protocol.{Frame, set_flag, has_flag}

-- A test of the numbers from the first one on, and what it says of each of them.
passes : ℕ → ℕ → (ℕ → Bool) → Bool
passes from zero test = true
passes from (suc count) test =
    let later = passes (suc from) count test in if test from then later else false

passes_at :
    (count from i : ℕ) (test : ℕ → Bool)
    → passes from count test ≡ true
    → from ≤ i
    → i < from + count
    → test i ≡ true
unfolding passes
passes_at zero from i test good low high = absurd (omega arith)
passes_at (suc count) from i test good low high = elim (Bool-cases (eqb from i)) [
  | inl here ↦ let e : from ≡ i = ground arith in rw (← e) (ground (arith, good))
  | inr later ↦
      passes_at count (suc from) i test (ground (arith, good)) (ground arith) (omega arith)
]

bit_set : ℕ → ℕ → Bool
bit_set flags flag = not (eqb (bit_and flags flag) 0)

same : Bool → Bool → Bool
same true b = b
same false b = not b

same_sound : (a b : Bool) → same a b ≡ true → a ≡ b
unfolding same
same_sound a b h = ground arith

-- What the table checks of a byte and two bit positions.
abbrev independent : ℕ → ℕ → ℕ → Bool
independent j k b =
    ltb (bit_or b (2 ^ k)) 256
    && same (bit_set (bit_or b (2 ^ k)) (2 ^ j)) (eqb j k || bit_set b (2 ^ j))

table : passes 0 8 (λ j. passes 0 8 (λ k. passes 0 256 (independent j k))) ≡ true
unfolding passes bit_set same
table = refl

independent_at : (j k b : ℕ) → j < 8 → k < 8 → b < 256 → independent j k b ≡ true
independent_at j k b hj hk hb =
    let row =
      passes_at 8 0 j (λ j. passes 0 8 (λ k. passes 0 256 (independent j k))) table (omega arith)
        hj in
    let cell = passes_at 8 0 k (λ k. passes 0 256 (independent j k)) row (omega arith) hk in
    passes_at 256 0 b (independent j k) cell (omega arith) hb

-- After a flag is set the flags are still a byte, that flag is set, and every other flag is as it
-- was before.
has_flag-set_flag :
    (f : Frame) (j k : ℕ)
    → f.flags < 256
    → j < 8
    → k < 8
    → ((set_flag f (2 ^ k)).flags < 256)
      × (has_flag (set_flag f (2 ^ k)) (2 ^ j) ≡ (eqb j k || has_flag f (2 ^ j)))
unfolding set_flag has_flag bit_set
has_flag-set_flag f j k hf hj hk =
    let t = independent_at j k f.flags hj hk hf in (ground arith, same_sound _ _ (ground arith))
