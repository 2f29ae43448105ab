-- ===== src/Prelude/Lists.antt =====
-- Lists measured by the native numbers, under the library's names.
use Prim.Native.Nat.{◌<◌, ℕ, zero, suc, ◌+◌, ◌-◌, ◌≤◌, min}
use mathlib.Core.Path.{◌≡◌, refl, ap, sym, ◌∙◌}
use mathlib.Core.List.{List, [], ◌∷◌, ◌++◌}
use mathlib.Core.Option.{Option, none, some}
use native.Mathlib.Omega.{arith}

module _ {ℓ} {A : Type ℓ} where
  abbrev pub length : List A → ℕ
  length [] = 0
  length (x ∷ xs) = suc (length xs)

  abbrev pub get_elem? : List A → ℕ → Option A
  get_elem? [] i = none
  get_elem? (x ∷ xs) zero = some x
  get_elem? (x ∷ xs) (suc i) = get_elem? xs i

  abbrev pub take : ℕ → List A → List A
  take zero xs = []
  take (suc n) [] = []
  take (suc n) (x ∷ xs) = x ∷ take n xs

  abbrev pub drop : ℕ → List A → List A
  drop zero xs = xs
  drop (suc n) [] = []
  drop (suc n) (x ∷ xs) = drop n xs

  abbrev pub get_or : List A → ℕ → A → A
  get_or [] i d = d
  get_or (x ∷ xs) zero d = x
  get_or (x ∷ xs) (suc i) d = get_or xs i d

module _ {ℓ} {A : Type ℓ} where
  pub length-append : (xs ys : List A) → length (xs ++ ys) ≡ length xs + length ys
  length-append [] ys = omega arith
  length-append (x ∷ xs) ys = omega (arith, length-append xs ys)

  pub length-take : (n : ℕ) (xs : List A) → length (take n xs) ≡ min n (length xs)
  length-take zero xs = omega arith
  length-take (suc n) [] = omega arith
  length-take (suc n) (x ∷ xs) = omega (arith, length-take n xs)

  pub length-drop : (n : ℕ) (xs : List A) → length (drop n xs) ≡ length xs - n
  length-drop zero xs = omega arith
  length-drop (suc n) [] = omega arith
  length-drop (suc n) (x ∷ xs) = omega (arith, length-drop n xs)

  pub take-append-drop : (n : ℕ) (xs : List A) → take n xs ++ drop n xs ≡ xs
  take-append-drop zero xs = refl
  take-append-drop (suc n) [] = refl
  take-append-drop (suc n) (x ∷ xs) = ap (λ t. x ∷ t) (take-append-drop n xs)

  pub take-append : (n : ℕ) (xs ys : List A) → n ≤ length xs → take n (xs ++ ys) ≡ take n xs
  take-append zero xs ys h = refl
  take-append (suc n) [] ys h = absurd (omega arith)
  take-append (suc n) (x ∷ xs) ys h = ap (λ t. x ∷ t) (take-append n xs ys (omega arith))

  pub drop-append : (n : ℕ) (xs ys : List A) → n ≤ length xs → drop n (xs ++ ys) ≡ drop n xs ++ ys
  drop-append zero xs ys h = refl
  drop-append (suc n) [] ys h = absurd (omega arith)
  drop-append (suc n) (x ∷ xs) ys h = drop-append n xs ys (omega arith)

  pub take_all : (n : ℕ) (xs : List A) → length xs ≡ n → take n xs ≡ xs
  take_all zero [] h = refl
  take_all zero (x ∷ xs) h = absurd (omega arith)
  take_all (suc n) [] h = refl
  take_all (suc n) (x ∷ xs) h = ap (λ t. x ∷ t) (take_all n xs (omega arith))

  pub drop_all : (n : ℕ) (xs : List A) → length xs ≡ n → drop n xs ≡ []
  drop_all zero [] h = refl
  drop_all zero (x ∷ xs) h = absurd (omega arith)
  drop_all (suc n) [] h = refl
  drop_all (suc n) (x ∷ xs) h = drop_all n xs (omega arith)

-- Every element of a list meets a predicate.
abbrev pub All {ℓ κ} : {A : Type ℓ} → (A → Type κ) → List A → Type κ
All P [] = Unit
All P (x ∷ xs) = P x × All P xs

pub All-append {ℓ κ} :
    {A : Type ℓ} (P : A → Type κ) (xs ys : List A) → All P xs → All P ys → All P (xs ++ ys)
All-append P [] ys h k = k
All-append P (x ∷ xs) ys h k = (h.0, All-append P xs ys h.1 k)

pub All-take {ℓ κ} :
    {A : Type ℓ} (P : A → Type κ) (n : ℕ) (xs : List A) → All P xs → All P (take n xs)
All-take P zero xs h = tt
All-take P (suc n) [] h = tt
All-take P (suc n) (x ∷ xs) h = (h.0, All-take P n xs h.1)

pub All-drop {ℓ κ} :
    {A : Type ℓ} (P : A → Type κ) (n : ℕ) (xs : List A) → All P xs → All P (drop n xs)
All-drop P zero xs h = h
All-drop P (suc n) [] h = tt
All-drop P (suc n) (x ∷ xs) h = All-drop P n xs h.1

module _ {ℓ} {A : Type ℓ} where
  pub drop-drop_four :
      (n : ℕ) (xs : List A) → drop 4 (drop n xs) ≡ drop (suc (suc (suc (suc n)))) xs
  drop-drop_four zero xs = refl
  drop-drop_four (suc n) [] = refl
  drop-drop_four (suc n) (x ∷ xs) = drop-drop_four n xs

  -- The four elements from position `n` on.
  pub take_four-drop :
      (n : ℕ) (d : A) (xs : List A)
      → suc (suc (suc (suc n))) ≤ length xs
      → take 4 (drop n xs)
        ≡ get_or xs n d
          ∷ get_or xs (suc n) d
          ∷ get_or xs (suc (suc n)) d
          ∷ get_or xs (suc (suc (suc n))) d
          ∷ []
  take_four-drop zero d [] h = absurd (omega arith)
  take_four-drop zero d (a ∷ []) h = absurd (omega arith)
  take_four-drop zero d (a ∷ b ∷ []) h = absurd (omega arith)
  take_four-drop zero d (a ∷ b ∷ c ∷ []) h = absurd (omega arith)
  take_four-drop zero d (a ∷ b ∷ c ∷ e ∷ xs) h = refl
  take_four-drop (suc n) d [] h = absurd (omega arith)
  take_four-drop (suc n) d (x ∷ xs) h = take_four-drop n d xs (omega arith)

  -- A list is those four elements and what surrounds them.
  pub four-append-drop :
      (n : ℕ) (d : A) (xs : List A)
      → suc (suc (suc (suc n))) ≤ length xs
      → get_or xs n d
          ∷ get_or xs (suc n) d
          ∷ get_or xs (suc (suc n)) d
          ∷ get_or xs (suc (suc (suc n))) d
          ∷ drop (suc (suc (suc (suc n)))) xs
        ≡ drop n xs
  four-append-drop n d xs h =
      ap (λ t. t ++ drop (suc (suc (suc (suc n)))) xs) (sym (take_four-drop n d xs h))
      ∙ ap (λ t. take 4 (drop n xs) ++ t) (sym (drop-drop_four n xs))
      ∙ take-append-drop 4 (drop n xs)

  pub All-get_or {κ} :
      (P : A → Type κ) (n : ℕ) (d : A) (xs : List A) → P d → All P xs → P (get_or xs n d)
  All-get_or P n d [] hd h = hd
  All-get_or P zero d (x ∷ xs) hd h = h.0
  All-get_or P (suc n) d (x ∷ xs) hd h = All-get_or P n d xs hd h.1

  pub get_or-append :
      (n : ℕ) (d : A) (xs ys : List A) → n < length xs → get_or (xs ++ ys) n d ≡ get_or xs n d
  get_or-append n d [] ys h = absurd (omega arith)
  get_or-append zero d (x ∷ xs) ys h = refl
  get_or-append (suc n) d (x ∷ xs) ys h = get_or-append n d xs ys (omega arith)

  abbrev pub flatten : List (List A) → List A
  flatten [] = []
  flatten (xs ∷ xss) = xs ++ flatten xss

module _ {A : Type 0} (w : A → ℕ) where
  -- A number that each element contributes to.
  abbrev pub sum : List A → ℕ
  sum [] = 0
  sum (l ∷ ls) = w l + sum ls

  pub sum-append : (xs ys : List A) → sum (xs ++ ys) ≡ sum xs + sum ys
  sum-append [] ys = omega arith
  sum-append (x ∷ xs) ys = omega (arith, sum-append xs ys)

  -- One element apart from the others.
  pub sum-at :
      (ls before : List A) (l : A) (later : List A)
      → ls ≡ before ++ l ∷ later
      → sum ls ≡ w l + sum (before ++ later)
  sum-at ls before l later e =
      omega (arith, ap sum e, sum-append before (l ∷ later), sum-append before later)

  -- One element in another's place.
  pub sum-change :
      (ls before : List A) (l k : A) (later : List A)
      → ls ≡ before ++ l ∷ later
      → sum (before ++ k ∷ later) + w l ≡ sum ls + w k
  sum-change ls before l k later e =
      omega (arith, sum-at ls before l later e, sum-at (before ++ k ∷ later) before k later refl)
