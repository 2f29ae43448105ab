-- ===== src/Prelude/Maps.antt =====
-- Go's maps as association lists. The order of the entries stands for the order of an iteration.
use Prim.Native.Nat.{◌+◌, ◌≤◌, ◌<◌}
use mathlib.Core.Path.{◌≡◌, refl}
use mathlib.Core.Logic.{◌≢◌}
use mathlib.Core.Bool.{Bool, true, false}
use mathlib.Core.List.{List, [], ◌∷◌}
use mathlib.Core.Option.{Option, none, some}
use native.Mathlib.Omega.{arith}
use web_bou.Prelude.Tests.{Eq, ◌==◌, if◌then◌else◌}
use web_bou.Prelude.Lists.{length}

abbrev pub Map : Type 0 → Type 0 → Type 0
Map K V = List (K × V)

-- What a sweep leaves of an entry.
abbrev pub kept : {V : Type 0} → (V → Bool) → Option V → Option V
kept p none = none
kept p (some v) = if p v then some v else none

module _ {K V : Type 0} ⦃e : Eq K⦄ where
  unfoldable pub get : K → Map K V → Option V
  get k [] = none
  get k ((j, v) ∷ m) = if j == k then some v else get k m

  -- m[k] = v
  unfoldable pub put : K → V → Map K V → Map K V
  put k v [] = (k, v) ∷ []
  put k v ((j, w) ∷ m) = if j == k then (k, v) ∷ m else (j, w) ∷ put k v m

  -- delete(m, k)
  unfoldable pub delete : K → Map K V → Map K V
  delete k [] = []
  delete k ((j, v) ∷ m) = let rest = delete k m in if j == k then rest else (j, v) ∷ rest

  -- `for k, v := range m { if !p(v) { delete(m, k) } }`
  unfoldable pub keep : (V → Bool) → Map K V → Map K V
  unfolding delete
  keep p [] = []
  keep p ((j, v) ∷ m) = let rest = delete j (keep p m) in if p v then (j, v) ∷ rest else rest

  pub get-put :
      (k j : K) (v : V) (m : Map K V) → get j (put k v m) ≡ (if k == j then some v else get j m)
  unfolding get put
  get-put k j v [] = refl
  get-put k j v ((i, w) ∷ m) =
      ground (arith, e.beq_iff k j, e.beq_iff i k, e.beq_iff i j, get-put k j v m)

  pub get-delete : (k j : K) (m : Map K V) → get j (delete k m) ≡ (if k == j then none else get j m)
  unfolding get delete
  get-delete k j [] = ground arith
  get-delete k j ((i, w) ∷ m) =
      ground (arith, e.beq_iff k j, e.beq_iff i k, e.beq_iff i j, get-delete k j m)

  pub get-keep : (p : V → Bool) (j : K) (m : Map K V) → get j (keep p m) ≡ kept p (get j m)
  unfolding get keep
  get-keep p j [] = refl
  get-keep p j ((i, w) ∷ m) =
      ground (arith, e.beq_iff i j, get-delete i j (keep p m), get-keep p j m)

  pub length-delete_le : (k : K) (m : Map K V) → length (delete k m) ≤ length m
  unfolding delete
  length-delete_le k [] = omega arith
  length-delete_le k ((i, w) ∷ m) = ground (arith, length-delete_le k m)

  pub length-put_le : (k : K) (v : V) (m : Map K V) → length (put k v m) ≤ length m + 1
  unfolding put
  length-put_le k v [] = omega arith
  length-put_le k v ((i, w) ∷ m) = ground (arith, length-put_le k v m)

  pub length-put_new :
      (k : K) (v : V) (m : Map K V) → get k m ≡ none → length (put k v m) ≡ length m + 1
  unfolding get put
  length-put_new k v [] h = omega arith
  length-put_new k v ((i, w) ∷ m) h = ground (arith, length-put_new k v m)

  -- What was put under a new key is gone when the key is deleted, and nothing else.
  pub get-delete-put :
      (k j : K) (v : V) (m : Map K V) → get k m ≡ none → get j (delete k (put k v m)) ≡ get j m
  get-delete-put k j v m h =
      ground (arith, h, get-delete k j (put k v m), get-put k j v m, e.beq_iff k j)

  pub length-delete_lt :
      (k : K) (v : V) (m : Map K V) → get k m ≡ some v → length (delete k m) < length m
  unfolding get delete
  length-delete_lt k v [] h = absurd (cc)
  length-delete_lt k v ((i, w) ∷ m) h = ground (arith, length-delete_lt k v m, length-delete_le k m)

pub eq_self : {K : Type 0} ⦃e : Eq K⦄ (k : K) → (k == k) ≡ true
eq_self ⦃e⦄ k = (e.beq_iff k k).1 refl

pub ne_other : {K : Type 0} ⦃e : Eq K⦄ (k j : K) → k ≢ j → (k == j) ≡ false
ne_other ⦃e⦄ k j n = ground (arith, e.beq_iff k j)

module _ {K V : Type 0} ⦃e : Eq K⦄ where
  pub get-put_self : (k : K) (v : V) (m : Map K V) → get k (put k v m) ≡ some v
  get-put_self k v m = rw (get-put k k v m, eq_self k)

  pub get-put_other : (k j : K) (v : V) (m : Map K V) → k ≢ j → get j (put k v m) ≡ get j m
  get-put_other k j v m n = rw (get-put k j v m, ne_other k j n)

  pub get-delete_self : (k : K) (m : Map K V) → get k (delete k m) ≡ none
  get-delete_self k m = rw (get-delete k k m, eq_self k)

  pub get-delete_other : (k j : K) (m : Map K V) → k ≢ j → get j (delete k m) ≡ get j m
  get-delete_other k j m n = rw (get-delete k j m, ne_other k j n)
