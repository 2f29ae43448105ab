-- ===== src/Auth/MultiPath/Paths.antt =====
-- server/webbou/auth.go, `MultiPathManager`: which paths there are, and how many are active.
use web_bou.Prelude.{
  nat_eq, ℕ, ◌+◌, ◌≤◌, ◌<◌, ◌≡◌, ◌≢◌, refl, true, false, none, some, [], ◌∷◌, eqb, inl, inr,
  if◌then◌else◌, arith, Bool-cases, String, sym,
}
use web_bou.Prelude.Words.{u32, u32_mod}
use web_bou.Prelude.Clock.{Time}
use web_bou.Prelude.Maps.{Map, get, put, get-put_self, get-put_other}
use web_bou.Auth.MultiPath.{
  NetPath, MultiPathManager, new_path, add_path, remove_path, get_path_count, count_active,
}

-- The ids in use are those that `AddPath` has counted.
abbrev IsNumbered : ℕ → Map ℕ NetPath → Type 0
IsNumbered top [] = Unit
IsNumbered top ((k, p) ∷ m) = (0 < k) × (k ≤ top) × IsNumbered top m

IsNumbered-mono : (a b : ℕ) (m : Map ℕ NetPath) → a ≤ b → IsNumbered a m → IsNumbered b m
IsNumbered-mono a b [] h n = tt
IsNumbered-mono a b ((k, p) ∷ m) h n = (n.0, omega arith, IsNumbered-mono a b m h n.2)

IsNumbered-put :
    (top k : ℕ) (p : NetPath) (m : Map ℕ NetPath)
    → 0 < k
    → k ≤ top
    → IsNumbered top m
    → IsNumbered top (put k p m)
unfolding put
IsNumbered-put top k p [] z h n = (z, h, tt)
IsNumbered-put top k p ((j, q) ∷ m) z h n = elim (Bool-cases (eqb j k)) [
  | inl e ↦ rw (e, put) (z, h, n.2)
  | inr e ↦ rw (e, put) (n.0, n.1, IsNumbered-put top k p m z h n.2)
]

get_above : (top k : ℕ) (m : Map ℕ NetPath) → top < k → IsNumbered top m → get k m ≡ none
unfolding get
get_above top k [] h n = refl
get_above top k ((j, q) ∷ m) h n = ground (arith, get_above top k m h n.2)

-- While fewer than 2 ^ 32 - 1 paths were added, `AddPath` gives the new path an id that was not in
-- use, stores it under that id as an active path, leaves every other path as it was, and keeps the
-- ids numbered from 1 to `activeID`.
add_path_fresh :
    (mp : MultiPathManager) (a b : String) (now : Time)
    → mp.active_id + 1 < u32_mod
    → IsNumbered mp.active_id mp.paths
    → let (mp', id) = add_path mp a b now in
      (get id mp.paths ≡ none)
      × ((p : NetPath) × (get id mp'.paths ≡ some p) × (p.active ≡ true) × (p.id ≡ id))
      × ((j : ℕ) → j ≢ id → get j mp'.paths ≡ get j mp.paths)
      × IsNumbered mp'.active_id mp'.paths
unfolding add_path
add_path_fresh mp a b now room n =
    let next : u32 (mp.active_id + 1) ≡ mp.active_id + 1 = omega arith in
    let id = mp.active_id + 1 in
    let path = new_path id a b now in
    rw next (
      get_above mp.active_id id mp.paths (omega arith) n,
      (path, get-put_self id path mp.paths, refl, refl),
      (λ j ne. get-put_other id j path mp.paths (λ e. ne (sym e))),
      IsNumbered-put id id path mp.paths (omega arith) (omega arith)
          (IsNumbered-mono mp.active_id id mp.paths (omega arith) n),
    )

abbrev weight : NetPath → ℕ
weight p = if p.active then 1 else 0

count_active-put :
    (k : ℕ) (p q : NetPath) (m : Map ℕ NetPath)
    → get k m ≡ some p
    → count_active (put k q m) + weight p ≡ count_active m + weight q
unfolding count_active get put
count_active-put k p q [] e = absurd (cc)
count_active-put k p q ((j, r) ∷ m) e = elim (Bool-cases (eqb j k)) [
  | inl s ↦ ground arith
  | inr s ↦ rw (s, put) (omega (arith, count_active-put k p q m (rw (s, get) at e)))
]

-- `RemovePath` takes an active path out of the count, and nothing else changes the count: a path
-- that is missing or no longer active leaves it as it was.
get_path_count-remove_path :
    (mp : MultiPathManager) (k : ℕ)
    → ((p : NetPath)
        → get k mp.paths ≡ some p
        → get_path_count (remove_path mp k) + (if p.active then 1 else 0) ≡ get_path_count mp)
      × (get k mp.paths ≡ none → get_path_count (remove_path mp k) ≡ get_path_count mp)
unfolding get_path_count remove_path
get_path_count-remove_path mp k = (
  λ p e. rw e (omega (arith, count_active-put k p (record p { active = false }) mp.paths e)),
  λ e. rw e,
)
