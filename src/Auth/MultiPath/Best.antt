-- ===== src/Auth/MultiPath/Best.antt =====
-- server/webbou/auth.go, `GetBestPath`: the choice is the least latency, whatever the map's order.
use web_bou.Prelude.{
  nat_eq, ℕ, ◌≤◌, ◌≡◌, ◌≢◌, refl, Bool, true, false, [], ◌∷◌, ltb, eqb, not, ◌&&◌, ◌⊎◌, inl, inr,
  ◌||◌, arith, Bool-cases, subst, sym,
}
use web_bou.Prelude.Maps.{Map}
use web_bou.Auth.MultiPath.{NetPath, MultiPathManager, best_from, get_best_path}

-- An active path with this id and this latency is among the entries.
pub data Offered (id latency : ℕ) : Map ℕ NetPath → Type 0 where
  here :
      {k : ℕ} {p : NetPath} {m : Map ℕ NetPath}
      → p.active ≡ true
      → k ≡ id
      → p.latency ≡ latency
      → Offered id latency ((k, p) ∷ m)
  there :
      {k : ℕ} {p : NetPath} {m : Map ℕ NetPath}
      → Offered id latency m
      → Offered id latency ((k, p) ∷ m)

-- No active path is faster.
abbrev IsFastest : ℕ → Map ℕ NetPath → Type 0
IsFastest latency [] = Unit
IsFastest latency ((k, p) ∷ m) = (p.active ≡ true → latency ≤ p.latency) × IsFastest latency m

abbrev NoneActive : Map ℕ NetPath → Type 0
NoneActive [] = Unit
NoneActive ((k, p) ∷ m) = (p.active ≡ false) × NoneActive m

-- Path ids are never 0: `AddPath` counts from 1.
abbrev HasIds : Map ℕ NetPath → Type 0
HasIds [] = Unit
HasIds ((k, p) ∷ m) = (k ≢ 0) × HasIds m

abbrev is_better : ℕ → ℕ → NetPath → Bool
is_better id lat p = p.active && (eqb id 0 || ltb p.latency lat)

best_from_better :
    (id lat k : ℕ) (p : NetPath) (m : Map ℕ NetPath)
    → is_better id lat p ≡ true
    → best_from id lat ((k, p) ∷ m) ≡ best_from k p.latency m
unfolding best_from
best_from_better id lat k p m e = rw (e, best_from)

best_from_worse :
    (id lat k : ℕ) (p : NetPath) (m : Map ℕ NetPath)
    → is_better id lat p ≡ false
    → best_from id lat ((k, p) ∷ m) ≡ best_from id lat m
unfolding best_from
best_from_worse id lat k p m e = rw (e, best_from)

-- What the loop yields from a path `id` that it holds already.
record Least (id lat : ℕ) (m : Map ℕ NetPath) (r : ℕ × ℕ) : Type 0 where
  is_path : r.0 ≢ 0
  no_slower : r.1 ≤ lat
  fastest : IsFastest r.1 m
  chosen : (r.0 ≡ id) × (r.1 ≡ lat) ⊎ Offered r.0 r.1 m

Least-better :
    (id lat k : ℕ) (p : NetPath) (m : Map ℕ NetPath) (r : ℕ × ℕ)
    → id ≢ 0
    → is_better id lat p ≡ true
    → Least k p.latency m r
    → Least id lat ((k, p) ∷ m) r
Least-better id lat k p m r n e l = record {
  is_path = l.is_path;
  no_slower = ground (arith, l.no_slower);
  fastest = (λ _. l.no_slower, l.fastest);
  chosen = elim l.chosen [
    | inl (same_id, same_lat) ↦ inr (here (ground arith) (sym same_id) (sym same_lat))
    | inr later ↦ inr (there later)
  ];
}

Least-worse :
    (id lat k : ℕ) (p : NetPath) (m : Map ℕ NetPath) (r : ℕ × ℕ)
    → is_better id lat p ≡ false
    → Least id lat m r
    → Least id lat ((k, p) ∷ m) r
Least-worse id lat k p m r e l = record {
  is_path = l.is_path;
  no_slower = l.no_slower;
  fastest = (λ a. ground (arith, l.no_slower), l.fastest);
  chosen = elim l.chosen [ inl same ↦ inl same | inr later ↦ inr (there later) ];
}

best_from-Least :
    (id lat : ℕ) (m : Map ℕ NetPath) → id ≢ 0 → HasIds m → Least id lat m (best_from id lat m)
best_from-Least id lat [] n h =
    unfold best_from in
    record { is_path = n; no_slower = omega arith; fastest = tt; chosen = inl (refl, refl) }
best_from-Least id lat ((k, p) ∷ m) n h = elim (Bool-cases (is_better id lat p)) [
  | inl e ↦
      rw (best_from_better id lat k p m e)
        (Least-better id lat k p m _ n e (best_from-Least k p.latency m h.0 h.1))
  | inr e ↦
      rw (best_from_worse id lat k p m e)
        (Least-worse id lat k p m _ e (best_from-Least id lat m n h.1))
]

-- What the loop yields from nothing: a fastest active path, or none is active.
abbrev IsBest : Map ℕ NetPath → ℕ × ℕ → Type 0
IsBest m r = ((r.0 ≢ 0) × IsFastest r.1 m × Offered r.0 r.1 m) ⊎ ((r.0 ≡ 0) × NoneActive m)

Least-IsBest :
    (k : ℕ) (p : NetPath) (m : Map ℕ NetPath) (r : ℕ × ℕ)
    → p.active ≡ true
    → Least k p.latency m r
    → IsBest ((k, p) ∷ m) r
Least-IsBest k p m r a l = inl (
  l.is_path,
  (λ _. l.no_slower, l.fastest),
  elim l.chosen [
    | inl (same_id, same_lat) ↦ here a (sym same_id) (sym same_lat)
    | inr later ↦ there later
  ],
)

IsBest-inactive :
    (k : ℕ) (p : NetPath) (m : Map ℕ NetPath) (r : ℕ × ℕ)
    → p.active ≡ false
    → IsBest m r
    → IsBest ((k, p) ∷ m) r
IsBest-inactive k p m r a (inl (n, f, o)) = inl (n, (λ b. absurd (cc), f), there o)
IsBest-inactive k p m r a (inr (z, none_active)) = inr (z, (a, none_active))

best_from-IsBest : (m : Map ℕ NetPath) → HasIds m → IsBest m (best_from 0 0 m)
best_from-IsBest [] h = unfold best_from in inr (refl, tt)
best_from-IsBest ((k, p) ∷ m) h = elim (Bool-cases p.active) [
  | inl a ↦
      subst (IsBest ((k, p) ∷ m)) (sym (best_from_better 0 0 k p m (rw a)))
        (Least-IsBest k p m _ a (best_from-Least k p.latency m h.0 h.1))
  | inr a ↦
      subst (IsBest ((k, p) ∷ m)) (sym (best_from_worse 0 0 k p m (rw a)))
        (IsBest-inactive k p m _ a (best_from-IsBest m h.1))
]

-- What `GetBestPath` promises of a manager's paths.
abbrev pub BestAnswer : Map ℕ NetPath → ℕ × Bool → Type 0
BestAnswer m (id, true) = (latency : ℕ) × Offered id latency m × IsFastest latency m
BestAnswer m (id, false) = (id ≡ 0) × NoneActive m

answer : (m : Map ℕ NetPath) (r : ℕ × ℕ) → IsBest m r → BestAnswer m (r.0, not (eqb r.0 0))
answer m r (inl (n, f, o)) = let named : eqb r.0 0 ≡ false = ground arith in rw named (r.1, o, f)
answer m r (inr (z, none_active)) =
    let named : eqb r.0 0 ≡ true = ground arith in rw named (z, none_active)

-- `GetBestPath` names an active path that no active path beats in latency, and reports that there
-- is none exactly where no path is active; this holds for every order of the map's entries, if no
-- path has the id 0.
pub get_best_path-BestAnswer :
    (mp : MultiPathManager) → HasIds mp.paths → BestAnswer mp.paths (get_best_path mp)
unfolding get_best_path
get_best_path-BestAnswer mp h =
    answer mp.paths (best_from 0 0 mp.paths) (best_from-IsBest mp.paths h)
