-- ===== src/Metrics/Races.antt =====
-- server/webbou/metrics.go, `Gauge` under many goroutines. `Add` loads the value and stores the sum later;
-- `Set` stores. A gauge is unlike a counter, whose addition is one atomic step.
use web_bou.Prelude.{
  ℕ, ◌<◌, ◌≤◌, ◌≡◌, refl, ap, ◌∙◌, List, [], ◌∷◌, ◌++◌, length, arith, All, length-append,
}
use web_bou.Limits.Float.{Float64}

-- The elements of a list, some left out.
pub data Subsequence {A : Type 0} : List A → List A → Type 0 where
  nothing : Subsequence [] []
  kept : {x : A} {xs ys : List A} → Subsequence xs ys → Subsequence (x ∷ xs) (x ∷ ys)
  left_out : {x : A} {xs ys : List A} → Subsequence xs ys → Subsequence xs (x ∷ ys)

Subsequence-self : {A : Type 0} (xs : List A) → Subsequence xs xs
Subsequence-self [] = nothing
Subsequence-self (x ∷ xs) = kept (Subsequence-self xs)

All-middle :
    {A : Type 0} (P : A → Type 0) (before : List A) (x : A) (later : List A)
    → All P (before ++ x ∷ later)
    → P x × All P (before ++ later)
All-middle P [] x later (h, hs) = (h, hs)
All-middle P (y ∷ before) x later (h, hs) =
    let (own, rest) = All-middle P before x later hs in (own, (h, rest))

All-empty : {A : Type 0} (P : A → Type 0) (xs : List A) → length xs ≡ 0 → All P xs
All-empty P [] e = tt
All-empty P (x ∷ xs) e = absurd (omega (arith, e))

All-map :
    {A : Type 0} {P Q : A → Type 0} → ((a : A) → P a → Q a) → (xs : List A) → All P xs → All Q xs
All-map f [] h = tt
All-map f (x ∷ xs) (h, hs) = (f x h, All-map f xs hs)

module _ (fl : Float64) where
  pub data Write : Type 0 where
    set_to : fl.F → Write
    added : fl.F → Write

  -- What the writes make of a value one after the other, newest first.
  abbrev pub after : fl.F → List Write → fl.F
  after start [] = start
  after start (set_to v ∷ ws) = v
  after start (added v ∷ ws) = fl.add (after start ws) v

  -- A call of `Add` between its load and its store.
  pub record Adding : Type 0 where
    pub old : fl.F
    pub amount : fl.F

  pub record Gauge : Type 0 where
    pub value : fl.F
    pub adding : List Adding
    pub writes : List Write  -- the calls that have stored, newest first

  -- At most `goroutines` are inside the methods at once.
  pub data Step (goroutines : ℕ) (g : Gauge) : Gauge → Type 0 where
    load :
        (v : fl.F)
        → length g.adding < goroutines
        → Step goroutines g (record g { adding = record { old = g.value; amount = v } ∷ g.adding })
    store :
        (before : List Adding) (a : Adding) (later : List Adding)
        → g.adding ≡ before ++ a ∷ later
        → Step goroutines g (record {
          value = fl.add a.old a.amount;
          adding = before ++ later;
          writes = added a.amount ∷ g.writes;
        })
    set :
        (v : fl.F)
        → length g.adding < goroutines
        → Step goroutines g (record g { value = v; writes = set_to v ∷ g.writes })

  pub data Reach (goroutines : ℕ) (g : Gauge) : Gauge → Type 0 where
    here : Reach goroutines g g
    next : {h k : Gauge} → Reach goroutines g h → Step goroutines h k → Reach goroutines g k

  abbrev pub new_gauge : fl.F → Gauge
  new_gauge start = record { value = start; adding = []; writes = [] }

  -- The value is what some of the writes make, one after the other.
  abbrev Accounts : fl.F → List Write → fl.F → Type 0
  Accounts start ws v =
      (kept_writes : List Write) × Subsequence kept_writes ws × (v ≡ after start kept_writes)

  -- And the newest write is one of them.
  abbrev pub AccountsNewest : fl.F → List Write → fl.F → Type 0
  AccountsNewest start [] v = v ≡ start
  AccountsNewest start (w ∷ ws) v = (old : fl.F) × Accounts start ws old × (v ≡ after old (w ∷ []))

  module _ (start : fl.F) where
    newest-Accounts : (ws : List Write) (v : fl.F) → AccountsNewest start ws v → Accounts start ws v
    newest-Accounts [] v e = ([], nothing, e)
    newest-Accounts (set_to u ∷ ws) v (old, (ks, s, f), e) = (set_to u ∷ ks, kept s, e)
    newest-Accounts (added u ∷ ws) v (old, (ks, s, f), e) =
        (added u ∷ ks, kept s, e ∙ ap (λ o. fl.add o u) f)

    later_write :
        (w : Write) (ws : List Write) (v : fl.F) → Accounts start ws v → Accounts start (w ∷ ws) v
    later_write w ws v (ks, s, e) = (ks, left_out s, e)

    record IsSound (g : Gauge) : Type 0 where
      newest : AccountsNewest start g.writes g.value
      loaded : All (λ (a : Adding). Accounts start g.writes a.old) g.adding

    Step-IsSound : {goroutines : ℕ} {g h : Gauge} → Step goroutines g h → IsSound g → IsSound h
    Step-IsSound {g = g} (load v free) s = record {
      newest = s.newest;
      loaded = (newest-Accounts g.writes g.value s.newest, s.loaded);
    }
    Step-IsSound {g = g} (store before a later e) s =
        let (own, others) =
          All-middle (λ (b : Adding). Accounts start g.writes b.old) before a later
            (rw e at s.loaded) in
        record {
          newest = (a.old, own, refl);
          loaded =
              All-map (λ b. later_write (added a.amount) g.writes b.old) (before ++ later) others;
        }
    Step-IsSound {g = g} (set v free) s = record {
      newest = (g.value, newest-Accounts g.writes g.value s.newest, refl);
      loaded = All-map (λ b. later_write (set_to v) g.writes b.old) g.adding s.loaded;
    }

  -- However the calls of any number of goroutines interleave, a gauge shows its newest write on top of
  -- some of the earlier ones, in their order: a write may be lost, and nothing else can happen.
  pub Reach-AccountsNewest :
      (goroutines : ℕ) (start : fl.F) {g : Gauge}
      → Reach goroutines (new_gauge start) g
      → AccountsNewest start g.writes g.value
  Reach-AccountsNewest goroutines start r = (sound r).newest
    where
      sound : {g : Gauge} → Reach goroutines (new_gauge start) g → IsSound start g
      sound here = record { newest = refl; loaded = tt }
      sound (next r st) = Step-IsSound start st (sound r)

  -- With one goroutine at a time nothing is lost.
  Reach-after :
      (start : fl.F) {g : Gauge} → Reach 1 (new_gauge start) g → g.value ≡ after start g.writes
  Reach-after start r = (alone r).0
    where
      alone :
          {g : Gauge}
          → Reach 1 (new_gauge start) g
          → (g.value ≡ after start g.writes)
            × All (λ (a : Adding). a.old ≡ g.value) g.adding
            × (length g.adding ≤ 1)
      alone here = (refl, tt, omega arith)
      alone (next {h} r (load v free)) =
          let (now, old, few) = alone r in (now, (refl, old), omega (arith, free))
      alone (next {h} r (store before a later e)) =
          let (now, old, few) = alone r in
          let loaded =
            (All-middle (λ (b : Adding). b.old ≡ h.value) before a later (rw e at old)).0 in
          let none_left : length (before ++ later) ≡ 0 = omega (
            arith,
            few,
            ap length e,
            length-append before (a ∷ later),
            length-append before later,
          ) in
          (
            ap (λ o. fl.add o a.amount) (loaded ∙ now),
            All-empty _ (before ++ later) none_left,
            omega (arith, none_left),
          )
      alone (next {h} r (set v free)) =
          (refl, All-empty _ h.adding (omega (arith, free)), omega (arith, free))

  -- Two additions at once can leave only one of them.
  lost_addition :
      (start v w : fl.F)
      → (g : Gauge) × Reach 2 (new_gauge start) g
        × (g.writes ≡ added w ∷ added v ∷ [])
        × (g.value ≡ fl.add start w)
  lost_addition start v w =
      let first = next here (load v (omega arith)) in
      let both = next first (load w (omega arith)) in
      let one = next both (store (record { old = start; amount = w } ∷ []) _ [] refl) in
      (_, next one (store [] _ [] refl), refl, refl)
