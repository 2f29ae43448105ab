-- ===== src/Metrics/Histograms.antt =====
-- server/webbou/metrics.go: what counters and histograms hold after any calls.
use web_bou.Prelude.{
  string_eq, ℕ, ◌+◌, ◌≡◌, refl, sym, ap, ◌∙◌, Bool, true, false, Option, none, some, List, [], ◌∷◌,
  All, length, String, if◌then◌else◌, ◌==◌, arith,
}
use web_bou.Prelude.Maps.{get}
use web_bou.Prelude.Words.{u64}
use web_bou.Prelude.Clock.{Time}
use web_bou.Limits.Float.{Float64}
use web_bou.Metrics.{
  assign, modify, add_gauge, Registry, found, get_or_create, add_uint64, Histogram, Metrics,
  new_metrics, new_histogram, counter, gauge, histogram, add, counter_value, set_gauge, observe,
  observe_at,
}
use web_bou.Metrics.Values.{
  value_at, value_of, use_named, Uses, uses, total, value_of-uses, eqb_self,
}

-- A lookup gives the value that the name has.
found_lem :
    {V : Type 0} (r : Registry V) (name : String) (fresh : V) (o : Option ℕ)
    → (found r name fresh o).1.store (found r name fresh o).0 ≡ value_at r fresh o
found_lem r name fresh (some a) = refl
found_lem r name fresh none = rw (eqb_self r.free_from)

-- A value that is stored again.
assign_self : {V : Type 0} (store : ℕ → V) (a : ℕ) → assign store a (store a) ≡ store
assign_self store a = λ i b. same b i
  where
    same : (b : ℕ) → assign store a (store a) b ≡ store b
    same b = ground arith

modify_self : {V : Type 0} (r : Registry V) (a : ℕ) → modify r a (λ value. value) ≡ r
unfolding modify
modify_self r a = ap (λ store. record r { store = store }) (assign_self r.store a)

either : {V : Type 0} (b : Bool) (v : V) → (if b then v else v) ≡ v
either true v = refl
either false v = refl

not_true : (b : Bool) → (b ≡ true → ⊥) → b ≡ false
not_true true h = absurd (h refl)
not_true false h = refl

All-change :
    {A : Type 0} {P Q : A → Type 0} → ((a : A) → P a → Q a) → (xs : List A) → All P xs → All Q xs
All-change f [] h = tt
All-change f (x ∷ xs) (h, hs) = (f x h, All-change f xs hs)

module _ (fl : Float64) where
  -- The first three only look a name up, which registers it.
  pub data Call : Type 0 where
    counter_call : String → Call
    gauge_call : String → Call
    histogram_call : String → Call
    add_gauge_call : String → fl.F → Call
    add_call : String → ℕ → Call
    set_call : String → fl.F → Call
    observe_call : String → fl.F → Call

  abbrev call : Metrics fl → Call → Metrics fl
  call m (counter_call name) = (counter fl m name).1
  call m (gauge_call name) = (gauge fl m name).1
  call m (histogram_call name) = (histogram fl m name).1
  call m (add_gauge_call name v) = let (a, found_in) = gauge fl m name in add_gauge fl found_in a v
  call m (add_call name n) = let (a, found_in) = counter fl m name in add fl found_in a n
  call m (set_call name v) = let (a, found_in) = gauge fl m name in set_gauge fl found_in a v
  call m (observe_call name v) =
      let (a, found_in) = histogram fl m name in observe_at fl found_in a v

  -- Newest call first.
  abbrev pub run : Metrics fl → List Call → Metrics fl
  run m [] = m
  run m (c ∷ cs) = call (run m cs) c

  -- What was added to a counter.
  abbrev pub added : String → List Call → ℕ
  added k [] = 0
  added k (counter_call name ∷ cs) = added k cs
  added k (gauge_call name ∷ cs) = added k cs
  added k (histogram_call name ∷ cs) = added k cs
  added k (add_gauge_call name v ∷ cs) = added k cs
  added k (add_call name n ∷ cs) =
      let before = added k cs in if name == k then before + n else before
  added k (set_call name v ∷ cs) = added k cs
  added k (observe_call name v ∷ cs) = added k cs

  abbrev pub adds : List Call → Uses ℕ
  adds [] = []
  adds (counter_call name ∷ cs) = (name, λ value. value) ∷ adds cs
  adds (gauge_call name ∷ cs) = adds cs
  adds (histogram_call name ∷ cs) = adds cs
  adds (add_gauge_call name v ∷ cs) = adds cs
  adds (add_call name n ∷ cs) = (name, add_uint64 n) ∷ adds cs
  adds (set_call name v ∷ cs) = adds cs
  adds (observe_call name v ∷ cs) = adds cs

  pub run-adds :
      (m : Metrics fl) (cs : List Call) → (run m cs).counters ≡ uses 0 m.counters (adds cs)
  unfolding counter gauge histogram add set_gauge add_gauge observe_at
  run-adds m [] = refl
  run-adds m (counter_call name ∷ cs) =
      sym (
        modify_self (get_or_create (run m cs).counters name 0).1
          (get_or_create (run m cs).counters name 0).0)
      ∙ ap (λ r. use_named 0 r name (λ value. value)) (run-adds m cs)
  run-adds m (gauge_call name ∷ cs) = run-adds m cs
  run-adds m (histogram_call name ∷ cs) = run-adds m cs
  run-adds m (add_gauge_call name v ∷ cs) = run-adds m cs
  run-adds m (add_call name n ∷ cs) = ap (λ r. use_named 0 r name (add_uint64 n)) (run-adds m cs)
  run-adds m (set_call name v ∷ cs) = run-adds m cs
  run-adds m (observe_call name v ∷ cs) = run-adds m cs

  pub total-adds : (k : String) (cs : List Call) → total 0 k (adds cs) ≡ u64 (added k cs)
  total-adds k [] = refl
  total-adds k (counter_call name ∷ cs) = either (name == k) _ ∙ total-adds k cs
  total-adds k (gauge_call name ∷ cs) = total-adds k cs
  total-adds k (histogram_call name ∷ cs) = total-adds k cs
  total-adds k (add_gauge_call name v ∷ cs) = total-adds k cs
  total-adds k (add_call name n ∷ cs) =
      elim (name == k)
        as (λ (b : Bool).
          (if b then add_uint64 n (total 0 k (adds cs)) else total 0 k (adds cs))
          ≡ u64 (if b then added k cs + n else added k cs)) [
            | true ↦ omega (arith, total-adds k cs)
            | false ↦ total-adds k cs
          ]
  total-adds k (set_call name v ∷ cs) = total-adds k cs
  total-adds k (observe_call name v ∷ cs) = total-adds k cs

  -- After any calls, the pointer that `Counter` gives for a name shows what was added under that name,
  -- modulo 2 ^ 64, whatever other counters, gauges and histograms were used.
  counter_value-run :
      (any_gauge : fl.F) (any_histogram : Histogram fl) (now : Time) (k : String) (cs : List Call)
      → counter_value fl
          (counter fl (run (new_metrics fl any_gauge any_histogram now) cs) k).1
          (counter fl (run (new_metrics fl any_gauge any_histogram now) cs) k).0
        ≡ u64 (added k cs)
  unfolding counter_value counter get_or_create new_metrics
  counter_value-run g h now k cs =
      let m = run (new_metrics fl g h now) cs in
      found_lem m.counters k 0 (get k m.counters.index)
      ∙ ap (λ r. value_of r 0 k) (run-adds (new_metrics fl g h now) cs)
      ∙ value_of-uses 0 (λ a. 0) k (adds cs)
      ∙ total-adds k cs

  -- Newest value first.
  abbrev observed : List fl.F → Histogram fl
  observed [] = new_histogram fl
  observed (v ∷ vs) = observe fl (observed vs) v

  -- What a comparison relies on, beside its irreflexivity: it holds of float64, NaN included.
  module _
      (lt_trans : (a b c : fl.F) → fl.lt a b ≡ true → fl.lt b c ≡ true → fl.lt a c ≡ true) where
    -- The bounds after one more value, for the value and for what was bounded before.
    below_both :
        (b : Bool) (v min : fl.F)
        → fl.lt v min ≡ b
        → (fl.lt v (if b then v else min) ≡ false)
          × ((u : fl.F) → fl.lt u min ≡ false → fl.lt u (if b then v else min) ≡ false)
    below_both true v min e =
        (fl.lt_irrefl v, λ u h. not_true (fl.lt u v) (λ k. let less = lt_trans u v min k e in cc))
    below_both false v min e = (e, λ u h. h)

    above_both :
        (b : Bool) (v max : fl.F)
        → fl.lt max v ≡ b
        → (fl.lt (if b then v else max) v ≡ false)
          × ((u : fl.F) → fl.lt max u ≡ false → fl.lt (if b then v else max) u ≡ false)
    above_both true v max e =
        (fl.lt_irrefl v, λ u h. not_true (fl.lt v u) (λ k. let less = lt_trans max v u e k in cc))
    above_both false v max e = (e, λ u h. h)

    -- After any observations, the count is their number modulo 2 ^ 64, no observed value is below the
    -- minimum and none is above the maximum, NaN included.
    observed-bounds :
        (vs : List fl.F)
        → ((observed vs).count ≡ u64 (length vs))
          × All (λ u. fl.lt u (observed vs).min ≡ false) vs
          × All (λ u. fl.lt (observed vs).max u ≡ false) vs
    unfolding observe new_histogram
    observed-bounds [] = (refl, tt, tt)
    observed-bounds (v ∷ vs) =
        let (count, low, high) = observed-bounds vs in
        let (own_low, keep_low) = below_both _ v (observed vs).min refl in
        let (own_high, keep_high) = above_both _ v (observed vs).max refl in
        (
          omega (arith, count),
          (own_low, All-change keep_low vs low),
          (own_high, All-change keep_high vs high),
        )
