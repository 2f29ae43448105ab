-- ===== src/Metrics/Page.antt =====
-- server/webbou/metrics.go, `Handler`: the text that the metrics are shown as. The printing of numbers by
-- `fmt` is a parameter; the order of the names is that of the visit of a map.
use web_bou.Prelude.{
  string_eq, ℕ, ◌≡◌, refl, ap, ◌∙◌, Bool, true, false, Bool-cases, inl, inr, Option, none, some,
  List, [], ◌∷◌, String, if◌then◌else◌, ◌==◌,
}
use web_bou.Prelude.Maps.{Map, get, get-put}
use web_bou.Prelude.Words.{u64}
use web_bou.Prelude.Clock.{Time}
use web_bou.Limits.Float.{Float64}
use web_bou.Metrics.{Registry, found, get_or_create, modify, Histogram, Metrics, new_metrics}
use web_bou.Metrics.Values.{Uses, uses, value_at, value_of, value_of-uses}
use web_bou.Metrics.Histograms.{
  Call, counter_call, gauge_call, histogram_call, add_gauge_call, add_call, set_call, observe_call,
  run, added, adds, run-adds, total-adds,
}
use Prim.Native.String.{◌++◌}

-- `%d`, `%.2f` and `%.6f`
record Printing (fl : Float64) : Type 0 where
  pub decimal : ℕ → String
  pub hundredths : fl.F → String
  pub millionths : fl.F → String

-- What a loop prints for each name and value.
abbrev texts : {V : Type 0} → (String → V → String) → Map String V → String
texts f [] = ""
texts f ((name, v) ∷ rest) = f name v ++ texts f rest

module _ {V : Type 0} where
  -- The names, each with what its pointer holds.
  abbrev samples_of : (ℕ → V) → Map String ℕ → Map String V
  samples_of store [] = []
  samples_of store ((name, a) ∷ rest) = (name, store a) ∷ samples_of store rest

  abbrev pub samples : Registry V → Map String V
  samples r = samples_of r.store r.index

module _ {fl : Float64} (print : Printing fl) where
  unfoldable uptime_text : fl.F → String
  uptime_text uptime =
      "# HELP webbou_uptime_seconds Server uptime in seconds\n"
      ++ ("# TYPE webbou_uptime_seconds gauge\n"
          ++ ("webbou_uptime_seconds " ++ (print.hundredths uptime ++ "\n\n")))

  unfoldable counter_text : String → ℕ → String
  counter_text name value =
      ("# HELP webbou_" ++ (name ++ ("_total Total " ++ (name ++ "\n"))))
      ++ (("# TYPE webbou_" ++ (name ++ "_total counter\n"))
          ++ ("webbou_" ++ (name ++ ("_total " ++ (print.decimal value ++ "\n\n")))))

  unfoldable gauge_text : String → fl.F → String
  gauge_text name value =
      ("# HELP webbou_" ++ (name ++ (" Current " ++ (name ++ "\n"))))
      ++ (("# TYPE webbou_" ++ (name ++ " gauge\n"))
          ++ ("webbou_" ++ (name ++ (" " ++ (print.hundredths value ++ "\n\n")))))

  abbrev histogram_line : String → String → String → String
  histogram_line name part value = "webbou_" ++ (name ++ ("_seconds_" ++ (part ++ (" " ++ value))))

  unfoldable histogram_text : String → Histogram fl → String
  histogram_text name h =
      ("# HELP webbou_" ++ (name ++ ("_seconds Histogram " ++ (name ++ "\n"))))
      ++ (("# TYPE webbou_" ++ (name ++ "_seconds histogram\n"))
          ++ (histogram_line name "count" (print.decimal h.count ++ "\n")
              ++ (histogram_line name "sum" (print.millionths h.sum ++ "\n")
                  ++ (histogram_line name "min" (print.millionths h.min ++ "\n")
                      ++ histogram_line name "max" (print.millionths h.max ++ "\n\n")))))

  unfoldable handler : Metrics fl → fl.F → String
  handler m uptime =
      uptime_text uptime
      ++ (texts counter_text (samples m.counters)
          ++ (texts gauge_text (samples m.gauges) ++ texts histogram_text (samples m.histograms)))

abbrev is_some : {A : Type 0} → Option A → Bool
is_some none = false
is_some (some a) = true

abbrev mapped : {A B : Type 0} → (A → B) → Option A → Option B
mapped f none = none
mapped f (some a) = some (f a)

module _ {V : Type 0} where
  get-samples_of :
      (store : ℕ → V) (k : String) (index : Map String ℕ)
      → get k (samples_of store index) ≡ mapped store (get k index)
  unfolding get
  get-samples_of store k [] = refl
  get-samples_of store k ((name, a) ∷ rest) = elim (Bool-cases (name == k)) [
    | inl e ↦ rw (e, get) refl
    | inr e ↦ rw (e, get) (get-samples_of store k rest)
  ]

  abbrev is_used : String → Uses V → Bool
  is_used k [] = false
  is_used k ((name, f) ∷ us) = let before = is_used k us in if name == k then true else before

  is_some-found :
      (r : Registry V) (name k : String) (fresh : V) (f : V → V) (o : Option ℕ)
      → get name r.index ≡ o
      → is_some (get k (modify (found r name fresh o).1 (found r name fresh o).0 f).index)
        ≡ (if name == k then true else is_some (get k r.index))
  unfolding modify
  is_some-found r name k fresh f (some a) e = elim (Bool-cases (name == k)) [
    | inl same ↦ rw (same, ← (string_eq.beq_iff name k).0 same, e) refl
    | inr other ↦ rw other refl
  ]
  is_some-found r name k fresh f none e = elim (Bool-cases (name == k)) [
    | inl same ↦ rw (get-put name k r.free_from r.index, same) refl
    | inr other ↦ rw (get-put name k r.free_from r.index, other) refl
  ]

  -- The names registered are those used.
  is_some-uses :
      (fresh : V) (r : Registry V) (k : String) (us : Uses V)
      → r.index ≡ []
      → is_some (get k (uses fresh r us).index) ≡ is_used k us
  unfolding get_or_create get
  is_some-uses fresh r k [] e = rw e refl
  is_some-uses fresh r k ((name, f) ∷ us) e =
      is_some-found (uses fresh r us) name k fresh f _ refl
      ∙ ap (λ (b : Bool). if name == k then true else b) (is_some-uses fresh r k us e)

  shown :
      (r : Registry V) (fresh : V) (k : String) (o : Option ℕ)
      → get k r.index ≡ o
      → get k (samples r) ≡ (if is_some o then some (value_at r fresh o) else none)
  shown r fresh k none e = get-samples_of r.store k r.index ∙ ap (mapped r.store) e
  shown r fresh k (some a) e = get-samples_of r.store k r.index ∙ ap (mapped r.store) e

module _ (fl : Float64) where
  -- Was this name ever given to `Counter`, to add something or only to look it up?
  abbrev is_named : String → List (Call fl) → Bool
  is_named k [] = false
  is_named k (counter_call name ∷ cs) =
      let before = is_named k cs in if name == k then true else before
  is_named k (gauge_call name ∷ cs) = is_named k cs
  is_named k (histogram_call name ∷ cs) = is_named k cs
  is_named k (add_gauge_call name v ∷ cs) = is_named k cs
  is_named k (add_call name n ∷ cs) =
      let before = is_named k cs in if name == k then true else before
  is_named k (set_call name v ∷ cs) = is_named k cs
  is_named k (observe_call name v ∷ cs) = is_named k cs

  is_used-adds : (k : String) (cs : List (Call fl)) → is_used k (adds fl cs) ≡ is_named k cs
  is_used-adds k [] = refl
  is_used-adds k (counter_call name ∷ cs) =
      ap (λ (b : Bool). if name == k then true else b) (is_used-adds k cs)
  is_used-adds k (gauge_call name ∷ cs) = is_used-adds k cs
  is_used-adds k (histogram_call name ∷ cs) = is_used-adds k cs
  is_used-adds k (add_gauge_call name v ∷ cs) = is_used-adds k cs
  is_used-adds k (add_call name n ∷ cs) =
      ap (λ (b : Bool). if name == k then true else b) (is_used-adds k cs)
  is_used-adds k (set_call name v ∷ cs) = is_used-adds k cs
  is_used-adds k (observe_call name v ∷ cs) = is_used-adds k cs

  -- The samples from which `Handler` prints the counters, after any calls: exactly the names that were
  -- given to `Counter`, each with the sum of what was added under it modulo 2 ^ 64, which is 0 for a name
  -- that was only looked up.
  pub samples-run :
      (any_gauge : fl.F) (any_histogram : Histogram fl) (now : Time) (k : String)
      (cs : List (Call fl))
      → get k (samples (run fl (new_metrics fl any_gauge any_histogram now) cs).counters)
        ≡ (if is_named k cs then some (u64 (added fl k cs)) else none)
  unfolding new_metrics
  samples-run g h now k cs =
      let m = new_metrics fl g h now in
      let after : Registry ℕ = uses 0 m.counters (adds fl cs) in
      let named : is_some (get k after.index) ≡ is_named k cs =
        is_some-uses 0 m.counters k (adds fl cs) refl ∙ is_used-adds k cs in
      let sum : value_of after 0 k ≡ u64 (added fl k cs) =
        value_of-uses 0 (λ a. 0) k (adds fl cs) ∙ total-adds fl k cs in
      ap (λ r. get k (samples r)) (run-adds fl m cs)
      ∙ shown after 0 k _ refl
      ∙ ap (λ (b : Bool). if b then some (value_of after 0 k) else none) named
      ∙ ap (λ (v : ℕ). if is_named k cs then some v else none) sum
