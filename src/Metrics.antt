-- ===== src/Metrics.antt =====
-- server/webbou/metrics.go: the registries of counters, gauges and histograms. `Counter`, `Gauge` and
-- `Histogram` give a pointer that the callers keep, so that the values stand in a store under addresses.
-- float64 is a parameter.
pub mod Values
pub mod Histograms
pub mod Races
pub mod Page
use web_bou.Prelude.{
  string_eq, ℕ, ◌+◌, Bool, true, false, Option, none, some, List, [], ◌∷◌, ◌≡◌, refl, String, eqb,
  if◌then◌else◌,
}
use web_bou.Prelude.Maps.{Map, get, put}
use web_bou.Prelude.Words.{u64}
use web_bou.Prelude.Clock.{Time}
use web_bou.Limits.Float.{Float64}

pub record Registry (V : Type 0) : Type 0 where
  pub index : Map String ℕ
  pub store : ℕ → V
  pub free_from : ℕ

-- One variable assigned.
abbrev assign : {V : Type 0} → (ℕ → V) → ℕ → V → ℕ → V
assign store a v b = if eqb b a then v else store b

module _ {V : Type 0} where
  abbrev found : Registry V → String → V → Option ℕ → ℕ × Registry V
  found r name fresh (some a) = (a, r)
  found r name fresh none = (
    r.free_from,
    record {
      index = put name r.free_from r.index;
      store = assign r.store r.free_from fresh;
      free_from = r.free_from + 1;
    },
  )

  -- The pointer under a name; where there is none, that of a new value.
  unfoldable get_or_create : Registry V → String → V → ℕ × Registry V
  get_or_create r name fresh = found r name fresh (get name r.index)

  -- A method that changes the value behind a pointer.
  unfoldable modify : Registry V → ℕ → (V → V) → Registry V
  modify r a f = record r { store = assign r.store a (f (r.store a)) }

abbrev add_uint64 : ℕ → ℕ → ℕ
add_uint64 n value = u64 (value + n)

module _ (fl : Float64) where
  pub record Histogram : Type 0 where
    pub count : ℕ
    pub sum : fl.F
    pub min : fl.F
    pub max : fl.F

  pub record Metrics : Type 0 where
    pub counters : Registry ℕ
    pub gauges : Registry fl.F
    pub histograms : Registry Histogram
    pub prometheus_server : Option String  -- the address of the HTTP server
    pub start_time : Time

  -- The address that no name has yet holds anything.
  unfoldable pub new_metrics : fl.F → Histogram → Time → Metrics
  new_metrics any_gauge any_histogram now = record {
    counters = record { index = []; store = λ a. 0; free_from = 0 };
    gauges = record { index = []; store = λ a. any_gauge; free_from = 0 };
    histograms = record { index = []; store = λ a. any_histogram; free_from = 0 };
    prometheus_server = none;
    start_time = now;
  }

  -- `min` starts at float64(2^63 - 1).
  unfoldable pub new_histogram : Histogram
  new_histogram = record {
    count = 0;
    sum = fl.of_nat 0;
    min = fl.of_nat 9223372036854775807;
    max = fl.of_nat 0;
  }

  unfoldable counter : Metrics → String → ℕ × Metrics
  counter m name = let (a, r) = get_or_create m.counters name 0 in (a, record m { counters = r })

  unfoldable gauge : Metrics → String → ℕ × Metrics
  gauge m name =
      let (a, r) = get_or_create m.gauges name (fl.of_nat 0) in (a, record m { gauges = r })

  unfoldable histogram : Metrics → String → ℕ × Metrics
  histogram m name =
      let (a, r) = get_or_create m.histograms name new_histogram in (a, record m { histograms = r })

  -- `Add`; `Inc` adds 1.
  unfoldable add : Metrics → ℕ → ℕ → Metrics
  add m a n = record m { counters = modify m.counters a (add_uint64 n) }

  unfoldable inc : Metrics → ℕ → Metrics
  inc m a = record m { counters = modify m.counters a (add_uint64 1) }

  unfoldable counter_value : Metrics → ℕ → ℕ
  counter_value m a = m.counters.store a

  unfoldable set_gauge : Metrics → ℕ → fl.F → Metrics
  set_gauge m a v = record m { gauges = modify m.gauges a (λ old. v) }

  -- By one goroutine: the value is loaded and stored in two steps.
  unfoldable add_gauge : Metrics → ℕ → fl.F → Metrics
  add_gauge m a v = record m { gauges = modify m.gauges a (λ old. fl.add old v) }

  unfoldable observe : Histogram → fl.F → Histogram
  observe h v = record {
    count = u64 (h.count + 1);
    sum = fl.add h.sum v;
    min = if fl.lt v h.min then v else h.min;
    max = if fl.lt h.max v then v else h.max;
  }

  unfoldable observe_at : Metrics → ℕ → fl.F → Metrics
  observe_at m a v = record m { histograms = modify m.histograms a (λ h. observe h v) }

  -- `MetricsMiddleware.Wrap`: a request counted, handled, and its duration observed.
  unfoldable wrap : (Metrics → Metrics) → fl.F → Metrics → Metrics
  wrap next_handler duration m =
      let (requests, counted) = counter m "requests" in
      let handled = next_handler (inc counted requests) in
      let (durations, ready) = histogram handled "request_duration" in
      observe_at ready durations duration

  -- The HTTP server runs in a goroutine of the library.
  unfoldable start_prometheus : Metrics → String → Metrics
  start_prometheus m addr = record m { prometheus_server = some addr }

  unfoldable gauge_value : Metrics → ℕ → fl.F
  gauge_value m a = m.gauges.store a

  unfoldable stats : Histogram → ℕ × fl.F × fl.F × fl.F
  stats h = (h.count, h.sum, h.min, h.max)

  -- The variables of the package: the global metrics, whether they are enabled, which nothing reads, and
  -- the pointers that are looked up at the start.
  record Package : Type 0 where
    pub global_metrics : Metrics
    pub metrics_enabled : Bool
    pub connections : ℕ
    pub frames_sent : ℕ
    pub frames_recv : ℕ
    pub bytes_sent : ℕ
    pub bytes_recv : ℕ
    pub errors : ℕ
    pub latency : ℕ
    pub bandwidth : ℕ

  unfoldable new_package : fl.F → Histogram → Time → Package
  new_package any_gauge any_histogram now =
      let (connections, m1) = counter (new_metrics any_gauge any_histogram now) "connections" in
      let (frames_sent, m2) = counter m1 "frames_sent" in
      let (frames_recv, m3) = counter m2 "frames_recv" in
      let (bytes_sent, m4) = counter m3 "bytes_sent" in
      let (bytes_recv, m5) = counter m4 "bytes_recv" in
      let (errors, m6) = counter m5 "errors" in
      let (latency, m7) = histogram m6 "latency" in
      let (bandwidth, m8) = gauge m7 "bandwidth_mbps" in
      record {
        global_metrics = m8;
        metrics_enabled = false;
        connections = connections;
        frames_sent = frames_sent;
        frames_recv = frames_recv;
        bytes_sent = bytes_sent;
        bytes_recv = bytes_recv;
        errors = errors;
        latency = latency;
        bandwidth = bandwidth;
      }

  unfoldable get_metrics : Package → Metrics
  get_metrics p = p.global_metrics

  unfoldable enable_metrics : Package → Bool → Package
  enable_metrics p enabled = record p { metrics_enabled = enabled }

  -- The six counters of the package have each a variable of their own, and its uses find them again.
  new_package_lem :
      (any_gauge : fl.F) (any_histogram : Histogram) (now : Time)
      → let p = new_package any_gauge any_histogram now in
        (p.connections ∷ p.frames_sent ∷ p.frames_recv ∷ p.bytes_sent ∷ p.bytes_recv ∷ p.errors ∷ []
          ≡ 0 ∷ 1 ∷ 2 ∷ 3 ∷ 4 ∷ 5 ∷ [])
        × (counter p.global_metrics "errors" ≡ (p.errors, p.global_metrics))
        × (counter p.global_metrics "connections" ≡ (p.connections, p.global_metrics))
  unfolding new_package counter gauge histogram get_or_create get put new_metrics
  new_package_lem any_gauge any_histogram now = (refl, refl, refl)
