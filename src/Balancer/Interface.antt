-- ===== src/Balancer/Interface.antt =====
-- server/webbou/loadbalancer.go, the interface `LoadBalancer`: its methods on a state, what its clients rely
-- on, and what any run of calls makes of the registered addresses. Both strategies fill it.
use web_bou.Prelude.{
  string_eq, ◌≡◌, refl, sym, ap, ◌∙◌, Bool, true, false, Option, some, List, [], ◌∷◌, String, ◌==◌,
  if◌then◌else◌, arith,
}
use web_bou.Prelude.Clock.{Time, Duration}
use web_bou.Balancer
use web_bou.Balancer.{Backend, has_addr}
use web_bou.Balancer.Registry.{
  IsDistinct, on_backend, has_addr-on_backend, IsDistinct-on_backend, register_lem, unregister_lem,
  has_addr-register, has_addr-unregister,
}
use web_bou.Balancer.RoundRobin
use web_bou.Balancer.RoundRobin.{RoundRobin, new_round_robin}
use web_bou.Balancer.LeastConnections
use web_bou.Balancer.LeastConnections.{LeastConnections, new_least_connections}

pub record LoadBalancer : Type 1 where
  pub S : Type 0
  pub start : S
  pub backends : S → List Backend
  pub select : S → S × Option Backend
  pub register : S → Backend → S
  pub unregister : S → String → S
  pub record_success : S → String → Duration → S
  pub record_failure : S → String → Time → S
  pub backends-start : backends start ≡ []
  pub backends-select : (s : S) → backends (select s).0 ≡ backends s
  pub backends-register :
      (s : S) (b : Backend) → backends (register s b) ≡ Balancer.register (backends s) b
  pub backends-unregister :
      (s : S) (addr : String) → backends (unregister s addr) ≡ Balancer.unregister (backends s) addr
  pub backends-record_success :
      (s : S) (addr : String) (latency : Duration)
      → backends (record_success s addr latency)
        ≡ on_backend (λ b. Balancer.record_success b latency) addr (backends s)
  pub backends-record_failure :
      (s : S) (addr : String) (now : Time)
      → backends (record_failure s addr now)
        ≡ on_backend (λ b. Balancer.record_failure b now) addr (backends s)
  pub select-healthy :
      (s : S) (b : Backend)
      → (select s).1 ≡ some b
      → (b.healthy ≡ true) × (has_addr (backends s) b.addr ≡ true)

abbrev pub round_robin : LoadBalancer
unfolding new_round_robin RoundRobin.register RoundRobin.unregister RoundRobin.record_success
    RoundRobin.record_failure
round_robin = record {
  S = RoundRobin;
  start = new_round_robin;
  backends = λ rr. rr.backends;
  select = RoundRobin.select;
  register = RoundRobin.register;
  unregister = RoundRobin.unregister;
  record_success = λ rr addr latency. record rr {
    backends = on_backend (λ b. RoundRobin.record_success b latency) addr rr.backends;
  };
  record_failure = λ rr addr now. record rr {
    backends = on_backend (λ b. RoundRobin.record_failure b now) addr rr.backends;
  };
  backends-start = refl;
  backends-select = λ rr. (RoundRobin.select-healthy rr).0;
  backends-register = λ rr b. refl;
  backends-unregister = λ rr addr. refl;
  backends-record_success = λ rr addr latency. refl;
  backends-record_failure = λ rr addr now. refl;
  select-healthy = λ rr. (RoundRobin.select-healthy rr).1;
}

abbrev least_connections : LoadBalancer
unfolding new_least_connections LeastConnections.register LeastConnections.unregister
    LeastConnections.record_success LeastConnections.record_failure
least_connections = record {
  S = LeastConnections;
  start = new_least_connections;
  backends = λ lc. lc.backends;
  select = λ lc. (lc, LeastConnections.select lc.backends);
  register = LeastConnections.register;
  unregister = LeastConnections.unregister;
  record_success = λ lc addr latency. record lc {
    backends = on_backend (λ b. LeastConnections.record_success b latency) addr lc.backends;
  };
  record_failure = λ lc addr now. record lc {
    backends = on_backend (λ b. LeastConnections.record_failure b now) addr lc.backends;
  };
  backends-start = refl;
  backends-select = λ lc. refl;
  backends-register = λ lc b. refl;
  backends-unregister = λ lc addr. refl;
  backends-record_success = λ lc addr latency. refl;
  backends-record_failure = λ lc addr now. refl;
  select-healthy = λ lc b e. LeastConnections.select-healthy lc.backends b e;
}

pub data Call : Type 0 where
  select_call : Call
  register_call : Backend → Call
  unregister_call : String → Call
  success_call : String → Duration → Call
  failure_call : String → Time → Call

-- The set of registered addresses that a run of calls stands for, newest call first.
abbrev pub registered : List Call → String → Bool
registered [] a = false
registered (select_call ∷ cs) a = registered cs a
registered (register_call b ∷ cs) a =
    let before = registered cs a in if b.addr == a then true else before
registered (unregister_call addr ∷ cs) a =
    let before = registered cs a in if addr == a then false else before
registered (success_call addr latency ∷ cs) a = registered cs a
registered (failure_call addr now ∷ cs) a = registered cs a

record_success-addr :
    (latency : Duration) (b : Backend) → (Balancer.record_success b latency).addr ≡ b.addr
unfolding Balancer.record_success
record_success-addr latency b = refl

record_failure-addr : (now : Time) (b : Backend) → (Balancer.record_failure b now).addr ≡ b.addr
unfolding Balancer.record_failure
record_failure-addr now b = ground arith

module _ (lb : LoadBalancer) where
  abbrev call : Call → lb.S → lb.S
  call select_call s = (lb.select s).0
  call (register_call b) s = lb.register s b
  call (unregister_call addr) s = lb.unregister s addr
  call (success_call addr latency) s = lb.record_success s addr latency
  call (failure_call addr now) s = lb.record_failure s addr now

  abbrev pub run : List Call → lb.S
  run [] = lb.start
  run (c ∷ cs) = call c (run cs)

  run-IsDistinct : (cs : List Call) → IsDistinct (lb.backends (run cs))
  run-IsDistinct [] = rw (lb.backends-start) tt
  run-IsDistinct (select_call ∷ cs) = rw (lb.backends-select (run cs)) (run-IsDistinct cs)
  run-IsDistinct (register_call b ∷ cs) =
      rw (lb.backends-register (run cs) b)
        (register_lem (lb.backends (run cs)) b (run-IsDistinct cs)).0
  run-IsDistinct (unregister_call addr ∷ cs) =
      rw (lb.backends-unregister (run cs) addr)
        (unregister_lem (lb.backends (run cs)) addr (run-IsDistinct cs)).0
  run-IsDistinct (success_call addr latency ∷ cs) =
      rw (lb.backends-record_success (run cs) addr latency) (
        IsDistinct-on_backend (λ b. Balancer.record_success b latency) (record_success-addr latency)
          (lb.backends (run cs)) addr (run-IsDistinct cs))
  run-IsDistinct (failure_call addr now ∷ cs) = rw (lb.backends-record_failure (run cs) addr now) (
      IsDistinct-on_backend (λ b. Balancer.record_failure b now) (record_failure-addr now)
        (lb.backends (run cs)) addr (run-IsDistinct cs))

  has_addr-run : (cs : List Call) (a : String) → has_addr (lb.backends (run cs)) a ≡ registered cs a
  unfolding has_addr
  has_addr-run [] a = rw (lb.backends-start)
  has_addr-run (select_call ∷ cs) a =
      ap (λ bs. has_addr bs a) (lb.backends-select (run cs)) ∙ has_addr-run cs a
  has_addr-run (register_call b ∷ cs) a =
      ap (λ bs. has_addr bs a) (lb.backends-register (run cs) b)
      ∙ has_addr-register (lb.backends (run cs)) b a
      ∙ ap (λ (old : Bool). if b.addr == a then true else old) (has_addr-run cs a)
  has_addr-run (unregister_call addr ∷ cs) a =
      ap (λ bs. has_addr bs a) (lb.backends-unregister (run cs) addr)
      ∙ has_addr-unregister (lb.backends (run cs)) addr a (run-IsDistinct cs)
      ∙ ap (λ (old : Bool). if addr == a then false else old) (has_addr-run cs a)
  has_addr-run (success_call addr latency ∷ cs) a =
      ap (λ bs. has_addr bs a) (lb.backends-record_success (run cs) addr latency)
      ∙ has_addr-on_backend (λ b. Balancer.record_success b latency) (record_success-addr latency)
          (lb.backends (run cs)) addr a
      ∙ has_addr-run cs a
  has_addr-run (failure_call addr now ∷ cs) a =
      ap (λ bs. has_addr bs a) (lb.backends-record_failure (run cs) addr now)
      ∙ has_addr-on_backend (λ b. Balancer.record_failure b now) (record_failure-addr now)
          (lb.backends (run cs)) addr a
      ∙ has_addr-run cs a

  -- A balancer that keeps the interface's laws, as both strategies do, implements a set of addresses: after
  -- any calls of its methods exactly those are registered that were registered since they were last
  -- removed, each once; and what is selected then is healthy and
  -- registered.
  pub run-registered :
      (cs : List Call)
      → ((a : String) → has_addr (lb.backends (run cs)) a ≡ registered cs a)
        × IsDistinct (lb.backends (run cs))
        × ((b : Backend)
            → (lb.select (run cs)).1 ≡ some b
            → (b.healthy ≡ true) × (registered cs b.addr ≡ true))
  run-registered cs = (
    has_addr-run cs,
    run-IsDistinct cs,
    λ b e.
        let (healthy, known) = lb.select-healthy (run cs) b e in
        (healthy, sym (has_addr-run cs b.addr) ∙ known),
  )
