-- ===== src/Examples/BalancerRuns.antt =====
-- Tests of server/webbou/loadbalancer.go.
use web_bou.Prelude.{string_eq, ◌≡◌, refl, Bool, true, none, some, List, [], ◌∷◌, String, arith}
use web_bou.Prelude.Int.{pos}
use web_bou.Balancer.{Backend, has_addr}
use web_bou.Balancer.Registry.{IsDistinct}
use web_bou.Balancer.Interface
use web_bou.Balancer.Interface.{
  LoadBalancer, Call, select_call, register_call, unregister_call, success_call, failure_call,
  registered, run, run-registered,
}
use web_bou.Balancer.RoundRobin.{RoundRobin, selects, in_turn, selects-in_turn}
use web_bou.Balancer.LeastConnections
use web_bou.Balancer.LeastConnections.{NoneNegative, never_selects}

abbrev backend_at : String → Bool → Backend
backend_at addr healthy = record {
  addr = addr;
  weight = 1;
  max_conns = pos 100;
  active_conns = pos 3;
  failed_reqs = 0;
  last_error = 0;
  latency = 0;
  healthy = healthy;
}

abbrev backends : List Backend
backends = backend_at "a" true ∷ backend_at "b" true ∷ []

abbrev round_robin : RoundRobin
round_robin = record { backends = backends; index = 3 }

selects-in_turn_example : selects 4 round_robin ≡ in_turn 4 backends 3
selects-in_turn_example =
    selects-in_turn 4 round_robin (omega arith) (omega arith) (omega arith) (refl, (refl, tt))

never_selects_example : LeastConnections.select backends ≡ none
never_selects_example = never_selects backends (omega arith, (omega arith, tt))

-- Two backends come, the first one goes.
abbrev calls : List Call
calls =
    select_call
    ∷ failure_call "b" 70
    ∷ success_call "b" 5
    ∷ unregister_call "a"
    ∷ register_call (backend_at "b" true)
    ∷ register_call (backend_at "a" true)
    ∷ []

abbrev lb : LoadBalancer
lb = Interface.round_robin

run-registered_example :
    ((a : String) → has_addr (lb.backends (run lb calls)) a ≡ registered calls a)
    × IsDistinct (lb.backends (run lb calls))
    × ((b : Backend)
        → (lb.select (run lb calls)).1 ≡ some b
        → (b.healthy ≡ true) × (registered calls b.addr ≡ true))
run-registered_example = run-registered lb calls
