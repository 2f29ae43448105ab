-- ===== src/Balancer/Discovery.antt =====
-- server/webbou/loadbalancer.go: backends registered from a list of addresses, and the PROXY header. The
-- ticker of `Start` only calls `refresh`, which does nothing.
use web_bou.Prelude.{
  string_eq, ◌*◌, Bool-cases, inl, inr, zero, suc, ◌≡◌, refl, ◌∙◌, Bool, true, false, List, [], ◌∷◌,
  String, ◌==◌, if◌then◌else◌, ltb, length, take,
}
use web_bou.Prelude.Int.{ℤ, pos}
use web_bou.Encoding.{Bytes, equal_bytes}
use web_bou.Prelude.Clock.{Duration, second}
use web_bou.Balancer.{Backend, has_addr}
use web_bou.Balancer.Registry.{IsDistinct, register_lem, has_addr-register}
use web_bou.Balancer.Interface.{LoadBalancer}

record DiscoveryBackend (lb : LoadBalancer) : Type 0 where
  pub addrs : List String
  pub interval : Duration
  pub balancer : lb.S

-- The fields that are not set are zero; so is the limit of connections.
abbrev discovered : String → Backend
discovered addr = record {
  addr = addr;
  weight = 100;
  max_conns = pos 0;
  active_conns = pos 0;
  failed_reqs = 0;
  last_error = 0;
  latency = 0;
  healthy = false;
}

module _ (lb : LoadBalancer) where
  abbrev register_all : List String → lb.S → lb.S
  register_all [] s = s
  register_all (addr ∷ addrs) s = register_all addrs (lb.register s (discovered addr))

  unfoldable new_discovery_backend : List String → Duration → lb.S → DiscoveryBackend lb
  new_discovery_backend addrs interval s = record {
    addrs = addrs;
    interval = interval;
    balancer = register_all addrs s;
  }

  -- `Start`, beside its goroutine.
  unfoldable start : DiscoveryBackend lb → DiscoveryBackend lb
  start db = record db { interval = elim db.interval [ zero ↦ 30 * second | suc n ↦ suc n ] }

abbrev is_listed : List String → String → Bool
is_listed [] a = false
is_listed (addr ∷ addrs) a = let rest = is_listed addrs a in if addr == a then true else rest

either : (b : Bool) → (if b then true else true) ≡ true
either true = refl
either false = refl

module _ (lb : LoadBalancer) where
  register_all-has_addr :
      (addrs : List String) (s : lb.S) (a : String)
      → IsDistinct (lb.backends s)
      → IsDistinct (lb.backends (register_all lb addrs s))
        × (has_addr (lb.backends (register_all lb addrs s)) a
            ≡ (if is_listed addrs a then true else has_addr (lb.backends s) a))
  register_all-has_addr [] s a d = (d, refl)
  register_all-has_addr (addr ∷ addrs) s a d =
      let after = lb.backends-register s (discovered addr) in
      let distinct : IsDistinct (lb.backends (lb.register s (discovered addr))) =
        rw after (register_lem (lb.backends s) (discovered addr) d).0 in
      let one : has_addr (lb.backends (lb.register s (discovered addr))) a
          ≡ (if addr == a then true else has_addr (lb.backends s) a) =
        rw after (has_addr-register (lb.backends s) (discovered addr) a) in
      let (later, has) = register_all-has_addr addrs (lb.register s (discovered addr)) a distinct in
      (
        later,
        has ∙ elim (Bool-cases (addr == a)) [
          | inl e ↦ rw (one, e) (either (is_listed addrs a))
          | inr n ↦ rw (one, n) refl
        ],
      )

  -- With any balancer, the addresses of the list are registered beside those that were, none of them
  -- twice, even where the list has one twice.
  new_discovery_backend-has_addr :
      (addrs : List String) (interval : Duration) (s : lb.S) (a : String)
      → IsDistinct (lb.backends s)
      → IsDistinct (lb.backends (new_discovery_backend lb addrs interval s).balancer)
        × (has_addr (lb.backends (new_discovery_backend lb addrs interval s).balancer) a
            ≡ (if is_listed addrs a then true else has_addr (lb.backends s) a))
  unfolding new_discovery_backend
  new_discovery_backend-has_addr addrs interval s a d = register_all-has_addr addrs s a d

-- `ParseProxyProtocol`: the addresses are never filled in.
record ProxyProtocol : Type 0 where
  pub src_ip : String
  pub src_port : ℤ
  pub dst_ip : String
  pub dst_port : ℤ

data Parsed : Type 0 where
  too_short not_proxy : Parsed
  parsed : ProxyProtocol → Parsed

-- The bytes of "PROXY".
abbrev proxy : Bytes
proxy = 80 ∷ 82 ∷ 79 ∷ 88 ∷ 89 ∷ []

unfoldable parse_proxy_protocol : Bytes → Parsed
parse_proxy_protocol bytes =
    if ltb (length bytes) 16
    then too_short
    else if equal_bytes (take 5 bytes) proxy
    then parsed (record { src_ip = ""; src_port = pos 0; dst_ip = ""; dst_port = pos 0 })
    else not_proxy
