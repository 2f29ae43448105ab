-- ===== src/Balancer/LeastConnections.antt =====
-- server/webbou/loadbalancer.go, `LeastConnections`. `Select` only reads, and is a function of the list.
use web_bou.Prelude.{
  String, ◌≡◌, refl, Bool, true, false, Bool-cases, inl, inr, ◌⊎◌, ◌&&◌, Option, none, some, List,
  [], ◌∷◌, if◌then◌else◌, arith,
}
use web_bou.Prelude.Int.{ℤ, pos, negsuc, ltb_ℤ, ◌≤ℤ◌}
use web_bou.Prelude.Clock.{Time, Duration}
use web_bou.Balancer
use web_bou.Balancer.{Backend, has_addr}
use web_bou.Balancer.Registry.{found_first}

pub record LeastConnections : Type 0 where
  pub backends : List Backend

unfoldable pub new_least_connections : LeastConnections
new_least_connections = record { backends = [] }

unfoldable pub register : LeastConnections → Backend → LeastConnections
register lc backend = record lc { backends = Balancer.register lc.backends backend }

unfoldable pub unregister : LeastConnections → String → LeastConnections
unregister lc addr = record lc { backends = Balancer.unregister lc.backends addr }

unfoldable pub record_success : Backend → Duration → Backend
record_success backend latency = Balancer.record_success backend latency

unfoldable pub record_failure : Backend → Time → Backend
record_failure backend now = Balancer.record_failure backend now

abbrev is_eligible : Backend → Bool
is_eligible b = b.healthy && ltb_ℤ b.active_conns b.max_conns

-- The loop, over `minConns` and `selected`.
unfoldable least_from : ℤ → Option Backend → List Backend → Option Backend
least_from min_conns selected [] = selected
least_from min_conns selected (b ∷ rest) =
    let better = is_eligible b && ltb_ℤ b.active_conns min_conns in
    least_from (if better then b.active_conns else min_conns) (if better then some b else selected)
      rest

-- `minConns` begins with `^int64(0)`, all bits set, which is -1.
unfoldable pub select : List Backend → Option Backend
unfolding least_from
select backends = least_from (negsuc 0) none backends

-- No backend has a negative count of connections.
abbrev pub NoneNegative : List Backend → Type 0
NoneNegative [] = Unit
NoneNegative (b ∷ bs) = (pos 0 ≤ℤ b.active_conns) × NoneNegative bs

least_from_nothing : (bs : List Backend) → NoneNegative bs → least_from (negsuc 0) none bs ≡ none
unfolding least_from
least_from_nothing [] h = refl
least_from_nothing (b ∷ bs) h =
    let worse : (is_eligible b && ltb_ℤ b.active_conns (negsuc 0)) ≡ false = ground (arith, h.0) in
    rw (worse, least_from) (least_from_nothing bs h.1)

-- `LeastConnections` never selects a backend while no count of connections is negative, however many
-- healthy backends have room: the least count seen so far begins with -1, below every count.
pub never_selects : (backends : List Backend) → NoneNegative backends → select backends ≡ none
unfolding select
never_selects backends h = least_from_nothing backends h

-- What the loop selects, it had selected before or meets in the list, healthy and with room.
least_from-found :
    (bs : List Backend) (min_conns : ℤ) (selected : Option Backend) (b : Backend)
    → least_from min_conns selected bs ≡ some b
    → (selected ≡ some b) ⊎ ((b.healthy ≡ true) × (has_addr bs b.addr ≡ true))
unfolding least_from has_addr
least_from-found [] m o b e = inl e
least_from-found (c ∷ bs) m o b e =
    let better = is_eligible c && ltb_ℤ c.active_conns m in
    let later =
      least_from-found bs (if better then c.active_conns else m) (if better then some c else o) b
        e in
    elim later [
      | inl f ↦ here (Bool-cases better) f
      | inr (healthy, known) ↦ inr (healthy, ground (arith, known))
    ]
  where
    here :
        ((is_eligible c && ltb_ℤ c.active_conns m) ≡ true)
          ⊎ ((is_eligible c && ltb_ℤ c.active_conns m) ≡ false)
        → (if is_eligible c && ltb_ℤ c.active_conns m then some c else o) ≡ some b
        → (o ≡ some b) ⊎ ((b.healthy ≡ true) × (has_addr (c ∷ bs) b.addr ≡ true))
    here (inl t) f =
        let same : c ≡ b = let g = rw t at f in cc in
        inr (ground (arith, t, f), rw same (found_first bs b))
    here (inr t) f = inl (rw t at f)

-- What is selected is healthy and registered.
pub select-healthy :
    (bs : List Backend) (b : Backend)
    → select bs ≡ some b
    → (b.healthy ≡ true) × (has_addr bs b.addr ≡ true)
unfolding select
select-healthy bs b e = elim (least_from-found bs (negsuc 0) none b e) [
  | inl f ↦ absurd (cc)
  | inr found ↦ found
]
