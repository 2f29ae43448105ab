-- ===== src/Balancer/Registry.antt =====
-- server/webbou/loadbalancer.go, `Register`, `Unregister` and the health of a backend.
use web_bou.Prelude.{
  string_eq, suc, ◌+◌, ◌≡◌, ◌≢◌, refl, ◌∙◌, true, false, List, [], ◌∷◌, ◌++◌, String, ◌==◌, ltb,
  length, if◌then◌else◌, arith, Bool-cases, inl, inr,
}
use native.Mathlib.Nat.{add-zero}
use text.Mathlib.TextEquality.{eq_iff}
use web_bou.Prelude.Clock.{Time}
use web_bou.Balancer.{Backend, has_addr, register, unregister, record_failure}

-- No address is registered twice.
abbrev pub IsDistinct : List Backend → Type 0
IsDistinct [] = Unit
IsDistinct (b ∷ bs) = (has_addr bs b.addr ≡ false) × IsDistinct bs

has_addr-append :
    (xs : List Backend) (b : Backend) (a : String)
    → has_addr (xs ++ b ∷ []) a ≡ (if has_addr xs a then true else b.addr == a)
unfolding has_addr
has_addr-append [] b a = ground arith
has_addr-append (x ∷ xs) b a = ground (arith, has_addr-append xs b a)

IsDistinct-append :
    (xs : List Backend) (b : Backend)
    → has_addr xs b.addr ≡ false
    → IsDistinct xs
    → IsDistinct (xs ++ b ∷ [])
unfolding has_addr
IsDistinct-append [] b e d = (refl, tt)
IsDistinct-append (x ∷ xs) b e d = (
  ground (arith, has_addr-append xs b x.addr, d.0, eq_iff x.addr b.addr, eq_iff b.addr x.addr),
  IsDistinct-append xs b (ground arith) d.1,
)

pub has_addr-register :
    (xs : List Backend) (b : Backend) (a : String)
    → has_addr (register xs b) a ≡ (if b.addr == a then true else has_addr xs a)
unfolding register
has_addr-register xs b a = elim (Bool-cases (has_addr xs b.addr)) [
  | inl old ↦ rw old (ground (arith, old, eq_iff b.addr a))
  | inr new ↦ rw new (ground (arith, has_addr-append xs (record b { healthy = true }) a))
]

pub found_first : (xs : List Backend) (b : Backend) → has_addr (b ∷ xs) b.addr ≡ true
unfolding has_addr
found_first xs b = ground (arith, eq_iff b.addr b.addr)

-- After `Register` the address is registered, no other address comes or goes, and no address is
-- registered twice if none was before.
pub register_lem :
    (xs : List Backend) (b : Backend)
    → IsDistinct xs
    → IsDistinct (register xs b)
      × (has_addr (register xs b) b.addr ≡ true)
      × ((a : String) → b.addr ≢ a → has_addr (register xs b) a ≡ has_addr xs a)
unfolding register
register_lem xs b d = elim (Bool-cases (has_addr xs b.addr)) [
  | inl old ↦ rw old (d, old, λ a n. refl)
  | inr new ↦ rw new (
    IsDistinct-append xs _ new d,
    ground (arith, has_addr-append xs (record b { healthy = true }) b.addr, eq_iff b.addr b.addr),
    λ a n. ground (arith, has_addr-append xs (record b { healthy = true }) a, eq_iff b.addr a),
  )
]

pub has_addr-unregister :
    (xs : List Backend) (a c : String)
    → IsDistinct xs
    → has_addr (unregister xs a) c ≡ (if a == c then false else has_addr xs c)
unfolding has_addr unregister
has_addr-unregister [] a c d = ground arith
has_addr-unregister (x ∷ xs) a c d =
    ground
      (arith, has_addr-unregister xs a c d.1, d.0, eq_iff x.addr a, eq_iff x.addr c, eq_iff a c)

IsDistinct-unregister :
    (xs : List Backend) (a : String) → IsDistinct xs → IsDistinct (unregister xs a)
unfolding unregister
IsDistinct-unregister [] a d = tt
IsDistinct-unregister (x ∷ xs) a d = elim (Bool-cases (x.addr == a)) [
  | inl e ↦ rw (e, unregister) d.1
  | inr e ↦
      rw (e, unregister)
        (ground (arith, has_addr-unregister xs a x.addr d.1, d.0), IsDistinct-unregister xs a d.1)
]

-- Where no address is registered twice, after `Unregister` the address is not registered, no other
-- address comes or goes, and still none is registered twice.
pub unregister_lem :
    (xs : List Backend) (a : String)
    → IsDistinct xs
    → IsDistinct (unregister xs a)
      × (has_addr (unregister xs a) a ≡ false)
      × ((c : String) → a ≢ c → has_addr (unregister xs a) c ≡ has_addr xs c)
unregister_lem xs a d = (
  IsDistinct-unregister xs a d,
  ground (arith, has_addr-unregister xs a a d, eq_iff a a),
  λ c n. ground (arith, has_addr-unregister xs a c d, eq_iff a c),
)

-- What a method does to a backend through its pointer, in the list that holds the pointer. The
-- address tells the pointer, since `Register` takes no address twice.
abbrev pub on_backend : (Backend → Backend) → String → List Backend → List Backend
on_backend f addr [] = []
on_backend f addr (b ∷ bs) =
    let rest = on_backend f addr bs in if b.addr == addr then f b ∷ rest else b ∷ rest

module _ (f : Backend → Backend) (same : (b : Backend) → (f b).addr ≡ b.addr) where
  pub has_addr-on_backend :
      (xs : List Backend) (addr a : String) → has_addr (on_backend f addr xs) a ≡ has_addr xs a
  unfolding has_addr
  has_addr-on_backend [] addr a = refl
  has_addr-on_backend (x ∷ xs) addr a = elim (Bool-cases (x.addr == addr)) [
    | inl e ↦ rw (e, has_addr, same x, has_addr-on_backend xs addr a) refl
    | inr e ↦ rw (e, has_addr, has_addr-on_backend xs addr a) refl
  ]

  pub IsDistinct-on_backend :
      (xs : List Backend) (addr : String) → IsDistinct xs → IsDistinct (on_backend f addr xs)
  IsDistinct-on_backend [] addr d = tt
  IsDistinct-on_backend (x ∷ xs) addr d = elim (Bool-cases (x.addr == addr)) [
    | inl e ↦
        rw e (
          rw (same x) (has_addr-on_backend xs addr x.addr ∙ d.0),
          IsDistinct-on_backend xs addr d.1,
        )
    | inr e ↦ rw e (has_addr-on_backend xs addr x.addr ∙ d.0, IsDistinct-on_backend xs addr d.1)
  ]

-- A run of failures of a backend.
unfoldable fail_at : List Time → Backend → Backend
unfolding record_failure
fail_at [] b = b
fail_at (now ∷ rest) b = fail_at rest (record_failure b now)

record_failure_lem :
    (b : Backend) (now : Time)
    → ((record_failure b now).failed_reqs ≡ b.failed_reqs + 1)
      × ((record_failure b now).healthy ≡ (if ltb 5 (b.failed_reqs + 1) then false else b.healthy))
unfolding record_failure
record_failure_lem b now = (ground arith, ground arith)

fail_at_state :
    (times : List Time) (b : Backend)
    → b.healthy ≡ ltb b.failed_reqs 6
    → (fail_at times b).healthy ≡ ltb (b.failed_reqs + length times) 6
unfolding fail_at
fail_at_state [] b h = rw add-zero h
fail_at_state (now ∷ rest) b h =
    let (count, state) = record_failure_lem b now in
    let sum : b.failed_reqs + suc (length rest) ≡ (record_failure b now).failed_reqs + length rest =
      omega arith in
    rw sum (fail_at_state rest (record_failure b now) (ground (arith, count, state, h)))

-- A healthy backend that has not failed since its last success is out of use after its sixth failure
-- in a row, and not before.
fail_at_healthy :
    (times : List Time) (b : Backend)
    → b.healthy ≡ true
    → b.failed_reqs ≡ 0
    → (fail_at times b).healthy ≡ ltb (length times) 6
fail_at_healthy times b well fresh =
    let state = fail_at_state times b (ground (arith, well, fresh)) in ground (arith, state, fresh)
