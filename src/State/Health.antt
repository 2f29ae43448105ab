-- ===== src/State/Health.antt =====
-- server/webbou/state.go, `HealthServer`: the answers of its two HTTP handlers. A check is a function
-- of the program that uses the server; what the checks return is the argument `outcome`.
use web_bou.Prelude.{
  string_eq, ℕ, ◌≡◌, refl, Bool, true, false, Option, none, some, [], ◌∷◌, String, inl, inr,
  if◌then◌else◌, ◌==◌, Option-cases,
}
use web_bou.Prelude.Maps.{Map, put}
use web_bou.Prelude.Clock.{Time, Duration, elapsed}

record HealthCheck : Type 0 where
  pub name : String
  pub check : ℕ
  pub timeout : Duration

record HealthServer : Type 0 where
  pub ready : Bool
  pub checks : Map String HealthCheck
  pub start_time : Time

-- The status and the body that a handler writes.
data Response : Type 0 where
  alive : Duration → Response
  not_ready : Response
  unhealthy : String → String → Response
  is_ready : Response

abbrev status : Response → ℕ
status (alive uptime) = 200
status not_ready = 503
status (unhealthy name error) = 503
status is_ready = 200

-- `startTime` is not set.
unfoldable new_health_server : HealthServer
new_health_server = record { ready = false; checks = []; start_time = 0 }

-- A function is known by a number, for which `outcome` says what a call of it returns.
unfoldable register : HealthServer → String → ℕ → Duration → HealthServer
register h name check timeout = record h {
  checks = put name (record { name = name; check = check; timeout = timeout }) h.checks;
}

unfoldable liveness : HealthServer → Time → Response
liveness h now = alive (elapsed now h.start_time)

unfoldable run_checks : (ℕ → Option String) → Map String HealthCheck → Response
run_checks outcome [] = is_ready
run_checks outcome ((name, check) ∷ rest) =
    let later = run_checks outcome rest in
    elim (outcome check.check) [ none ↦ later | some e ↦ unhealthy check.name e ]

unfoldable readiness : HealthServer → (ℕ → Option String) → Response
readiness h outcome = if h.ready then run_checks outcome h.checks else not_ready

unfoldable set_ready : HealthServer → Bool → HealthServer
set_ready h ready = record h { ready = ready }

-- The paths of `Handler`; the rest is the library's answer.
unfoldable handler : HealthServer → (ℕ → Option String) → Time → String → Option Response
handler h outcome now path =
    if path == "/health"
    then some (liveness h now)
    else if path == "/ready"
    then some (readiness h outcome)
    else none

-- Every registered check passes.
abbrev AllPass : (ℕ → Option String) → Map String HealthCheck → Type 0
AllPass outcome [] = Unit
AllPass outcome ((name, check) ∷ rest) = (outcome check.check ≡ none) × AllPass outcome rest

-- A registered check has this name and fails with this error.
data Fails (outcome : ℕ → Option String) (name error : String)
    : Map String HealthCheck → Type 0 where
  here :
      {k : String} {c : HealthCheck} {m : Map String HealthCheck}
      → c.name ≡ name
      → outcome c.check ≡ some error
      → Fails outcome name error ((k, c) ∷ m)
  there :
      {k : String} {c : HealthCheck} {m : Map String HealthCheck}
      → Fails outcome name error m
      → Fails outcome name error ((k, c) ∷ m)

-- What the checks' answer says of them.
abbrev Reports : (ℕ → Option String) → Map String HealthCheck → Response → Type 0
Reports outcome m (alive uptime) = ⊥
Reports outcome m not_ready = ⊥
Reports outcome m (unhealthy name error) = Fails outcome name error m
Reports outcome m is_ready = AllPass outcome m

Reports-pass :
    (outcome : ℕ → Option String) (k : String) (c : HealthCheck) (m : Map String HealthCheck)
    (r : Response)
    → outcome c.check ≡ none
    → Reports outcome m r
    → Reports outcome ((k, c) ∷ m) r
Reports-pass outcome k c m (alive uptime) e h = h
Reports-pass outcome k c m not_ready e h = h
Reports-pass outcome k c m (unhealthy name error) e h = there h
Reports-pass outcome k c m is_ready e h = (e, h)

run_checks-Reports :
    (outcome : ℕ → Option String) (m : Map String HealthCheck)
    → Reports outcome m (run_checks outcome m)
unfolding run_checks
run_checks-Reports outcome [] = tt
run_checks-Reports outcome ((k, c) ∷ m) = elim (Option-cases (outcome c.check)) [
  | inl pass ↦
      rw (pass, run_checks) (Reports-pass outcome k c m _ pass (run_checks-Reports outcome m))
  | inr (e, fail) ↦ rw (fail, run_checks) (here refl fail)
]

-- The readiness handler answers 200 only if the server was set ready and every registered check
-- passes; otherwise it answers 503, and names a check that fails with its error if the server was
-- set ready. This holds for every order in which the checks are made.
readiness-Reports :
    (h : HealthServer) (outcome : ℕ → Option String)
    → (h.ready ≡ false → readiness h outcome ≡ not_ready)
      × (h.ready ≡ true → Reports outcome h.checks (readiness h outcome))
unfolding readiness
readiness-Reports h outcome = (λ e. rw e, λ e. rw e (run_checks-Reports outcome h.checks))
