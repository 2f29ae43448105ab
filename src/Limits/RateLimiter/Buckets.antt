-- ===== src/Limits/RateLimiter/Buckets.antt =====
-- server/webbou/ratelimit.go, `RateLimiter`: no bucket is ever above its capacity.
use web_bou.Prelude.{
  string_eq, ◌≡◌, ◌≢◌, refl, Bool, true, false, Option, none, some, List, [], ◌∷◌, String,
  Bool-cases, inl, inr, All, ◌==◌,
}
use web_bou.Prelude.Maps.{get, put, kept, get-put, get-put_other, get-keep}
use web_bou.Prelude.Clock.{Time}
use web_bou.Limits.Float.{Float64}
use web_bou.Limits.RateLimiter.{
  IpRateLimiter, RateLimiter, new_rate_limiter, capped, refill, take_tokens, allow, allow_n, ip_cap,
  ip_bucket, refill_ip, take_ip, allow_ip, cleanup,
}

module _ (fl : Float64) where
  open fl use {F, add, sub, mul, div, lt, le, of_nat, seconds, lt_irrefl, sub_below, zero_le_one}

  -- The global bucket and each IP's bucket are not above their capacities.
  pub record IsFilled (rl : RateLimiter fl) : Type 0 where
    pub global : lt rl.max_tokens rl.tokens ≡ false
    pub each_ip :
        (ip : String) (b : IpRateLimiter fl)
        → get ip rl.per_ip_limiters ≡ some b
        → lt (ip_cap fl rl) b.tokens ≡ false

  not-lt-capped : (cap t : F) → lt cap (capped fl cap t) ≡ false
  not-lt-capped cap t = elim (Bool-cases (lt cap t)) [
    | inl over ↦ rw over (lt_irrefl cap)
    | inr under ↦ rw under under
  ]

  pub data Call : Type 0 where
    allow_call : Time → Call
    allow_n_call : F → Time → Call
    allow_ip_call : String → Time → Time → Time → Call
    sweep : Time → Call

  unfoldable step : RateLimiter fl → Call → RateLimiter fl
  step rl (allow_call now) = (allow fl rl now).0
  step rl (allow_n_call n now) = (allow_n fl rl n now).0
  step rl (allow_ip_call ip created since now) = (allow_ip fl rl ip created since now).0
  step rl (sweep now) = cleanup fl rl now

  unfoldable pub run : RateLimiter fl → List Call → RateLimiter fl
  unfolding step
  run rl [] = rl
  run rl (c ∷ cs) = run (step rl c) cs

  -- The amounts that are asked for are not negative.
  abbrev IsProper : Call → Type 0
  IsProper (allow_n_call n now) = le (of_nat 0) n ≡ true
  IsProper _ = Unit

  refill-IsFilled : (rl : RateLimiter fl) (now : Time) → IsFilled rl → IsFilled (refill fl rl now)
  unfolding refill
  refill-IsFilled rl now h = record { global = not-lt-capped rl.max_tokens _; each_ip = h.each_ip }

  take_tokens-IsFilled :
      (rl : RateLimiter fl) (n : F)
      → le (of_nat 0) n ≡ true
      → IsFilled rl
      → IsFilled (take_tokens fl rl n).0
  take_tokens-IsFilled rl n pos h = elim (Bool-cases (le n rl.tokens)) [
    | inl enough ↦ rw enough (record {
      global = sub_below rl.tokens n rl.max_tokens h.global pos enough;
      each_ip = h.each_ip;
    })
    | inr short ↦ rw short h
  ]

  store-IsFilled :
      (rl : RateLimiter fl) (ip : String) (b : IpRateLimiter fl)
      → lt (ip_cap fl rl) b.tokens ≡ false
      → IsFilled rl
      → IsFilled (record rl { per_ip_limiters = put ip b rl.per_ip_limiters })
  store-IsFilled rl ip b low h = record {
    global = h.global;
    each_ip = λ j c e. elim (Bool-cases (ip == j)) [
      | inl same ↦ let here : b ≡ c = cc (rw (get-put, same) at e) in rw (← here) low
      | inr other ↦ h.each_ip j c (rw (get-put, other) at e)
    ];
  }

  take_ip-IsFilled :
      (rl : RateLimiter fl) (ip : String) (b : IpRateLimiter fl)
      → lt (ip_cap fl rl) b.tokens ≡ false
      → IsFilled rl
      → IsFilled (take_ip fl rl ip b).0
  take_ip-IsFilled rl ip b low h = elim (Bool-cases (le (of_nat 1) b.tokens)) [
    | inl enough ↦ rw enough (
        store-IsFilled rl ip _ (sub_below b.tokens (of_nat 1) (ip_cap fl rl) low zero_le_one enough)
          h)
    | inr short ↦ rw short (store-IsFilled rl ip b low h)
  ]

  kept-some :
      (p : IpRateLimiter fl → Bool) (o : Option (IpRateLimiter fl)) (b : IpRateLimiter fl)
      → kept p o ≡ some b
      → o ≡ some b
  kept-some p none b e = e
  kept-some p (some c) b e = elim (Bool-cases (p c)) [
    | inl y ↦ rw y at e
    | inr n ↦ absurd (let f = rw n at e in cc f)
  ]

  step-IsFilled : (rl : RateLimiter fl) (c : Call) → IsProper c → IsFilled rl → IsFilled (step rl c)
  unfolding step allow allow_n allow_ip cleanup
  step-IsFilled rl (allow_call now) p h =
      take_tokens-IsFilled (refill fl rl now) (of_nat 1) zero_le_one (refill-IsFilled rl now h)
  step-IsFilled rl (allow_n_call n now) p h =
      take_tokens-IsFilled (refill fl rl now) n p (refill-IsFilled rl now h)
  step-IsFilled rl (allow_ip_call ip created since now) p h =
      take_ip-IsFilled rl ip
        (refill_ip fl rl (ip_bucket fl rl (get ip rl.per_ip_limiters) created) since now)
        (not-lt-capped (ip_cap fl rl) _) h
  step-IsFilled rl (sweep now) p h = record {
    global = h.global;
    each_ip =
        λ ip b e. h.each_ip ip b (kept-some _ (get ip rl.per_ip_limiters) b (rw get-keep at e));
  }

  run_from-IsFilled :
      (cs : List Call) (rl : RateLimiter fl) → All IsProper cs → IsFilled rl → IsFilled (run rl cs)
  unfolding run
  run_from-IsFilled [] rl p h = h
  run_from-IsFilled (c ∷ cs) rl p h =
      run_from-IsFilled cs (step rl c) p.1 (step-IsFilled rl c p.0 h)

  new-IsFilled : (max rate : F) (now : Time) → IsFilled (new_rate_limiter fl max rate now)
  unfolding new_rate_limiter get
  new-IsFilled max rate now = record { global = lt_irrefl max; each_ip = λ ip b e. absurd (cc) }

  -- From a new limiter, over any sequence of requests, at any times, and of sweeps, no bucket is
  -- above its capacity, the global one or an IP's, if no amount asked for is negative.
  pub run-IsFilled :
      (max rate : F) (start : Time) (cs : List Call)
      → All IsProper cs
      → IsFilled (run (new_rate_limiter fl max rate start) cs)
  run-IsFilled max rate start cs p =
      run_from-IsFilled cs (new_rate_limiter fl max rate start) p (new-IsFilled max rate start)

  -- A request of one IP leaves the buckets of the other IPs and the global bucket alone.
  allow_ip_other :
      (rl : RateLimiter fl) (ip j : String) (created since now : Time)
      → ip ≢ j
      → (get j (allow_ip fl rl ip created since now).0.per_ip_limiters ≡ get j rl.per_ip_limiters)
        × ((allow_ip fl rl ip created since now).0.tokens ≡ rl.tokens)
  unfolding allow_ip
  allow_ip_other rl ip j created since now ne =
      take_ip_other
        (refill_ip fl rl (ip_bucket fl rl (get ip rl.per_ip_limiters) created) since now)
    where
      take_ip_other :
          (b : IpRateLimiter fl)
          → (get j (take_ip fl rl ip b).0.per_ip_limiters ≡ get j rl.per_ip_limiters)
            × ((take_ip fl rl ip b).0.tokens ≡ rl.tokens)
      take_ip_other b = elim (Bool-cases (le (of_nat 1) b.tokens)) [
        | inl enough ↦ rw enough (get-put_other ip j _ rl.per_ip_limiters ne, refl)
        | inr short ↦ rw short (get-put_other ip j _ rl.per_ip_limiters ne, refl)
      ]
