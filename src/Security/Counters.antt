-- ===== src/Security/Counters.antt =====
-- server/security.go, `RateLimiter`: what `Allow` makes of the counter of one client.
use web_bou.Prelude.{
  string_eq, ℕ, suc, ◌+◌, ◌-◌, ◌*◌, ◌≤◌, min, ◌≡◌, ◌≢◌, sym, subst, Bool-cases, inl, inr, Bool,
  true, false, Option, none, some, String, leb, if◌then◌else◌, arith,
}
use web_bou.Prelude.Maps.{get, get-put_self, get-put_other}
use web_bou.Prelude.Clock.{Time, Duration}
use web_bou.Security.{RequestCounter, RateLimiter, is_over, counter_of, allow}

abbrev pub one_if : Bool → ℕ
one_if true = 1
one_if false = 0

-- What `allow` makes of the counter of the client.
abbrev pub judged : ℕ → Duration → Option RequestCounter → Time → Bool × Option RequestCounter
judged max_requests window o now =
    if is_over o now
    then (true, some (record { count = 1; reset_at = now + window }))
    else if leb max_requests (counter_of o).count
    then (false, o)
    else (
      true,
      some (record { count = (counter_of o).count + 1; reset_at = (counter_of o).reset_at }),
    )

pub allow-configuration :
    (rl : RateLimiter) (client_id : String) (now : Time)
    → ((allow rl client_id now).1.max_requests ≡ rl.max_requests)
      × ((allow rl client_id now).1.window ≡ rl.window)
unfolding allow
allow-configuration rl client_id now = ground arith

allow-judged :
    (rl : RateLimiter) (client : String) (now : Time)
    → ((allow rl client now).0 ≡ (judged rl.max_requests rl.window (get client rl.requests) now).0)
      × (get client (allow rl client now).1.requests
          ≡ (judged rl.max_requests rl.window (get client rl.requests) now).1)
unfolding allow
allow-judged rl client now =
    let o = get client rl.requests in
    elim (Bool-cases (is_over o now)) [
      | inl e ↦ (
        rw (e),
        rw (e, get-put_self client (record { count = 1; reset_at = now + rl.window }) rl.requests),
      )
      | inr n ↦ elim (Bool-cases (leb rl.max_requests (counter_of o).count)) [
        | inl f ↦ (rw (n, f), rw (n, f))
        | inr m ↦ (
          rw (n, m),
          rw (
            n,
            m,
            get-put_self client
                (record { count = (counter_of o).count + 1; reset_at = (counter_of o).reset_at })
                rl.requests,
          ),
        )
      ]
    ]

-- The same of a request whose client is known to be this one.
pub allow-same :
    (rl : RateLimiter) (client_id client : String) (now : Time)
    → client_id ≡ client
    → ((allow rl client_id now).0
        ≡ (judged rl.max_requests rl.window (get client rl.requests) now).0)
      × (get client (allow rl client_id now).1.requests
          ≡ (judged rl.max_requests rl.window (get client rl.requests) now).1)
allow-same rl client_id client now e =
    subst
      (λ (c : String).
        ((allow rl c now).0 ≡ (judged rl.max_requests rl.window (get client rl.requests) now).0)
        × (get client (allow rl c now).1.requests
            ≡ (judged rl.max_requests rl.window (get client rl.requests) now).1))
      (sym e) (allow-judged rl client now)

pub allow-other :
    (rl : RateLimiter) (client_id client : String) (now : Time)
    → client_id ≢ client
    → get client (allow rl client_id now).1.requests ≡ get client rl.requests
unfolding allow
allow-other rl client_id client now ne =
    let o = get client_id rl.requests in
    elim (Bool-cases (is_over o now)) [
      | inl e ↦ rw (
        e,
        get-put_other client_id client (record { count = 1; reset_at = now + rl.window })
            rl.requests ne,
      )
      | inr n ↦ elim (Bool-cases (leb rl.max_requests (counter_of o).count)) [
        | inl f ↦ rw (n, f)
        | inr m ↦ rw (
          n,
          m,
          get-put_other client_id client
              (record { count = (counter_of o).count + 1; reset_at = (counter_of o).reset_at })
              rl.requests ne,
        )
      ]
    ]

-- What may still be granted up to a time that is within a window of every request: one more window
-- opens, unless the last one opened late enough.
abbrev pub budget : ℕ → Time → Option RequestCounter → ℕ
budget max_requests end none = max_requests
budget max_requests end (some counter) =
    max_requests - counter.count + (if leb end counter.reset_at then 0 else max_requests)

pub budget_le :
    (max_requests : ℕ) (end : Time) (o : Option RequestCounter)
    → budget max_requests end o ≤ 2 * max_requests
budget_le max_requests end none = omega arith
budget_le max_requests end (some counter) = ground arith

pub judged-budget :
    (max_requests : ℕ) (window : Duration) (o : Option RequestCounter) (start now end : Time)
    → 1 ≤ max_requests
    → end ≤ start + window
    → start ≤ now
    → now ≤ end
    → one_if (judged max_requests window o now).0
        + budget max_requests end (judged max_requests window o now).1
      ≤ budget max_requests end o
judged-budget max_requests window none start now end m w l r = ground arith
judged-budget max_requests window (some counter) start now end m w l r = ground arith

-- A window that lasts to the end of the span, or none yet.
abbrev pub IsOpen : Time → Option RequestCounter → Type 0
IsOpen end none = Unit
IsOpen end (some counter) = end ≤ counter.reset_at

abbrev pub room : ℕ → Option RequestCounter → ℕ
room max_requests none = max_requests
room max_requests (some counter) = max_requests - counter.count

pub judged-room :
    (max_requests : ℕ) (window : Duration) (o : Option RequestCounter) (start now end n : ℕ)
    → 1 ≤ max_requests
    → end ≤ start + window
    → start ≤ now
    → now ≤ end
    → IsOpen end o
    → IsOpen end (judged max_requests window o now).1
      × (one_if (judged max_requests window o now).0
            + min n (room max_requests (judged max_requests window o now).1)
          ≡ min (suc n) (room max_requests o))
judged-room max_requests window none start now end n m w l r i = (ground arith, ground arith)
judged-room max_requests window (some counter) start now end n m w l r i =
    (ground arith, ground arith)
