-- ===== src/Security/Windows.antt =====
-- server/security.go, `RateLimiter`: how many requests of a client are granted in a span of time that is
-- no longer than the window.
use web_bou.Prelude.{
  string_eq, ℕ, ◌+◌, ◌*◌, ◌≤◌, min, ◌≡◌, refl, ◌∙◌, Bool-cases, inl, inr, Bool, true, false, Option,
  none, List, [], ◌∷◌, All, String, if◌then◌else◌, arith, ◌==◌,
}
use web_bou.Prelude.Maps.{get}
use web_bou.Prelude.Clock.{Time, Duration}
use web_bou.Security.{RequestCounter, RateLimiter, allow}
use web_bou.Security.Counters.{
  one_if, judged, allow-configuration, allow-same, allow-other, budget, budget_le, judged-budget,
  IsOpen, room, judged-room,
}

-- Requests of clients, oldest first.
abbrev pub Requests : Type 0
Requests = List (String × Time)

-- The requests of one client, and those of them that are granted.
abbrev pub asked : String → Requests → ℕ
asked client [] = 0
asked client ((client_id, now) ∷ cs) = one_if (client_id == client) + asked client cs

abbrev pub granted : String → RateLimiter → Requests → ℕ
granted client rl [] = 0
granted client rl ((client_id, now) ∷ cs) =
    let (allowed, after) = allow rl client_id now in
    (if client_id == client then one_if allowed else 0) + granted client after cs

-- The requests of a span of time.
abbrev IsWithin : Time → Time → String × Time → Type 0
IsWithin start end (client_id, now) = (start ≤ now) × (now ≤ end)

-- What a client would be granted if it were alone, from its counter.
module _ (max_requests : ℕ) (window : Duration) (client : String) where
  abbrev alone : Option RequestCounter → Requests → ℕ
  alone o [] = 0
  alone o ((client_id, now) ∷ cs) =
      let (allowed, after) = judged max_requests window o now in
      let granted_now = one_if allowed + alone after cs in
      let passed_over = alone o cs in if client_id == client then granted_now else passed_over

  alone_le-budget :
      (start end : Time) (cs : Requests) (o : Option RequestCounter)
      → 1 ≤ max_requests
      → end ≤ start + window
      → All (IsWithin start end) cs
      → alone o cs ≤ budget max_requests end o
  alone_le-budget start end [] o m w h = omega arith
  alone_le-budget start end ((client_id, now) ∷ cs) o m w ((l, r), h) =
      let after = (judged max_requests window o now).1 in
      let own = alone_le-budget start end cs after m w h in
      let other = alone_le-budget start end cs o m w h in
      let step = judged-budget max_requests window o start now end m w l r in
      elim (client_id == client)
        as (λ (b : Bool).
          (if b then one_if (judged max_requests window o now).0 + alone after cs else alone o cs)
          ≤ budget max_requests end o) [ true ↦ omega arith | false ↦ other ]

  granted-alone :
      (cs : Requests) (rl : RateLimiter)
      → rl.max_requests ≡ max_requests
      → rl.window ≡ window
      → granted client rl cs ≡ alone (get client rl.requests) cs
  granted-alone [] rl m w = refl
  granted-alone ((client_id, now) ∷ cs) rl m w =
      let after = (allow rl client_id now).1 in
      let (same_max, same_window) = allow-configuration rl client_id now in
      let rest = granted-alone cs after (same_max ∙ m) (same_window ∙ w) in
      elim (Bool-cases (client_id == client)) [
        | inl e ↦
            (let (answer, entry) =
                allow-same rl client_id client now ((string_eq.beq_iff client_id client).0 e) in
              rw (e, rest, answer, entry, m, w))
        | inr n ↦
            (rw
              (
                n,
                rest,
                allow-other rl client_id client now
                    (λ e. let t = (string_eq.beq_iff client_id client).1 e in cc),
              )
              (omega arith))
      ]

-- In any state, of the requests within a span of time no longer than the window at most twice the limit
-- are granted to a client, where the limit is not 0: one window may end and one begin in the span.
granted_le :
    (client : String) (start end : Time) (cs : Requests) (rl : RateLimiter)
    → 1 ≤ rl.max_requests
    → end ≤ start + rl.window
    → All (IsWithin start end) cs
    → granted client rl cs ≤ 2 * rl.max_requests
granted_le client start end cs rl m w h =
    let e = granted-alone rl.max_requests rl.window client cs rl refl refl in
    let b =
      alone_le-budget rl.max_requests rl.window client start end cs (get client rl.requests) m w
        h in
    let c = budget_le rl.max_requests end (get client rl.requests) in omega arith

alone-asked :
    (max_requests : ℕ) (window : Duration) (client : String) (start end : Time) (cs : Requests)
    (o : Option RequestCounter)
    → 1 ≤ max_requests
    → end ≤ start + window
    → All (IsWithin start end) cs
    → IsOpen end o
    → alone max_requests window client o cs ≡ min (asked client cs) (room max_requests o)
alone-asked max_requests window client start end [] o m w h i = omega arith
alone-asked max_requests window client start end ((client_id, now) ∷ cs) o m w ((l, r), h) i =
    let after = (judged max_requests window o now).1 in
    let (opened, step) =
      judged-room max_requests window o start now end (asked client cs) m w l r i in
    let own = alone-asked max_requests window client start end cs after m w h opened in
    let other = alone-asked max_requests window client start end cs o m w h i in
    elim (client_id == client)
      as (λ (b : Bool).
        (if b
          then one_if (judged max_requests window o now).0
            + alone max_requests window client after cs
          else alone max_requests window client o cs)
        ≡ min (one_if b + asked client cs) (room max_requests o)) [
          | true ↦ omega arith
          | false ↦ omega arith
        ]

-- A client that has no counter yet is granted, of its requests within a span of time no longer than the
-- window, exactly the first ones up to the limit, whatever the other clients ask in between.
pub granted-asked :
    (client : String) (start end : Time) (cs : Requests) (rl : RateLimiter)
    → 1 ≤ rl.max_requests
    → end ≤ start + rl.window
    → All (IsWithin start end) cs
    → get client rl.requests ≡ none
    → granted client rl cs ≡ min (asked client cs) rl.max_requests
granted-asked client start end cs rl m w h e =
    granted-alone rl.max_requests rl.window client cs rl refl refl
    ∙ (rw (e) (alone-asked rl.max_requests rl.window client start end cs none m w h tt))
