-- ===== src/Auth/ZeroRtt/Concurrent.antt =====
-- server/webbou/auth.go, `ZeroRTTManager` under many goroutines: `CreatePSK` tests the number of keys
-- without the lock, then takes the lock for `cleanupOldest`, and again to store the key. Other calls of
-- other goroutines get in between; each of them is one step.
use web_bou.Prelude.{
  string_eq, ℕ, suc, ◌+◌, ◌≤◌, ◌<◌, ◌≡◌, ◌≢◌, refl, ◌∙◌, true, false, not, none, [], ◌∷◌, String,
  leb, ltb, length, arith, some,
}
use web_bou.Prelude.Maps.{get, put, length-put_le, length-put_new, get-put_other}
use web_bou.Prelude.Clock.{Time}
use web_bou.Encoding.{Bytes}
use web_bou.Auth.ZeroRtt.{
  ZeroRttSession, Manager, new_session, mark_used, delete_psk, cleanup_oldest, oldest_from,
  cleanup_expired, max_zero_rtt_sessions,
}
use web_bou.Auth.ZeroRtt.Capacity.{IsDated, cleanup_oldest_lt}
use web_bou.Auth.ZeroRtt.Dated.{
  put-IsDated, cleanup_oldest-IsDated, Shrinks, delete-Shrinks, keep-Shrinks, rewrite-Shrinks,
  mark_used-Shrinks,
}

-- The goroutines inside `CreatePSK`: those that have found the map full and are about to remove the
-- oldest key, and those that are about to store their own.
pub record System : Type 0 where
  pub sessions : Manager
  pub evicting : ℕ
  pub storing : ℕ

-- At most `goroutines` are inside `CreatePSK` at once.
pub data Step (sha256 : Bytes → Bytes) (goroutines : ℕ) (s : System) : System → Type 0 where
  found_full :
      s.evicting + s.storing < goroutines
      → leb max_zero_rtt_sessions (length s.sessions) ≡ true
      → Step sha256 goroutines s (record s { evicting = suc s.evicting })
  found_room :
      s.evicting + s.storing < goroutines
      → leb max_zero_rtt_sessions (length s.sessions) ≡ false
      → Step sha256 goroutines s (record s { storing = suc s.storing })
  evict :
      (others : ℕ)
      → s.evicting ≡ suc others
      → Step sha256 goroutines s (record {
        sessions = cleanup_oldest s.sessions;
        evicting = others;
        storing = suc s.storing;
      })
  -- `rand.Read` fails.
  give_up :
      (others : ℕ)
      → s.storing ≡ suc others
      → Step sha256 goroutines s (record s { storing = others })
  store :
      (others : ℕ) (identity : String) (secret : Bytes) (now : Time) (psk : Bytes)
      → s.storing ≡ suc others
      → Step sha256 goroutines s (record s {
        sessions = put identity (new_session sha256 identity secret now psk) s.sessions;
        storing = others;
      })
  -- `ValidatePSK` looks the key up under one lock; what it does with an expired key it does under
  -- another, and it marks a key that it accepts under none.
  validate_expired :
      (identity : String)
      → Step sha256 goroutines s (record s { sessions = delete_psk s.sessions identity })
  validate_accepted :
      (identity : String) (session : ZeroRttSession)
      → get identity s.sessions ≡ some session
      → Step sha256 goroutines s (record s {
        sessions = put identity (record session { used = true; resumed = true }) s.sessions;
      })
  mark :
      (identity : String)
      → Step sha256 goroutines s (record s { sessions = mark_used s.sessions identity })
  remove :
      (identity : String)
      → Step sha256 goroutines s (record s { sessions = delete_psk s.sessions identity })
  sweep :
      (now : Time)
      → Step sha256 goroutines s (record s { sessions = cleanup_expired s.sessions now })

pub data Reach (sha256 : Bytes → Bytes) (goroutines : ℕ) (s : System) : System → Type 0 where
  here : Reach sha256 goroutines s s
  next :
      {t u : System}
      → Reach sha256 goroutines s t
      → Step sha256 goroutines t u
      → Reach sha256 goroutines s u

abbrev pub new_system : System
new_system = record { sessions = []; evicting = 0; storing = 0 }

module _ {sha256 : Bytes → Bytes} {goroutines : ℕ} where
  -- A key that is stored has a name, and the clock is past the zero time.
  abbrev pub StoresNamed : {s t : System} → Step sha256 goroutines s t → Type 0
  StoresNamed (store others identity secret now psk e) = (identity ≢ "") × (0 < now)
  StoresNamed _ = Unit

  -- Every key that the run stores.
  abbrev pub AllNamed : {s t : System} → Reach sha256 goroutines s t → Type 0
  AllNamed here = Unit
  AllNamed (next r st) = AllNamed r × StoresNamed st

-- Counting each goroutine that is about to store, there are less than the limit and one for each
-- goroutine.
record IsBounded (goroutines : ℕ) (s : System) : Type 0 where
  inside : s.evicting + s.storing ≤ goroutines
  within : length s.sessions + s.storing < max_zero_rtt_sessions + goroutines
  dated : IsDated s.sessions

shrink :
    {goroutines : ℕ} (s : System) (after : Manager)
    → IsBounded goroutines s
    → Shrinks s.sessions after
    → IsBounded goroutines (record s { sessions = after })
shrink s after b h = record {
  inside = b.inside;
  within = omega (arith, b.within, h.no_more);
  dated = h.dated;
}

-- Removing the oldest key makes room for one goroutine, also where there is none.
length-cleanup_oldest :
    (m : Manager) (n goroutines : ℕ)
    → IsDated m
    → length m + n < max_zero_rtt_sessions + goroutines
    → suc n ≤ goroutines
    → length (cleanup_oldest m) + suc n < max_zero_rtt_sessions + goroutines
length-cleanup_oldest [] n goroutines d h k = unfold cleanup_oldest oldest_from in omega arith
length-cleanup_oldest (e ∷ m) n goroutines d h k =
    omega (arith, h, cleanup_oldest_lt (e ∷ m) d (omega arith))

module _ {sha256 : Bytes → Bytes} {goroutines : ℕ} where
  Step-IsBounded :
      {s t : System} (st : Step sha256 goroutines s t)
      → StoresNamed st
      → IsBounded goroutines s
      → IsBounded goroutines t
  unfolding delete_psk cleanup_expired
  Step-IsBounded {s} (found_full free full) named b = record {
    inside = omega (arith, free);
    within = b.within;
    dated = b.dated;
  }
  Step-IsBounded {s} (found_room free room) named b =
      let few : length s.sessions < 1000 = ground (arith, room) in
      record { inside = omega (arith, free); within = omega (arith, few, free); dated = b.dated }
  Step-IsBounded {s} (evict others e) named b = record {
    inside = omega (arith, e, b.inside);
    within =
        length-cleanup_oldest s.sessions s.storing goroutines b.dated b.within
          (omega (arith, e, b.inside));
    dated = cleanup_oldest-IsDated s.sessions b.dated;
  }
  Step-IsBounded {s} (give_up others e) named b = record {
    inside = omega (arith, e, b.inside);
    within = omega (arith, e, b.within);
    dated = b.dated;
  }
  Step-IsBounded {s} (store others identity secret now psk e) (named, late) b =
      let session = new_session sha256 identity secret now psk in
      record {
        inside = omega (arith, e, b.inside);
        within = omega (arith, e, b.within, length-put_le identity session s.sessions);
        dated = put-IsDated identity session s.sessions named late b.dated;
      }
  Step-IsBounded {s} (validate_expired identity) named b =
      shrink s _ b (delete-Shrinks identity s.sessions b.dated)
  Step-IsBounded {s} (validate_accepted identity session e) named b =
      shrink s _ b (rewrite-Shrinks identity _ session s.sessions e refl b.dated)
  Step-IsBounded {s} (mark identity) named b =
      shrink s _ b (mark_used-Shrinks s.sessions identity b.dated)
  Step-IsBounded {s} (remove identity) named b =
      shrink s _ b (delete-Shrinks identity s.sessions b.dated)
  Step-IsBounded {s} (sweep now) named b =
      shrink s _ b (keep-Shrinks (λ k. not (ltb k.expires_at now)) s.sessions b.dated)

-- However the calls of the goroutines interleave, from a new manager on: if no key is created under the
-- empty identity, the clock is past the zero time and at most n goroutines are inside `CreatePSK` at
-- once, less than `MaxZeroRTTSessions` + n keys are stored; with one goroutine it is the limit.
pub Reach-length :
    {sha256 : Bytes → Bytes} (goroutines : ℕ) {s : System}
    (r : Reach sha256 goroutines new_system s)
    → AllNamed r
    → length s.sessions < max_zero_rtt_sessions + goroutines
Reach-length {sha256} goroutines {s} r named = let b = bounded r named in omega (arith, b.within)
  where
    bounded :
        {s : System} (r : Reach sha256 goroutines new_system s)
        → AllNamed r
        → IsBounded goroutines s
    bounded here named = record { inside = omega arith; within = omega arith; dated = tt }
    bounded (next r st) (before, named) = Step-IsBounded st named (bounded r before)

-- Two goroutines are enough to exceed the limit: both find room for one key, and both store one.
race_exceeds :
    (sha256 : Bytes → Bytes) (m : Manager) (a b : String)
    → length m ≡ 999
    → get a m ≡ none
    → get b m ≡ none
    → a ≢ b
    → (s : System) × Reach sha256 2 (record { sessions = m; evicting = 0; storing = 0 }) s
      × (length s.sessions ≡ max_zero_rtt_sessions + 1)
race_exceeds sha256 m a b size new_a new_b apart =
    let room : leb max_zero_rtt_sessions (length m) ≡ false = ground (arith, size) in
    let first = put a (new_session sha256 a [] 1 []) m in
    let both = next (next here (found_room (omega arith) room)) (found_room (omega arith) room) in
    let one = next both (store 1 a [] 1 [] refl) in
    let two = next one (store 0 b [] 1 [] refl) in
    (
      _,
      two,
      omega (
        arith,
        size,
        length-put_new a (new_session sha256 a [] 1 []) m new_a,
        length-put_new b (new_session sha256 b [] 1 []) first
            (get-put_other a b (new_session sha256 a [] 1 []) m apart ∙ new_b),
      ),
    )
