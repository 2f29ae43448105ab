-- ===== src/Auth/ZeroRtt/Traces.antt =====
-- server/webbou/auth.go, `ZeroRTTManager`: what holds over any sequence of calls.
use web_bou.Prelude.{
  string_eq, ◌≢◌, ◌≤◌, ◌<◌, refl, not, Option, none, some, List, [], ◌∷◌, String, ltb, leb, All,
  length, arith, if◌then◌else◌, Bool-cases, inl, inr,
}
use web_bou.Prelude.Maps.{get, length-put_le}
use web_bou.Prelude.Clock.{Time}
use web_bou.Encoding.{Bytes}
use web_bou.Auth.ZeroRtt.{
  Manager, create_psk, store_psk, new_session, validate_psk, cleanup_oldest, mark_used, delete_psk,
  cleanup_expired, max_zero_rtt_sessions, new_zero_rtt_manager,
}
use web_bou.Auth.ZeroRtt.Capacity.{IsDated, cleanup_oldest_lt}
use web_bou.Auth.ZeroRtt.Dated.{
  put-IsDated, cleanup_oldest-IsDated, Shrinks, delete-Shrinks, keep-Shrinks, check_psk-Shrinks,
  mark_used-Shrinks,
}

-- A call of a method that changes the manager, and the tick of the sweep.
pub data Call : Type 0 where
  create : String → Bytes → Option Bytes → Time → Call
  validate : String → Bytes → Time → Call
  mark : String → Call
  remove : String → Call
  sweep : Time → Call

-- Keys are created under identities that are not empty, and the clock has passed the zero time.
abbrev IsProper : Call → Type 0
IsProper (create identity secret psk now) = (identity ≢ "") × (0 < now)
IsProper _ = Unit

-- The stored keys are within the limit, and are properly named and dated.
record IsBounded (m : Manager) : Type 0 where
  pub within : length m ≤ max_zero_rtt_sessions
  pub dated : IsDated m

-- What `CreatePSK` stores a key into: there is room for one more.
record HasRoom (m : Manager) : Type 0 where
  room : length m < max_zero_rtt_sessions
  proper : IsDated m

make_room :
    (m : Manager)
    → IsBounded m
    → HasRoom (if leb max_zero_rtt_sessions (length m) then cleanup_oldest m else m)
make_room m b = elim (Bool-cases (leb max_zero_rtt_sessions (length m))) [
  | inl full ↦
      let many : 1000 ≤ length m = ground arith in
      rw full (record {
        room = omega (arith, cleanup_oldest_lt m b.dated (omega arith), b.within);
        proper = cleanup_oldest-IsDated m b.dated;
      })
  | inr free ↦ rw free (record { room = ground arith; proper = b.dated })
]

store_psk-IsBounded :
    (sha256 : Bytes → Bytes) (m : Manager) (id : String) (secret : Bytes) (now : Time)
    (psk : Option Bytes)
    → id ≢ ""
    → 0 < now
    → HasRoom m
    → IsBounded (store_psk sha256 m id secret now psk).0
store_psk-IsBounded sha256 m id secret now none n z r = record {
  within = omega (arith, r.room);
  dated = r.proper;
}
store_psk-IsBounded sha256 m id secret now (some psk) n z r =
    let s = new_session sha256 id secret now psk in
    record {
      within = omega (arith, r.room, length-put_le id s m);
      dated = put-IsDated id s m n z r.proper;
    }

module _ (sha256 : Bytes → Bytes) where
  unfoldable pub step : Manager → Call → Manager
  step m (create identity secret psk now) = (create_psk sha256 m identity secret psk now).0
  step m (validate identity psk now) = (validate_psk m identity psk now).0
  step m (mark identity) = mark_used m identity
  step m (remove identity) = delete_psk m identity
  step m (sweep now) = cleanup_expired m now

  unfoldable pub run : Manager → List Call → Manager
  unfolding step
  run m [] = m
  run m (c ∷ cs) = run (step m c) cs

  shrink-IsBounded : (m after : Manager) → IsBounded m → Shrinks m after → IsBounded after
  shrink-IsBounded m after b s = record {
    within = omega (arith, b.within, s.no_more);
    dated = s.dated;
  }

  step-IsBounded : (m : Manager) (c : Call) → IsProper c → IsBounded m → IsBounded (step m c)
  unfolding step create_psk validate_psk delete_psk cleanup_expired
  step-IsBounded m (create id secret psk now) p b =
      store_psk-IsBounded sha256 _ id secret now psk p.0 p.1 (make_room m b)
  step-IsBounded m (validate id psk now) p b =
      shrink-IsBounded m _ b (check_psk-Shrinks m id psk now (get id m) refl b.dated)
  step-IsBounded m (mark id) p b = shrink-IsBounded m _ b (mark_used-Shrinks m id b.dated)
  step-IsBounded m (remove id) p b = shrink-IsBounded m _ b (delete-Shrinks id m b.dated)
  step-IsBounded m (sweep now) p b =
      shrink-IsBounded m _ b (keep-Shrinks (λ s. not (ltb s.expires_at now)) m b.dated)

  run_from-IsBounded :
      (cs : List Call) (m : Manager) → All IsProper cs → IsBounded m → IsBounded (run m cs)
  unfolding run
  run_from-IsBounded [] m h b = b
  run_from-IsBounded (c ∷ cs) m h b =
      run_from-IsBounded cs (step m c) h.1 (step-IsBounded m c h.0 b)

  -- From a new manager, over any sequence of calls and sweeps, at most `MaxZeroRTTSessions` keys are
  -- stored, if the identities are not empty and the clock has passed the zero time.
  pub run_within :
      (cs : List Call)
      → All IsProper cs
      → length (run new_zero_rtt_manager cs) ≤ max_zero_rtt_sessions
  unfolding new_zero_rtt_manager
  run_within cs h =
      (run_from-IsBounded cs [] h (record { within = omega arith; dated = tt })).within
