-- ===== src/Pool/Reputation.antt =====
-- server/webbou/pool.go, `IPReputationManager`. A score is a whole number, which a float64 holds exactly
-- up to 2 ^ 53; the counts are `int` without their wrap-around. `time.Now()` is an argument.
use web_bou.Prelude.{
  string_eq, ℕ, ◌+◌, ◌≡◌, refl, Bool, true, false, Bool-cases, inl, inr, Option, none, some, String,
  if◌then◌else◌, ◌==◌, List, [], ◌∷◌,
}
use web_bou.Prelude.Int.{ℤ, pos, negsuc, ◌+ℤ◌, ◌-ℤ◌, ltb_ℤ}
use web_bou.Prelude.Maps.{Map, get, put, delete, get-put, get-delete}
use web_bou.Prelude.Clock.{Time}

pub record Reputation : Type 0 where
  pub score : ℤ
  pub bad_requests : ℕ
  pub good_requests : ℕ
  pub last_update : Time

pub record IpReputationManager : Type 0 where
  pub reputations : Map String Reputation
  pub bad_threshold : ℤ

unfoldable pub new_ip_reputation_manager : IpReputationManager
new_ip_reputation_manager = record { reputations = []; bad_threshold = negsuc 9 }

-- The entry of an address, or the new one.
abbrev entry_of : Option Reputation → Time → Reputation
entry_of (some rep) now = rep
entry_of none now = record { score = pos 0; bad_requests = 0; good_requests = 0; last_update = now }

abbrev store : IpReputationManager → String → Reputation → IpReputationManager
store irm ip rep = record irm { reputations = put ip rep irm.reputations }

unfoldable pub record_success : IpReputationManager → String → Time → IpReputationManager
record_success irm ip now =
    let rep = entry_of (get ip irm.reputations) now in
    store irm ip (record rep {
      score = rep.score +ℤ pos 1;
      good_requests = rep.good_requests + 1;
      last_update = now;
    })

unfoldable pub record_failure : IpReputationManager → String → Time → IpReputationManager
record_failure irm ip now =
    let rep = entry_of (get ip irm.reputations) now in
    store irm ip (record rep {
      score = rep.score -ℤ pos 2;
      bad_requests = rep.bad_requests + 1;
      last_update = now;
    })

abbrev score_of : Option Reputation → ℤ
score_of (some rep) = rep.score
score_of none = pos 0

unfoldable pub get_score : IpReputationManager → String → ℤ
get_score irm ip = score_of (get ip irm.reputations)

abbrev below : ℤ → Option Reputation → Bool
below bound (some rep) = ltb_ℤ rep.score bound
below bound none = false

unfoldable pub is_bad : IpReputationManager → String → Bool
is_bad irm ip = below irm.bad_threshold (get ip irm.reputations)

unfoldable pub mark_as_bad : IpReputationManager → String → IpReputationManager
mark_as_bad irm ip =
    store irm ip (record (entry_of (get ip irm.reputations) 0) { score = negsuc 49 })

unfoldable pub reset : IpReputationManager → String → IpReputationManager
reset irm ip = record irm { reputations = delete ip irm.reputations }

-- The calls that change the scores.
pub data Call : Type 0 where
  success : String → Time → Call
  failure : String → Time → Call
  marked : String → Call
  forgotten : String → Call

abbrev call : Call → IpReputationManager → IpReputationManager
call (success ip now) irm = record_success irm ip now
call (failure ip now) irm = record_failure irm ip now
call (marked ip) irm = mark_as_bad irm ip
call (forgotten ip) irm = reset irm ip

-- Newest call first.
abbrev pub run : List Call → IpReputationManager
run [] = new_ip_reputation_manager
run (c ∷ cs) = call c (run cs)

-- What the calls about one address add up to, since the last that sets its score.
abbrev pub expected : String → List Call → ℤ
expected ip [] = pos 0
expected ip (success j now ∷ cs) = let e = expected ip cs in if j == ip then e +ℤ pos 1 else e
expected ip (failure j now ∷ cs) = let e = expected ip cs in if j == ip then e -ℤ pos 2 else e
expected ip (marked j ∷ cs) = let e = expected ip cs in if j == ip then negsuc 49 else e
expected ip (forgotten j ∷ cs) = let e = expected ip cs in if j == ip then pos 0 else e

score_of-stored :
    (b : Bool) (rep : Reputation) (o : Option Reputation)
    → score_of (if b then some rep else o) ≡ (if b then rep.score else score_of o)
score_of-stored true rep o = refl
score_of-stored false rep o = refl

score_of-removed :
    (b : Bool) (o : Option Reputation)
    → score_of (if b then none else o) ≡ (if b then pos 0 else score_of o)
score_of-removed true o = refl
score_of-removed false o = refl

score_of-entry_of : (o : Option Reputation) (now : Time) → (entry_of o now).score ≡ score_of o
score_of-entry_of none now = refl
score_of-entry_of (some rep) now = refl

-- The score of any address after an entry is stored.
get_score-store :
    (irm : IpReputationManager) (ip j : String) (rep : Reputation)
    → get_score (store irm ip rep) j ≡ (if ip == j then rep.score else get_score irm j)
unfolding get_score
get_score-store irm ip j rep =
    rw (get-put ip j rep irm.reputations, score_of-stored (ip == j) rep (get j irm.reputations))

-- An entry that changes its score by a function of the score, at the address asked about.
store_same :
    (f : ℤ → ℤ) (irm : IpReputationManager) (ip j : String) (now : Time) (rep : Reputation)
    → rep.score ≡ f (entry_of (get ip irm.reputations) now).score
    → get_score (store irm ip rep) j ≡ (if ip == j then f (get_score irm j) else get_score irm j)
unfolding get_score
store_same f irm ip j now rep h =
    let at = get_score-store irm ip j rep in
    let own = score_of-entry_of (get ip irm.reputations) now in
    elim (Bool-cases (ip == j)) [
      | inl e ↦ let same = (string_eq.beq_iff ip j).0 e in rw (at, e, h, own, same)
      | inr n ↦ rw (at, n)
    ]

get_score-record_success :
    (irm : IpReputationManager) (ip j : String) (now : Time)
    → get_score (record_success irm ip now) j
      ≡ (if ip == j then get_score irm j +ℤ pos 1 else get_score irm j)
unfolding record_success
get_score-record_success irm ip j now = store_same (λ z. z +ℤ pos 1) irm ip j now _ refl

get_score-record_failure :
    (irm : IpReputationManager) (ip j : String) (now : Time)
    → get_score (record_failure irm ip now) j
      ≡ (if ip == j then get_score irm j -ℤ pos 2 else get_score irm j)
unfolding record_failure
get_score-record_failure irm ip j now = store_same (λ z. z -ℤ pos 2) irm ip j now _ refl

get_score-mark_as_bad :
    (irm : IpReputationManager) (ip j : String)
    → get_score (mark_as_bad irm ip) j ≡ (if ip == j then negsuc 49 else get_score irm j)
unfolding mark_as_bad
get_score-mark_as_bad irm ip j = get_score-store irm ip j _

get_score-reset :
    (irm : IpReputationManager) (ip j : String)
    → get_score (reset irm ip) j ≡ (if ip == j then pos 0 else get_score irm j)
unfolding reset get_score
get_score-reset irm ip j =
    rw (get-delete ip j irm.reputations, score_of-removed (ip == j) (get j irm.reputations))

get_score-run : (ip : String) (cs : List Call) → get_score (run cs) ip ≡ expected ip cs
unfolding get_score get new_ip_reputation_manager
get_score-run ip [] = refl
get_score-run ip (success j now ∷ cs) =
    rw (get_score-record_success (run cs) j ip now, get_score-run ip cs)
get_score-run ip (failure j now ∷ cs) =
    rw (get_score-record_failure (run cs) j ip now, get_score-run ip cs)
get_score-run ip (marked j ∷ cs) = rw (get_score-mark_as_bad (run cs) j ip, get_score-run ip cs)
get_score-run ip (forgotten j ∷ cs) = rw (get_score-reset (run cs) j ip, get_score-run ip cs)

bad_threshold-run : (cs : List Call) → (run cs).bad_threshold ≡ negsuc 9
unfolding new_ip_reputation_manager record_success record_failure mark_as_bad reset
bad_threshold-run [] = refl
bad_threshold-run (success j now ∷ cs) = bad_threshold-run cs
bad_threshold-run (failure j now ∷ cs) = bad_threshold-run cs
bad_threshold-run (marked j ∷ cs) = bad_threshold-run cs
bad_threshold-run (forgotten j ∷ cs) = bad_threshold-run cs

below-score_of : (o : Option Reputation) → below (negsuc 9) o ≡ ltb_ℤ (score_of o) (negsuc 9)
below-score_of none = refl
below-score_of (some rep) = refl

-- After any calls, an address's score is what its own calls add up to since the last that set it: 1 for
-- a success, -2 for a failure, -50 when it is marked and 0 when it is forgotten or unknown; it is bad
-- exactly if that is below -10.
pub is_bad-run :
    (ip : String) (cs : List Call)
    → (get_score (run cs) ip ≡ expected ip cs)
      × (is_bad (run cs) ip ≡ ltb_ℤ (expected ip cs) (negsuc 9))
unfolding is_bad get_score
is_bad-run ip cs =
    let e = get_score-run ip cs in
    (e, rw (bad_threshold-run cs, below-score_of (get ip (run cs).reputations), e))
