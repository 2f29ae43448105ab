-- ===== src/Auth/ZeroRtt/Keys.antt =====
-- server/webbou/auth.go, `ZeroRTTManager`: when a key is accepted, and when it may carry early data.
use web_bou.Prelude.{
  string_eq, ◌≡◌, ◌≤◌, ◌↔◌, refl, ap, true, false, Option, none, some, [], ◌∷◌, String, length,
  arith,
}
use web_bou.Prelude.Maps.{get, put, get-put_self}
use web_bou.Prelude.Clock.{Time}
use web_bou.Encoding.{Bytes}
use web_bou.Auth.ZeroRtt.{
  ZeroRttSession, Manager, validate_psk, check_psk, psk_equal, is_available, get_early_secret,
}

-- The loop decides equality of keys of one length.
psk_equal_iff : (xs ys : Bytes) → length xs ≡ length ys → (psk_equal xs ys ≡ true) ↔ (xs ≡ ys)
unfolding psk_equal
psk_equal_iff [] [] e = (λ _. refl, λ _. refl)
psk_equal_iff [] (y ∷ ys) e = absurd (omega arith)
psk_equal_iff (x ∷ xs) [] e = absurd (omega arith)
psk_equal_iff (x ∷ xs) (y ∷ ys) e =
    let (to, from) = psk_equal_iff xs ys (omega arith) in
    (λ h. ground (arith, to, h), λ h. ground (arith, from, h))

-- What a stored session must meet for a key to be accepted.
abbrev Accepts : Option ZeroRttSession → Bytes → Time → Type 0
Accepts none psk now = ⊥
Accepts (some s) psk now = (now ≤ s.expires_at) × (psk ≡ s.psk)

check_psk_iff :
    (m : Manager) (id : String) (psk : Bytes) (now : Time) (o : Option ZeroRttSession)
    → ((check_psk m id psk now o).1 ≡ true) ↔ Accepts o psk now
check_psk_iff m id psk now none = (λ h. absurd (cc), λ h. absurd h)
check_psk_iff m id psk now (some s) = (
  λ h.
      let fresh : now ≤ s.expires_at = ground (arith, h) in
      let same_length : length psk ≡ length s.psk = ground (arith, h) in
      let equal : psk_equal psk s.psk ≡ true = ground (arith, h) in
      (fresh, (psk_equal_iff psk s.psk same_length).0 equal),
  λ h.
      let same = h.1 in
      let equal : psk_equal psk s.psk ≡ true =
        (psk_equal_iff psk s.psk (ap (λ p. length p) same)).1 same in
      ground (arith, h.0, ap (λ (p : Bytes). length p) same, equal),
)

-- `ValidatePSK` accepts a key exactly if the identity has a session that has not expired and whose
-- key is that one, byte for byte.
validate_psk_iff :
    (m : Manager) (id : String) (psk : Bytes) (now : Time)
    → ((validate_psk m id psk now).1 ≡ true) ↔ Accepts (get id m) psk now
unfolding validate_psk
validate_psk_iff m id psk now = check_psk_iff m id psk now (get id m)

check_psk_stores :
    (m : Manager) (id : String) (psk : Bytes) (now : Time) (s : ZeroRttSession)
    → (check_psk m id psk now (some s)).1 ≡ true
    → (check_psk m id psk now (some s)).0 ≡ put id (record s { used = true; resumed = true }) m
check_psk_stores m id psk now s h = ground (arith, h)

-- A key that was accepted is accepted again until it expires: `ValidatePSK` marks the session used,
-- so that `IsAvailable` denies it and `GetEarlySecret` reports it as spent, but it does not look at
-- the mark itself.
validate_psk_again :
    (m : Manager) (id : String) (psk : Bytes) (first second : Time) (s : ZeroRttSession)
    → get id m ≡ some s
    → (validate_psk m id psk first).1 ≡ true
    → second ≤ s.expires_at
    → let m' = (validate_psk m id psk first).0 in
      ((validate_psk m' id psk second).1 ≡ true)
      × (is_available m' id second ≡ false)
      × (get_early_secret m' id second ≡ (s.early_secret, false))
unfolding validate_psk is_available get_early_secret
validate_psk_again m id psk first second s found accepted fresh =
    let spent : ZeroRttSession = record s { used = true; resumed = true } in
    let ok : (check_psk m id psk first (some s)).1 ≡ true = rw found at accepted in
    let stored : (check_psk m id psk first (get id m)).0 ≡ put id spent m =
      rw found (check_psk_stores m id psk first s ok) in
    let now_there = get-put_self id spent m in
    let same_key : psk ≡ s.psk = ((check_psk_iff m id psk first (some s)).0 ok).1 in
    rw (stored, now_there)
      (
        (check_psk_iff (put id spent m) id psk second (some spent)).1 (fresh, same_key),
        rw (now_there, is_available),
        rw (now_there, get_early_secret) (ground (arith, fresh)),
      )
