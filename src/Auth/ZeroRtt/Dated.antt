-- ===== src/Auth/ZeroRtt/Dated.antt =====
-- server/webbou/auth.go, `ZeroRTTManager`: what the calls make of the number of keys, and of their names
-- and times.
use web_bou.Prelude.{
  string_eq, ◌≡◌, ◌≢◌, ◌≤◌, ◌<◌, refl, Bool, true, ◌∙◌, Option-cases, eqb, Option, none, some, [],
  ◌∷◌, String, ltb, length, arith, Bool-cases, inl, inr, ◌==◌,
}
use text.Mathlib.TextEquality.{eq_iff}
use web_bou.Prelude.Maps.{get, put, delete, keep, length-delete_le}
use web_bou.Prelude.Clock.{Time}
use web_bou.Encoding.{Bytes}
use web_bou.Auth.ZeroRtt.{
  ZeroRttSession, Manager, psk_equal, oldest_from, check_psk, cleanup_oldest, mark_used,
}
use web_bou.Auth.ZeroRtt.Capacity.{IsDated, cleanup_oldest_lem}

pub put-IsDated :
    (id : String) (s : ZeroRttSession) (m : Manager)
    → id ≢ ""
    → 0 < s.created_at
    → IsDated m
    → IsDated (put id s m)
unfolding put
put-IsDated id s [] n z d = (n, z, tt)
put-IsDated id s ((j, t) ∷ m) n z d = elim (Bool-cases (j == id)) [
  | inl e ↦ rw (e, put) (n, z, d.2)
  | inr e ↦ rw (e, put) (d.0, d.1, put-IsDated id s m n z d.2)
]

delete-IsDated : (id : String) (m : Manager) → IsDated m → IsDated (delete id m)
unfolding delete
delete-IsDated id [] d = tt
delete-IsDated id ((j, t) ∷ m) d = elim (Bool-cases (j == id)) [
  | inl e ↦ rw (e, delete) (delete-IsDated id m d.2)
  | inr e ↦ rw (e, delete) (d.0, d.1, delete-IsDated id m d.2)
]

keep-IsDated : (p : ZeroRttSession → Bool) (m : Manager) → IsDated m → IsDated (keep p m)
unfolding keep
keep-IsDated p [] d = tt
keep-IsDated p ((j, t) ∷ m) d = elim (Bool-cases (p t)) [
  | inl e ↦ rw (e, keep) (d.0, d.1, delete-IsDated j (keep p m) (keep-IsDated p m d.2))
  | inr e ↦ rw (e, keep) (delete-IsDated j (keep p m) (keep-IsDated p m d.2))
]

length-keep_le : (p : ZeroRttSession → Bool) (m : Manager) → length (keep p m) ≤ length m
unfolding keep
length-keep_le p [] = omega arith
length-keep_le p ((j, t) ∷ m) = ground (arith, length-keep_le p m, length-delete_le j (keep p m))

-- A rewrite in place: the entry exists, so the map does not grow.
length-put_found :
    (id : String) (s t : ZeroRttSession) (m : Manager)
    → get id m ≡ some t
    → length (put id s m) ≡ length m
unfolding get put
length-put_found id s t [] e = absurd (cc)
length-put_found id s t ((j, u) ∷ m) e = elim (Bool-cases (j == id)) [
  | inl same ↦ rw (same, put)
  | inr other ↦ rw (other, put) (omega (arith, length-put_found id s t m (rw (other, get) at e)))
]

-- Every stored session was created after the zero time.
get-dated :
    (id : String) (s : ZeroRttSession) (m : Manager)
    → IsDated m
    → get id m ≡ some s
    → (id ≢ "") × (0 < s.created_at)
unfolding get
get-dated id s [] d e = absurd (cc)
get-dated id s ((j, t) ∷ m) d e = elim (Bool-cases (j == id)) [
  | inl same ↦
      let here : t ≡ s = cc (rw same at e) in
      ((λ n. d.0 ((eq_iff j id).0 same ∙ n)), rw (← here) d.1)
  | inr other ↦ get-dated id s m d.2 (rw other at e)
]

pub cleanup_oldest-IsDated : (m : Manager) → IsDated m → IsDated (cleanup_oldest m)
cleanup_oldest-IsDated m d = elim (cleanup_oldest_lem m d) [
  | inl empty ↦ rw empty (unfold cleanup_oldest oldest_from in tt)
  | inr (id, t, entry, none_older, e) ↦ rw e (delete-IsDated id m d)
]

-- A call that stores no new key: there are no more than before, still properly named and dated.
pub record Shrinks (m after : Manager) : Type 0 where
  pub no_more : length after ≤ length m
  pub dated : IsDated after

unchanged : (m : Manager) → IsDated m → Shrinks m m
unchanged m d = record { no_more = omega arith; dated = d }

pub delete-Shrinks : (id : String) (m : Manager) → IsDated m → Shrinks m (delete id m)
delete-Shrinks id m d = record { no_more = length-delete_le id m; dated = delete-IsDated id m d }

pub keep-Shrinks : (p : ZeroRttSession → Bool) (m : Manager) → IsDated m → Shrinks m (keep p m)
keep-Shrinks p m d = record { no_more = length-keep_le p m; dated = keep-IsDated p m d }

-- An entry that is rewritten in place, with its time of creation kept.
pub rewrite-Shrinks :
    (id : String) (s t : ZeroRttSession) (m : Manager)
    → get id m ≡ some t
    → s.created_at ≡ t.created_at
    → IsDated m
    → Shrinks m (put id s m)
rewrite-Shrinks id s t m e same d =
    let (named, late) = get-dated id t m d e in
    record {
      no_more = omega (arith, length-put_found id s t m e);
      dated = put-IsDated id s m named (omega arith) d;
    }

pub check_psk-Shrinks :
    (m : Manager) (id : String) (psk : Bytes) (now : Time) (o : Option ZeroRttSession)
    → get id m ≡ o
    → IsDated m
    → Shrinks m (check_psk m id psk now o).0
check_psk-Shrinks m id psk now none e d = unchanged m d
check_psk-Shrinks m id psk now (some s) e d = elim (Bool-cases (ltb s.expires_at now)) [
  | inl old ↦ rw old (delete-Shrinks id m d)
  | inr fresh ↦ elim (Bool-cases (eqb (length psk) (length s.psk))) [
    | inl sized ↦ elim (Bool-cases (psk_equal psk s.psk)) [
      | inl right ↦ rw (fresh, sized, right) (rewrite-Shrinks id _ s m e refl d)
      | inr wrong ↦ rw (fresh, sized, wrong) (unchanged m d)
    ]
    | inr odd ↦ rw (fresh, odd) (unchanged m d)
  ]
]

pub mark_used-Shrinks : (m : Manager) (id : String) → IsDated m → Shrinks m (mark_used m id)
unfolding mark_used
mark_used-Shrinks m id d = elim (Option-cases (get id m)) [
  | inl missing ↦ rw (missing, mark_used) (unchanged m d)
  | inr (s, e) ↦ rw (e, mark_used) (rewrite-Shrinks id (record s { used = true }) s m e refl d)
]
