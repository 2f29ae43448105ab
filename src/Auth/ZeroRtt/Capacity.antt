-- ===== src/Auth/ZeroRtt/Capacity.antt =====
-- server/webbou/auth.go, `ZeroRTTManager`: the number of stored keys is bounded.
use web_bou.Prelude.{
  string_eq, ◌≡◌, ◌≢◌, ◌≤◌, ◌<◌, refl, ap, sym, subst, ◌∙◌, Bool, true, false, [], ◌∷◌, String, ltb,
  eqb, ◌||◌, length, arith, Bool-cases, inl, inr, ◌⊎◌, ◌==◌,
}
use text.Mathlib.TextEquality.{eq_iff}
use web_bou.Prelude.Maps.{delete, length-delete_le, ne_other}
use web_bou.Prelude.Clock.{Time}
use web_bou.Auth.ZeroRtt.{ZeroRttSession, Manager, oldest_from, cleanup_oldest}

-- Every identity is a text that is not empty, and every session was created at a time that is not
-- the zero time.
abbrev pub IsDated : Manager → Type 0
IsDated [] = Unit
IsDated ((id, s) ∷ m) = (id ≢ "") × (0 < s.created_at) × IsDated m

-- An entry with this identity and this time of creation.
pub data Entry (id : String) (t : Time) : Manager → Type 0 where
  here :
      {j : String} {s : ZeroRttSession} {m : Manager}
      → j ≡ id
      → s.created_at ≡ t
      → Entry id t ((j, s) ∷ m)
  there : {j : String} {s : ZeroRttSession} {m : Manager} → Entry id t m → Entry id t ((j, s) ∷ m)

abbrev NoneOlder : Time → Manager → Type 0
NoneOlder t [] = Unit
NoneOlder t ((id, s) ∷ m) = (t ≤ s.created_at) × NoneOlder t m

abbrev is_older : Time → ZeroRttSession → Bool
is_older t s = eqb t 0 || ltb s.created_at t

oldest_from-older :
    (id j : String) (t : Time) (s : ZeroRttSession) (m : Manager)
    → is_older t s ≡ true
    → oldest_from id t ((j, s) ∷ m) ≡ oldest_from j s.created_at m
unfolding oldest_from
oldest_from-older id j t s m e = rw (e, oldest_from)

oldest_from-newer :
    (id j : String) (t : Time) (s : ZeroRttSession) (m : Manager)
    → is_older t s ≡ false
    → oldest_from id t ((j, s) ∷ m) ≡ oldest_from id t m
unfolding oldest_from
oldest_from-newer id j t s m e = rw (e, oldest_from)

-- What the loop finds when it holds an identity and its time already.
record Found (id : String) (t : Time) (m : Manager) (r : String) : Type 0 where
  time : Time
  no_later : time ≤ t
  none_older : NoneOlder time m
  chosen : (r ≡ id) × (time ≡ t) ⊎ Entry r time m

oldest_from-Found :
    (id : String) (t : Time) (m : Manager) → 0 < t → IsDated m → Found id t m (oldest_from id t m)
unfolding oldest_from
oldest_from-Found id t [] z d = record {
  time = t;
  no_later = omega arith;
  none_older = tt;
  chosen = inl (refl, refl);
}
oldest_from-Found id t ((j, s) ∷ m) z d = elim (Bool-cases (is_older t s)) [
  | inl e ↦
      let f = oldest_from-Found j s.created_at m d.1 d.2 in
      subst (Found id t ((j, s) ∷ m)) (sym (oldest_from-older id j t s m e)) (record {
        time = f.time;
        no_later = ground (arith, f.no_later);
        none_older = (f.no_later, f.none_older);
        chosen = elim f.chosen [
          | inl (same_id, same_time) ↦ inr (here (sym same_id) (sym same_time))
          | inr later ↦ inr (there later)
        ];
      })
  | inr e ↦
      let f = oldest_from-Found id t m z d.2 in
      subst (Found id t ((j, s) ∷ m)) (sym (oldest_from-newer id j t s m e)) (record {
        time = f.time;
        no_later = f.no_later;
        none_older = (ground (arith, f.no_later), f.none_older);
        chosen = elim f.chosen [ inl same ↦ inl same | inr later ↦ inr (there later) ];
      })
]

Entry-named : (id : String) (t : Time) (m : Manager) → IsDated m → Entry id t m → id ≢ ""
Entry-named id t [] d e = elim e [ ]
Entry-named id t ((j, s) ∷ m) d (here e f) = λ n. d.0 (e ∙ n)
Entry-named id t ((j, s) ∷ m) d (there e) = Entry-named id t m d.2 e

-- The loop over a map that is not empty.
oldest_of :
    (j : String) (s : ZeroRttSession) (m : Manager)
    → IsDated ((j, s) ∷ m)
    → (t : Time) × Entry (oldest_from "" 0 ((j, s) ∷ m)) t ((j, s) ∷ m) × NoneOlder t ((j, s) ∷ m)
oldest_of j s m d =
    let f = oldest_from-Found j s.created_at m d.1 d.2 in
    subst (λ r. (t : Time) × Entry r t ((j, s) ∷ m) × NoneOlder t ((j, s) ∷ m))
      (sym (oldest_from-older "" j 0 s m refl))
      (
        f.time,
        elim f.chosen [
          | inl (same_id, same_time) ↦ here (sym same_id) (sym same_time)
          | inr later ↦ there later
        ],
        (f.no_later, f.none_older),
      )

-- `cleanupOldest` deletes an identity with an entry that no entry is older than; it leaves the map
-- as it is only if that is empty. Every identity is a text that is not empty, and every session was
-- created after the zero time.
pub cleanup_oldest_lem :
    (m : Manager)
    → IsDated m
    → (m ≡ [])
      ⊎ ((id : String) × (t : Time) × Entry id t m
          × NoneOlder t m
          × (cleanup_oldest m ≡ delete id m))
unfolding cleanup_oldest
cleanup_oldest_lem [] d = inl refl
cleanup_oldest_lem ((j, s) ∷ m) d =
    let (t, entry, none_older) = oldest_of j s m d in
    let id = oldest_from "" 0 ((j, s) ∷ m) in
    let named : (id == "") ≡ false = ne_other id "" (Entry-named id t ((j, s) ∷ m) d entry) in
    inr (id, t, entry, none_older, rw (named, cleanup_oldest))

delete-Entry_lt :
    (id : String) (t : Time) (m : Manager) → Entry id t m → length (delete id m) < length m
unfolding delete
delete-Entry_lt id t [] e = elim e [ ]
delete-Entry_lt id t ((j, s) ∷ m) (here e f) =
    rw ((eq_iff j id).1 e, delete) (omega (arith, length-delete_le id m))
delete-Entry_lt id t ((j, s) ∷ m) (there e) = ground (arith, delete-Entry_lt id t m e)

pub cleanup_oldest_lt :
    (m : Manager) → IsDated m → 0 < length m → length (cleanup_oldest m) < length m
cleanup_oldest_lt m d h = elim (cleanup_oldest_lem m d) [
  | inl empty ↦ absurd (omega (arith, ap (λ (l : Manager). length l) empty))
  | inr (id, t, entry, none_older, e) ↦ rw e (delete-Entry_lt id t m entry)
]
