-- ===== src/Metrics/Values.antt =====
-- server/webbou/metrics.go: a registry of pointers implements a map from names to values.
use web_bou.Prelude.{
  string_eq, ℕ, ◌+◌, ◌<◌, ◌≡◌, ◌≢◌, ◌⊎◌, refl, subst, ap, ◌∙◌, true, false, Bool-cases, inl, inr,
  Option, none, some, List, [], ◌∷◌, String, eqb, if◌then◌else◌, ◌==◌, arith,
}
use web_bou.Prelude.Maps.{get, put, get-put, get-put_self, get-put_other}
use web_bou.Metrics.{Registry, assign, found, get_or_create, modify}

-- The uses of names, each with the method called.
abbrev pub Uses : Type 0 → Type 0
Uses V = List (String × (V → V))

pub eqb_self : (a : ℕ) → eqb a a ≡ true
eqb_self a = ground arith

module _ {V : Type 0} where
  -- The addresses in use are below the next one, and no two names share one.
  record IsSound (r : Registry V) : Type 0 where
    below : (name : String) (a : ℕ) → get name r.index ≡ some a → a < r.free_from
    distinct : (j k : String) (a : ℕ) → get j r.index ≡ some a → get k r.index ≡ some a → j ≡ k

  abbrev pub value_at : Registry V → V → Option ℕ → V
  value_at r fresh none = fresh
  value_at r fresh (some a) = r.store a

  -- The value under a name, or that which it would have at first.
  abbrev pub value_of : Registry V → V → String → V
  value_of r fresh name = value_at r fresh (get name r.index)

  -- A lookup and a method of the value found.
  abbrev pub use_named : V → Registry V → String → (V → V) → Registry V
  use_named fresh r name f = let (a, after) = get_or_create r name fresh in modify after a f

  assign_same : (store : ℕ → V) (a : ℕ) (v : V) → assign store a v a ≡ v
  assign_same store a v = ground arith

  assign_other : (store : ℕ → V) (a b : ℕ) (v : V) → b ≢ a → assign store a v b ≡ store b
  assign_other store a b v n = ground arith

  -- What a use makes of the registry, by what the lookup finds.
  abbrev used : V → Registry V → String → (V → V) → Option ℕ → Registry V
  used fresh r name f o = let (a, after) = found r name fresh o in modify after a f

  used-IsSound :
      (fresh : V) (r : Registry V) (name : String) (f : V → V) (o : Option ℕ)
      → get name r.index ≡ o
      → IsSound r
      → IsSound (used fresh r name f o)
  unfolding modify
  used-IsSound fresh r name f (some a) e sound = record {
    below = sound.below;
    distinct = sound.distinct;
  }
  used-IsSound fresh r name f none e sound = record {
    below = λ k a h. by_put_below k a (Bool-cases (name == k)) h;
    distinct = λ j k a g h. by_put j k a (Bool-cases (name == j)) (Bool-cases (name == k)) g h;
  }
    where
      by_put_below :
          (k : String) (a : ℕ)
          → ((name == k) ≡ true) ⊎ ((name == k) ≡ false)
          → get k (put name r.free_from r.index) ≡ some a
          → a < r.free_from + 1
      by_put_below k a c h = ground (arith, get-put name k r.free_from r.index, sound.below k a)

      by_put :
          (j k : String) (a : ℕ)
          → ((name == j) ≡ true) ⊎ ((name == j) ≡ false)
          → ((name == k) ≡ true) ⊎ ((name == k) ≡ false)
          → get j (put name r.free_from r.index) ≡ some a
          → get k (put name r.free_from r.index) ≡ some a
          → j ≡ k
      by_put j k a c d g h = ground (
        arith,
        get-put name j r.free_from r.index,
        get-put name k r.free_from r.index,
        sound.distinct j k a,
        sound.below j a,
        sound.below k a,
        string_eq.beq_iff name j,
        string_eq.beq_iff name k,
      )

  -- The value under the name that is used.
  value_of-used_same :
      (fresh : V) (r : Registry V) (name : String) (f : V → V) (o : Option ℕ)
      → get name r.index ≡ o
      → value_of (used fresh r name f o) fresh name ≡ f (value_of r fresh name)
  unfolding modify
  value_of-used_same fresh r name f (some a) e = rw (e, assign_same r.store a (f (r.store a)))
  value_of-used_same fresh r name f none e =
      rw (e, get-put_self name r.free_from r.index, eqb_self r.free_from)

  -- The value under another name.
  value_of-used_other :
      (fresh : V) (r : Registry V) (name k : String) (f : V → V) (o p : Option ℕ)
      → get name r.index ≡ o
      → get k r.index ≡ p
      → name ≢ k
      → IsSound r
      → value_of (used fresh r name f o) fresh k ≡ value_of r fresh k
  unfolding modify
  value_of-used_other fresh r name k f (some a) none e g n sound = rw (g)
  value_of-used_other fresh r name k f (some a) (some b) e g n sound =
      let apart : b ≢ a = λ same. n (sound.distinct name k a e (g ∙ ap some same)) in
      rw (g, assign_other r.store a b (f (r.store a)) apart)
  value_of-used_other fresh r name k f none none e g n sound =
      rw (get-put_other name k r.free_from r.index n, g)
  value_of-used_other fresh r name k f none (some b) e g n sound =
      let low = sound.below k b g in
      let apart : b ≢ r.free_from = λ same. omega (arith, low) in
      rw (
        get-put_other name k r.free_from r.index n,
        g,
        assign_other (assign r.store r.free_from fresh) r.free_from b
            (f (assign r.store r.free_from fresh r.free_from)) apart,
        assign_other r.store r.free_from b fresh apart,
      )

  value_of-use_named :
      (fresh : V) (r : Registry V) (name k : String) (f : V → V)
      → IsSound r
      → value_of (use_named fresh r name f) fresh k
        ≡ (if name == k then f (value_of r fresh k) else value_of r fresh k)
  unfolding get_or_create
  value_of-use_named fresh r name k f sound = elim (Bool-cases (name == k)) [
    | inl e ↦ rw (e) (
        subst (λ n. value_of (use_named fresh r name f) fresh n ≡ f (value_of r fresh n))
          ((string_eq.beq_iff name k).0 e) (value_of-used_same fresh r name f _ refl))
    | inr n ↦ rw (n) (
        value_of-used_other fresh r name k f _ _ refl refl
          (λ same. let yes = (string_eq.beq_iff name k).1 same in cc) sound)
  ]

  -- Newest use first.
  abbrev pub uses : V → Registry V → Uses V → Registry V
  uses fresh r [] = r
  uses fresh r ((name, f) ∷ us) = use_named fresh (uses fresh r us) name f

  abbrev pub total : V → String → Uses V → V
  total fresh k [] = fresh
  total fresh k ((name, f) ∷ us) =
      let before = total fresh k us in if name == k then f before else before

  abbrev empty : (ℕ → V) → Registry V
  empty store = record { index = []; store = store; free_from = 0 }

  uses-IsSound : (fresh : V) (store : ℕ → V) (us : Uses V) → IsSound (uses fresh (empty store) us)
  unfolding get_or_create get
  uses-IsSound fresh store [] = record {
    below = λ name a h. absurd (cc);
    distinct = λ j k a g h. absurd (cc);
  }
  uses-IsSound fresh store ((name, f) ∷ us) =
      used-IsSound fresh (uses fresh (empty store) us) name f _ refl (uses-IsSound fresh store us)

  -- The registry implements a map from names to values: whatever names are looked up, created and used
  -- in between, the value under a name is what the methods called under that name make of a new one.
  pub value_of-uses :
      (fresh : V) (store : ℕ → V) (k : String) (us : Uses V)
      → value_of (uses fresh (empty store) us) fresh k ≡ total fresh k us
  unfolding get
  value_of-uses fresh store k [] = refl
  value_of-uses fresh store k ((name, f) ∷ us) = rw (
    value_of-use_named fresh (uses fresh (empty store) us) name k f (uses-IsSound fresh store us),
    value_of-uses fresh store k us,
  )
