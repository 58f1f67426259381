-- ===== src/Graph/Exact.antt =====
-- What the search finds, on graphs in which no cycle runs through hidden nodes.
use tracing_framework.Prelude.{
  ℕ, zero, suc, ◌+◌, ◌≤◌, ◌<◌, String, Option, some, [], ◌∷◌, ◌≡◌, Bool, true, false, arith, eq_iff,
  eq_refl, Bool-cases, inl, inr, List, ◌==◌, ◌⊎◌, ◌↔◌, subst, Option-cases, some_inj,
}
use tracing_framework.Prelude.KeySet.{KeySet, contains, add, union, contains-add, contains-union}
use tracing_framework.Prelude.Dict.{Dict, has, put, get, get-put, set_at, set_at-put}
use tracing_framework.Leads.{Leads, Found, Found→Leads, Leads→Found}
use tracing_framework.Graph.Explore.{visit_one, visit, explore, explore_all}

-- Every id has a rank, and a hidden neighbour has a smaller one.
module _ (vis : String → Bool) (next : String → KeySet) (rank : String → ℕ)
    (acyclic : (a b : String) → contains b (next a) ≡ true → vis b ≡ false → rank b < rank a) where
  -- The entry of `a` is finished.
  abbrev Exact : Dict KeySet → String → Type 0
  Exact m a = (p : String) → (contains p (set_at m a) ≡ true) ↔ Leads vis next a p

  -- So is each entry of a rank below `b`.
  abbrev pub Complete : ℕ → Dict KeySet → Type 0
  Complete b m = (a : String) → rank a < b → has m a ≡ true → Exact m a

  pub record Explored (id : String) (m m' : Dict KeySet) : Type 0 where
    pub keeps : (a : String) → has m a ≡ true → get m' a ≡ get m a
    pub seen : has m' id ≡ true
    pub new : (a : String) → has m' a ≡ true → has m a ≡ false → rank a ≤ rank id
    pub complete : (b : ℕ) → rank id < b → Complete b m → Complete b m'

  pub record Visited (id : String) (ps : KeySet) (m m' : Dict KeySet) : Type 0 where
    pub keeps : (a : String) → (id == a) ≡ false → has m a ≡ true → get m' a ≡ get m a
    pub seen : has m' id ≡ true
    pub new : (a : String) → has m' a ≡ true → has m a ≡ false → rank a < rank id
    pub complete : Complete (rank id) m → Complete (rank id) m'
    pub found :
        Complete (rank id) m
        → (x : String)
        → (contains x (set_at m' id) ≡ true)
          ↔ ((contains x (set_at m id) ≡ true) ⊎ Found vis next ps x)

  -- An entry of another id does not move when `id` is written.
  pub Complete-put :
      (b : ℕ) (id : String) (s : KeySet) (m : Dict KeySet)
      → b ≤ rank id
      → Complete b m
      → Complete b (put id s m)
  Complete-put b id s m h c a r i p = ground (
    arith,
    c a r,
    c a r (ground (arith, get-put id a s m, eq_iff id a)) p,
    get-put id a s m,
    eq_iff id a,
  )

  module _ (id p : String) (ps : KeySet) (m m' : Dict KeySet) (opened : has m id ≡ true) where
    visit_visible :
        vis p ≡ true → Visited id ps (put id (add p (set_at m id)) m) m' → Visited id (p ∷ ps) m m'
    visit_visible v h =
        let s = add p (set_at m id) in
        record {
          keeps = λ a ne i. ground (arith, h.keeps a ne, get-put id a s m);
          seen = h.seen;
          new = λ a i n. ground (arith, h.new a i, get-put id a s m, eq_iff id a);
          complete = λ c. h.complete (Complete-put (rank id) id s m (omega arith) c);
          found = λ c x. ground (
            arith,
            h.found (Complete-put (rank id) id s m (omega arith) c) x,
            set_at-put id id s m,
            eq_refl id,
            contains-add x p (set_at m id),
            eq_iff p x,
          );
        }

    pub visit_hidden :
        (m0 : Dict KeySet)
        → vis p ≡ false
        → rank p < rank id
        → Explored p m m0
        → Visited id ps (put id (union (set_at m0 id) (set_at m0 p)) m0) m'
        → Visited id (p ∷ ps) m m'
    visit_hidden m0 v lt e h =
        let s = union (set_at m0 id) (set_at m0 p) in
        record {
          keeps = λ a ne i. ground (arith, h.keeps a ne, get-put id a s m0, e.keeps a);
          seen = h.seen;
          new = λ a i n.
              ground
                (arith, h.new a i, get-put id a s m0, eq_iff id a, e.new a, Bool-cases (has m0 a));
          complete = λ c.
              h.complete (Complete-put (rank id) id s m0 (omega arith) (e.complete (rank id) lt c));
          found = λ c x.
              let c0 = e.complete (rank id) lt c in
              ground (
                arith,
                h.found (Complete-put (rank id) id s m0 (omega arith) c0) x,
                set_at-put id id s m0,
                eq_refl id,
                e.keeps id opened,
                contains-union x (set_at m0 id) (set_at m0 p),
                c0 p lt e.seen x,
              );
        }

  visit_lem :
      (rec : String → Dict KeySet → Option (Dict KeySet)) (id : String) (ps : KeySet)
      (m m' : Dict KeySet)
      → ((p : String) (m m' : Dict KeySet) → rec p m ≡ some m' → Explored p m m')
      → ((p : String) → contains p ps ≡ true → vis p ≡ false → rank p < rank id)
      → has m id ≡ true
      → visit vis next rec id ps m ≡ some m'
      → Visited id ps m m'
  unfolding visit visit_one contains
  visit_lem rec id [] m m' ih below i h = record {
    keeps = λ a ne j. ground arith;
    seen = ground arith;
    new = λ a j n. ground arith;
    complete = subst (λ x. Complete (rank id) m → Complete (rank id) x) (some_inj h) (λ c. c);
    found = λ c x. ground arith;
  }
  visit_lem rec id (p ∷ ps) m m' ih below i h = elim (Bool-cases (vis p)) [
    | inl v ↦
        let s = add p (set_at m id) in
        visit_visible id p ps m m' i v (
          visit_lem rec id ps (put id s m) m' ih (λ q k. below q (ground arith))
            (ground (arith, get-put id id s m, eq_refl id)) (ground arith))
    | inr v ↦ elim (Option-cases (rec p m)) [
      | inl e ↦ absurd (ground arith)
      | inr (m0, e) ↦
          let s = union (set_at m0 id) (set_at m0 p) in
          visit_hidden id p ps m m' i m0 v (below p (ground (arith, eq_refl p)) v) (ih p m m0 e) (
            visit_lem rec id ps (put id s m0) m' ih (λ q k. below q (ground arith))
              (ground (arith, get-put id id s m0, eq_refl id)) (ground arith))
    ]
  ]

  module _ (id : String) (m m' : Dict KeySet) (n : has m id ≡ false)
      (h : Visited id (next id) (put id [] m) m') where
    explored-Complete : (b : ℕ) → rank id < b → Complete b m → Complete b m'
    unfolding contains
    explored-Complete b lt c a r i x =
        let c0 = Complete-put (rank id) id [] m (omega arith) (λ a' r' i'. c a' (omega arith) i') in
        elim (Bool-cases (id == a)) [
          | inl e ↦ ground (
            arith,
            h.found c0 x,
            eq_iff id a,
            eq_refl id,
            set_at-put id id [] m,
            λ (f : Found vis next (next id) x). Found→Leads vis next id x (next id) (λ p k. k) f,
            λ (l : Leads vis next id x). Leads→Found vis next l,
          )
          | inr e ↦ elim (Bool-cases (has m a)) [
            | inl old ↦ ground (arith, h.keeps a, get-put id a [] m, c a r old x)
            | inr fresh ↦ h.complete c0 a (ground (arith, h.new a i, get-put id a [] m)) i x
          ]
        ]

    pub Explored-new : Explored id m m'
    Explored-new = record {
      keeps = λ a i. ground (arith, h.keeps a, get-put id a [] m, eq_iff id a);
      seen = h.seen;
      new = λ a i j. ground (arith, h.new a i, get-put id a [] m, eq_iff id a);
      complete = explored-Complete;
    }

  explore_lem :
      (f : ℕ) (id : String) (m m' : Dict KeySet)
      → explore vis next f id m ≡ some m'
      → Explored id m m'
  unfolding explore
  explore_lem zero id m m' h = absurd (ground arith)
  explore_lem (suc f) id m m' h = elim (Bool-cases (has m id)) [
    | inl old ↦ record {
      keeps = λ a i. ground arith;
      seen = ground arith;
      new = λ a i n. ground arith;
      complete = λ b lt. subst (λ x. Complete b m → Complete b x) (ground arith) (λ c. c);
    }
    | inr new ↦ Explored-new id m m' new (
        visit_lem (explore vis next f) id (next id) (put id [] m) m' (explore_lem f)
          (λ p k v. acyclic id p k v) (ground (arith, get-put id id [] m, eq_refl id))
          (ground arith))
  ]

  -- The search from the empty map finds exactly the nearest visible nodes.
  pub explore_exact :
      (f : ℕ) (id : String) (m : Dict KeySet) (p : String)
      → explore vis next f id [] ≡ some m
      → (contains p (set_at m id) ≡ true) ↔ Leads vis next id p
  unfolding get
  explore_exact f id m p h =
      let e = explore_lem f id [] m h in
      e.complete (suc (rank id)) (omega arith) (λ a r i. absurd (ground arith)) id (omega arith)
        e.seen p

  -- So does the search from several nodes in turn, for each of them.
  abbrev pub AllExact : Dict KeySet → Type 0
  AllExact m =
      (a p : String) → has m a ≡ true → (contains p (set_at m a) ≡ true) ↔ Leads vis next a p

  explore-AllExact :
      (f : ℕ) (id : String) (m m' : Dict KeySet)
      → explore vis next f id m ≡ some m'
      → AllExact m
      → AllExact m'
  explore-AllExact f id m m' h c a p i =
      (explore_lem f id m m' h).complete (suc (rank id + rank a)) (omega arith) (λ b r j q. c b q j)
        a (omega arith) i p

  pub explore_all_exact :
      (f : ℕ) (ids : List String) (m m' : Dict KeySet)
      → explore_all vis next f ids m ≡ some m'
      → AllExact m
      → AllExact m' × ((a : String) → (has m a ≡ true) ⊎ (contains a ids ≡ true) → has m' a ≡ true)
  unfolding explore_all contains
  explore_all_exact f [] m m' h c = (subst AllExact (some_inj h) c, λ a k. ground arith)
  explore_all_exact f (id ∷ ids) m m' h c = elim (Option-cases (explore vis next f id m)) [
    | inl e ↦ absurd (ground arith)
    | inr (m0, e) ↦
        let x = explore_lem f id m m0 e in
        let (c', s) =
          explore_all_exact f ids m0 m' (ground arith) (explore-AllExact f id m m0 e c) in
        (c', λ a k. ground (arith, s a, x.keeps a, x.seen, eq_iff id a))
  ]
