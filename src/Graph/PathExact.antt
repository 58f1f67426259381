-- ===== src/Graph/PathExact.antt =====
-- What the search of `getEntirePathNodes` finds for each node, on graphs without cycles.
use tracing_framework.Prelude.{
  ℕ, zero, suc, ◌<◌, String, Option, some, [], ◌∷◌, ◌≡◌, true, false, arith, eq_iff, eq_refl,
  Bool-cases, inl, inr, ◌↔◌, subst, Option-cases, some_inj, refl, ◌+◌, Bool,
}
use tracing_framework.Prelude.KeySet.{KeySet, contains, add, union, contains-add}
use tracing_framework.Prelude.Dict.{Dict, has, put, get, get-put, set_at, set_at-put}
use tracing_framework.Leads.{Leads}
use tracing_framework.Graph.Exact.{
  Complete, Complete-put, Explored, Visited, visit_hidden, Explored-new,
}
use tracing_framework.Graph.Trail.{Trail, put_ends, enter, path_one, path_visit, explore_path}

module _ (vis : String → Bool) (next : String → KeySet) (rank : String → ℕ)
    (acyclic : (a b : String) → contains b (next a) ≡ true → rank b < rank a) where
  abbrev weaker : (a b : String) → contains b (next a) ≡ true → vis b ≡ false → rank b < rank a
  weaker a b i v = acyclic a b i

  behind_visible :
      (id p : String) (ps : KeySet) (m m0 m' : Dict KeySet)
      → has m id ≡ true
      → vis p ≡ true
      → rank p < rank id
      → Explored vis next rank weaker p (put id (add p (set_at m id)) m) m0
      → Visited vis next rank weaker id ps m0 m'
      → Visited vis next rank weaker id (p ∷ ps) m m'
  behind_visible id p ps m m0 m' i v lt e h =
      let s = add p (set_at m id) in
      let c1 : Complete vis next rank weaker (rank id) m
          → Complete vis next rank weaker (rank id) m0 =
        λ c.
          e.complete (rank id) lt
            (Complete-put vis next rank weaker (rank id) id s m (omega arith) c) in
      record {
        keeps = λ a ne j. ground (arith, h.keeps a ne, e.keeps a, get-put id a s m);
        seen = h.seen;
        new = λ a j n.
            ground
              (arith, h.new a j, e.new a, Bool-cases (has m0 a), get-put id a s m, eq_iff id a);
        complete = λ c. h.complete (c1 c);
        found = λ c x. ground (
          arith,
          h.found (c1 c) x,
          e.keeps id,
          get-put id id s m,
          set_at-put id id s m,
          eq_refl id,
          contains-add x p (set_at m id),
          eq_iff p x,
        );
      }

  path_visit_lem :
      (rec : String → Trail → Option Trail) (id : String) (ps : KeySet) (s t : Trail)
      → ((p : String) (s t : Trail)
          → rec p s ≡ some t
          → Explored vis next rank weaker p s.ends t.ends)
      → ((p : String) → contains p ps ≡ true → rank p < rank id)
      → has s.ends id ≡ true
      → path_visit vis next rec id ps s ≡ some t
      → Visited vis next rank weaker id ps s.ends t.ends
  unfolding path_visit path_one contains
  path_visit_lem rec id [] s t ih below i h =
      subst (λ x. Visited vis next rank weaker id [] s.ends x.ends) (some_inj h)
        (record {
          keeps = λ a ne j. refl;
          seen = i;
          new = λ a j n. absurd (ground arith);
          complete = λ c. c;
          found = λ c x. ground arith;
        })
  path_visit_lem rec id (p ∷ ps) s t ih below i h =
      let lt : rank p < rank id = below p (ground (arith, eq_refl p)) in
      elim (Bool-cases (vis p)) [
        | inl v ↦
            let w = add p (set_at s.ends id) in
            elim (Option-cases (rec p (put_ends id w s))) [
              | inl e ↦ absurd (ground arith)
              | inr (s0, e) ↦
                  let x = ih p (put_ends id w s) s0 e in
                  behind_visible id p ps s.ends s0.ends t.ends i v lt x (
                    path_visit_lem rec id ps s0 t ih (λ q k. below q (ground arith))
                      (ground (arith, x.keeps id, get-put id id w s.ends, eq_refl id))
                      (ground arith))
            ]
        | inr v ↦ elim (Option-cases (rec p s)) [
          | inl e ↦ absurd (ground arith)
          | inr (s0, e) ↦
              let w = union (set_at s0.ends id) (set_at s0.ends p) in
              visit_hidden vis next rank weaker id p ps s.ends t.ends i s0.ends v lt (ih p s s0 e) (
                path_visit_lem rec id ps (put_ends id w s0) t ih (λ q k. below q (ground arith))
                  (ground (arith, get-put id id w s0.ends, eq_refl id)) (ground arith))
        ]
      ]

  explore_path_lem :
      (f : ℕ) (id : String) (s t : Trail)
      → explore_path vis next f id s ≡ some t
      → Explored vis next rank weaker id s.ends t.ends
  unfolding explore_path
  explore_path_lem zero id s t h = absurd (ground arith)
  explore_path_lem (suc f) id s t h = elim (Bool-cases (has s.ends id)) [
    | inl old ↦
        let same : s ≡ t = ground arith in
        subst (λ x. Explored vis next rank weaker id s.ends x.ends) same
          (record {
            keeps = λ a i. refl;
            seen = old;
            new = λ a i n. absurd (ground arith);
            complete = λ b lt c. c;
          })
    | inr new ↦ Explored-new vis next rank weaker id s.ends t.ends new (
        path_visit_lem (explore_path vis next f) id (next id) (enter id s) t (explore_path_lem f)
          (λ p k. acyclic id p k) (ground (arith, get-put id id [] s.ends, eq_refl id))
          (ground arith))
  ]

  -- Every entry of the map is finished when the search from the empty map returns.
  pub explore_path_exact :
      (f : ℕ) (id a p : String) (s t : Trail)
      → explore_path vis next f id s ≡ some t
      → s.ends ≡ []
      → has t.ends a ≡ true
      → (contains p (set_at t.ends a) ≡ true) ↔ Leads vis next a p
  unfolding get
  explore_path_exact f id a p s t h empty i =
      (explore_path_lem f id s t h).complete (suc (rank id + rank a)) (omega arith)
        (λ b r j. absurd (ground arith)) a (omega arith) i p
