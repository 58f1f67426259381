-- ===== src/Graph/Covers.antt =====
-- What the search of `getEntirePathNodes` covers, on graphs with cycles too.
use tracing_framework.Prelude.{
  ℕ, zero, suc, ◌<◌, String, some, [], ◌∷◌, ◌≡◌, refl, true, false, arith, eq_iff, eq_refl,
  Bool-cases, inl, inr, ◌⊎◌, List, subst, sym, Option, Bool, ◌==◌,
}
use tracing_framework.Prelude.KeySet.{KeySet, contains, add, union, contains-add}
use tracing_framework.Prelude.Dict.{has, put, get-put, set_at}
use tracing_framework.Graph.Ends.{unseen, unseen-le, unseen-lt, put-Grows}
use tracing_framework.Graph.Trail.{Trail, put_ends, enter, path_one, path_visit, explore_path}

-- `b` is `a`, or is met from `a` in some steps.
pub data Reaches (next : String → KeySet) : String → String → Type 0 where
  here : {a : String} → Reaches next a a
  step : {a b c : String} → contains b (next a) ≡ true → Reaches next b c → Reaches next a c

module _ (next : String → KeySet) where
  -- From `s` to `t` the search has met nodes of which `P` holds, and all neighbours of the new ones.
  pub record Covers (P : String → Type 0) (s t : Trail) : Type 0 where
    pub grows : (k : String) → has s.ends k ≡ true → has t.ends k ≡ true
    pub kept : (k : String) → contains k s.nodes ≡ true → contains k t.nodes ≡ true
    pub noted :
        (k : String) → has t.ends k ≡ true → (has s.ends k ≡ true) ⊎ (contains k t.nodes ≡ true)
    pub met : (k : String) → has t.ends k ≡ true → (has s.ends k ≡ true) ⊎ P k
    pub sound : (k : String) → contains k t.nodes ≡ true → (contains k s.nodes ≡ true) ⊎ P k
    pub closed :
        (k : String)
        → has t.ends k ≡ true
        → (has s.ends k ≡ true) ⊎ ((b : String) → contains b (next k) ≡ true → has t.ends b ≡ true)

  Covers-refl : (P : String → Type 0) (s : Trail) → Covers P s s
  Covers-refl P s = record {
    grows = λ k e. e;
    kept = λ k e. e;
    noted = λ k e. inl e;
    met = λ k e. inl e;
    sound = λ k e. inl e;
    closed = λ k e. inl e;
  }

  Covers-trans :
      (P Q : String → Type 0) (s t u : Trail)
      → ((k : String) → Q k → P k)
      → Covers Q s t
      → Covers P t u
      → Covers P s u
  Covers-trans P Q s t u h c d = record {
    grows = λ k e. d.grows k (c.grows k e);
    kept = λ k e. d.kept k (c.kept k e);
    noted = λ k e. elim (d.noted k e) [
      | inr n ↦ inr n
      | inl o ↦ elim (c.noted k o) [ inl old ↦ inl old | inr n ↦ inr (d.kept k n) ]
    ];
    met = λ k e. elim (d.met k e) [
      | inr p ↦ inr p
      | inl o ↦ elim (c.met k o) [ inl old ↦ inl old | inr q ↦ inr (h k q) ]
    ];
    sound = λ k e. elim (d.sound k e) [
      | inr p ↦ inr p
      | inl o ↦ elim (c.sound k o) [ inl old ↦ inl old | inr q ↦ inr (h k q) ]
    ];
    closed = λ k e. elim (d.closed k e) [
      | inr n ↦ inr n
      | inl o ↦ elim (c.closed k o) [ inl old ↦ inl old | inr n ↦ inr (λ b i. d.grows b (n b i)) ]
    ];
  }

  -- A write to an entry that is there.
  put_ends-Covers :
      (P : String → Type 0) (id : String) (v : KeySet) (s : Trail)
      → has s.ends id ≡ true
      → Covers P s (put_ends id v s)
  put_ends-Covers P id v s h =
      let back : (k : String) → has (put id v s.ends) k ≡ true → has s.ends k ≡ true =
        λ k e. ground (arith, get-put id k v s.ends, eq_iff id k) in
      record {
        grows = put-Grows id v s.ends;
        kept = λ k e. e;
        noted = λ k e. inl (back k e);
        met = λ k e. inl (back k e);
        sound = λ k e. inl e;
        closed = λ k e. inl (back k e);
      }

  -- The whole search from `id`, where its neighbours have been covered.
  enter-Covers :
      (id : String) (s t : Trail)
      → has s.ends id ≡ false
      → Covers (Reaches next id) (enter id s) t
      → ((b : String) → contains b (next id) ≡ true → has t.ends b ≡ true)
      → Covers (Reaches next id) s t
  enter-Covers id s t new c all =
      let old : (k : String) → has (put id [] s.ends) k ≡ true → (k ≡ id) ⊎ (has s.ends k ≡ true) =
        λ k e. ground (arith, get-put id k [] s.ends, eq_iff id k) in
      record {
        grows = λ k e. c.grows k (put-Grows id [] s.ends k e);
        kept = λ k e. c.kept k (ground (arith, contains-add k id s.nodes));
        noted = λ k e. elim (c.noted k e) [
          | inr n ↦ inr n
          | inl o ↦ elim (old k o) [
            | inl same ↦ inr (c.kept k (ground (arith, contains-add k id s.nodes, eq_iff id k)))
            | inr o' ↦ inl o'
          ]
        ];
        met = λ k e. elim (c.met k e) [
          | inr r ↦ inr r
          | inl o ↦ elim (old k o) [
            | inl same ↦ inr (subst (λ x. Reaches next id x) (sym same) here)
            | inr o' ↦ inl o'
          ]
        ];
        sound = λ k e. elim (c.sound k e) [
          | inr r ↦ inr r
          | inl o ↦ elim (Bool-cases (contains k s.nodes)) [
            | inl i ↦ inl i
            | inr i ↦
                let same : id ≡ k = ground (arith, contains-add k id s.nodes, eq_iff id k) in
                inr (subst (λ x. Reaches next id x) same here)
          ]
        ];
        closed = λ k e. elim (c.closed k e) [
          | inr n ↦ inr n
          | inl o ↦ elim (old k o) [
            | inl same ↦ inr (λ b i. all b (subst (λ x. contains b (next x) ≡ true) same i))
            | inr o' ↦ inl o'
          ]
        ];
      }

-- The search from ids of a list that is closed under neighbours returns, and covers.
module _ (vis : String → Bool) (next : String → KeySet) (ids : List String)
    (inside : (a b : String)
      → contains a ids ≡ true
      → contains b (next a) ≡ true
      → contains b ids ≡ true) where
  -- What a search from `p` gives on any fuel above the number of ids not met.
  abbrev Searches : ℕ → (String → Trail → Option Trail) → Type 0
  Searches f rec =
      (p : String) (s : Trail)
      → contains p ids ≡ true
      → unseen ids s.ends < f
      → (t : Trail) × (rec p s ≡ some t) × Covers next (Reaches next p) s t × (has t.ends p ≡ true)

  path_one_lem :
      (f : ℕ) (rec : String → Trail → Option Trail) (id p : String) (s : Trail)
      → Searches f rec
      → contains p ids ≡ true
      → unseen ids s.ends < f
      → has s.ends id ≡ true
      → (t : Trail) × (path_one vis next rec id p s ≡ some t)
        × Covers next (Reaches next p) s t
        × (has t.ends p ≡ true)
  unfolding path_one
  path_one_lem f rec id p s ih i less h = elim (Bool-cases (vis p)) [
    | inl v ↦
        let w = add p (set_at s.ends id) in
        let c0 = put_ends-Covers next (Reaches next p) id w s h in
        let (t, e, c, m) =
          ih p (put_ends id w s) i
            (omega (arith, unseen-le ids s.ends (put id w s.ends) (put-Grows id w s.ends))) in
        (
          t,
          ground arith,
          Covers-trans next (Reaches next p) (Reaches next p) s (put_ends id w s) t (λ k r. r) c0 c,
          m,
        )
    | inr v ↦
        let (t0, e0, c, m) = ih p s i less in
        let w = union (set_at t0.ends id) (set_at t0.ends p) in
        let c1 = put_ends-Covers next (Reaches next p) id w t0 (c.grows id h) in
        (
          put_ends id w t0,
          ground arith,
          Covers-trans next (Reaches next p) (Reaches next p) s t0 (put_ends id w t0) (λ k r. r) c
              c1,
          c1.grows p m,
        )
  ]

  path_visit_lem :
      (f : ℕ) (rec : String → Trail → Option Trail) (id : String) (ps : KeySet) (s : Trail)
      → Searches f rec
      → ((p : String) → contains p ps ≡ true → contains p (next id) ≡ true)
      → contains id ids ≡ true
      → unseen ids s.ends < f
      → has s.ends id ≡ true
      → (t : Trail) × (path_visit vis next rec id ps s ≡ some t)
        × Covers next (Reaches next id) s t
        × ((p : String) → contains p ps ≡ true → has t.ends p ≡ true)
  unfolding path_visit contains
  path_visit_lem f rec id [] s ih sub i less h =
      (s, refl, Covers-refl next (Reaches next id) s, λ p c. absurd (ground arith))
  path_visit_lem f rec id (p ∷ ps) s ih sub i less h =
      let edge : contains p (next id) ≡ true = sub p (ground (arith, eq_refl p)) in
      let (t, e, c, m) = path_one_lem f rec id p s ih (inside id p i edge) less h in
      let (u, e', c', m') =
        path_visit_lem f rec id ps t ih (λ q k. sub q (ground arith)) i
          (omega (arith, unseen-le ids s.ends t.ends c.grows)) (c.grows id h) in
      (
        u,
        ground arith,
        Covers-trans next (Reaches next id) (Reaches next p) s t u (λ k r. step edge r) c c',
        λ q k. elim (Bool-cases (p == q)) [
          | inl same ↦ c'.grows q (subst (λ x. has t.ends x ≡ true) (ground (arith, eq_iff p q)) m)
          | inr other ↦ m' q (ground arith)
        ],
      )

  pub explore_path_lem : (f : ℕ) → Searches f (explore_path vis next f)
  unfolding explore_path
  explore_path_lem zero p s i less = absurd (omega arith)
  explore_path_lem (suc f) p s i less = elim (Bool-cases (has s.ends p)) [
    | inl old ↦ (s, ground arith, Covers-refl next (Reaches next p) s, old)
    | inr new ↦
        let entered : has (put p [] s.ends) p ≡ true =
          ground (arith, get-put p p [] s.ends, eq_refl p) in
        let fewer =
          unseen-lt ids s.ends (put p [] s.ends) p (put-Grows p [] s.ends) i new entered in
        let (t, e, c, m) =
          path_visit_lem f (explore_path vis next f) p (next p) (enter p s) (explore_path_lem f)
            (λ q k. k) i (omega arith) entered in
        (t, ground arith, enter-Covers next p s t new c m, c.grows p entered)
  ]
