-- ===== src/Graph/Ends.antt =====
-- The search ends on every graph, with cycles or without: the fuel that suffices is one more than the
-- number of ids that the map does not have yet.
use tracing_framework.Prelude.{
  ℕ, zero, suc, ◌≤◌, ◌<◌, String, Option, some, [], ◌∷◌, ◌≡◌, refl, Bool, true, false,
  if◌then◌else◌, arith, eq_iff, eq_refl, Bool-cases, inl, inr, List,
}
use tracing_framework.Prelude.KeySet.{KeySet, contains, add, union}
use tracing_framework.Prelude.Dict.{Dict, has, put, get-put, set_at}
use tracing_framework.Graph.Explore.{visit_one, visit, explore}

-- The ids of `ids` that `m` does not have.
abbrev pub unseen : List String → Dict KeySet → ℕ
unseen [] m = 0
unseen (k ∷ ks) m = if has m k then unseen ks m else suc (unseen ks m)

-- The map only gains keys.
abbrev pub Grows : Dict KeySet → Dict KeySet → Type 0
Grows m m' = (k : String) → has m k ≡ true → has m' k ≡ true

pub put-Grows : (id : String) (s : KeySet) (m : Dict KeySet) → Grows m (put id s m)
put-Grows id s m k h = ground (arith, get-put id k s m)

pub unseen-le : (ids : List String) (m m' : Dict KeySet) → Grows m m' → unseen ids m' ≤ unseen ids m
unseen-le [] m m' h = omega arith
unseen-le (k ∷ ks) m m' h = ground (arith, h k, unseen-le ks m m' h)

pub unseen-lt :
    (ids : List String) (m m' : Dict KeySet) (k : String)
    → Grows m m'
    → contains k ids ≡ true
    → has m k ≡ false
    → has m' k ≡ true
    → unseen ids m' < unseen ids m
unfolding contains
unseen-lt [] m m' k h i a b = cc
unseen-lt (j ∷ ks) m m' k h i a b =
    ground (arith, h j, eq_iff j k, unseen-le ks m m' h, unseen-lt ks m m' k h)

-- The search from ids of a list that is closed under hidden neighbours.
module _ (vis : String → Bool) (next : String → KeySet) (ids : List String)
    (closed : (a b : String)
      → contains a ids ≡ true
      → contains b (next a) ≡ true
      → vis b ≡ false
      → contains b ids ≡ true) where
  visit_ends :
      (f : ℕ) (rec : String → Dict KeySet → Option (Dict KeySet)) (id : String) (ps : KeySet)
      (m : Dict KeySet)
      → ((p : String) (m : Dict KeySet)
          → contains p ids ≡ true
          → unseen ids m < f
          → (m' : Dict KeySet) × (rec p m ≡ some m') × Grows m m')
      → ((p : String) → contains p ps ≡ true → vis p ≡ false → contains p ids ≡ true)
      → unseen ids m < f
      → (m' : Dict KeySet) × (visit vis next rec id ps m ≡ some m') × Grows m m'
  unfolding visit visit_one contains
  visit_ends f rec id [] m ih inside h = (m, refl, λ k e. e)
  visit_ends f rec id (p ∷ ps) m ih inside h = elim (Bool-cases (vis p)) [
    | inl v ↦
        let m1 = put id (add p (set_at m id)) m in
        let g1 = put-Grows id (add p (set_at m id)) m in
        let (m', e, g) =
          visit_ends f rec id ps m1 ih (λ q c. inside q (ground arith))
            (omega (arith, unseen-le ids m m1 g1)) in
        (m', ground arith, λ k c. g k (g1 k c))
    | inr v ↦
        let (m0, e0, g0) = ih p m (inside p (ground (arith, eq_refl p)) v) h in
        let s = union (set_at m0 id) (set_at m0 p) in
        let m1 = put id s m0 in
        let g1 = put-Grows id s m0 in
        let (m', e, g) =
          visit_ends f rec id ps m1 ih (λ q c. inside q (ground arith))
            (omega (arith, unseen-le ids m m0 g0, unseen-le ids m0 m1 g1)) in
        (m', ground arith, λ k c. g k (g1 k (g0 k c)))
  ]

  pub explore_ends :
      (f : ℕ) (id : String) (m : Dict KeySet)
      → contains id ids ≡ true
      → unseen ids m < f
      → (m' : Dict KeySet) × (explore vis next f id m ≡ some m') × Grows m m'
  unfolding explore
  explore_ends zero id m i h = absurd (omega arith)
  explore_ends (suc f) id m i h = elim (Bool-cases (has m id)) [
    | inl old ↦ (m, ground arith, λ k e. e)
    | inr new ↦
        let g0 = put-Grows id [] m in
        let less =
          unseen-lt ids m (put id [] m) id g0 i new
            (ground (arith, get-put id id [] m, eq_refl id)) in
        let (m', e, g) =
          visit_ends f (explore vis next f) id (next id) (put id [] m) (explore_ends f)
            (λ p c v. closed id p i c v) (omega arith) in
        (m', ground arith, λ k c. g k (g0 k c))
  ]
