-- ===== src/Filter/Remap.antt =====
-- `remap_parents`: it returns, and replaces the removed parents by what they lead to.
use tracing_framework.Prelude.{
  ℕ, zero, suc, ◌<◌, String, Option, some, List, [], ◌∷◌, Bool, true, false, ◌≡◌, refl, not, ◌==◌,
  arith, eq_iff, eq_refl, Bool-cases, inl, inr, ◌↔◌, ◌⊎◌, Option-cases,
}
use tracing_framework.Prelude.KeySet.{KeySet, contains, add, union, contains-add, contains-union}
use tracing_framework.Prelude.Dict.{get, has}
use tracing_framework.Leads.{Leads, Found, Found→Leads, Leads→Found}
use tracing_framework.Filter.Defs.{Maps, Store, gather, finish, remap_parents, remap_all}

-- Maps of the reports, with the parents that they have before the call. A removed parent has a
-- smaller rank.
module _ (m : Maps) (vis : String → Bool) (orig : String → KeySet) (rank : String → ℕ)
    (vis_removed : (a : String) → vis a ≡ not (has m.removed a))
    (known : (a : String) → has m.removed a ≡ true → has m.reportmap a ≡ true)
    (injective : (a b : String) (i : ℕ)
      → get m.reportmap a ≡ some i
      → get m.reportmap b ≡ some i
      → a ≡ b)
    (falls : (a b : String) → contains b (orig a) ≡ true → vis b ≡ false → rank b < rank a) where
  -- A remapped report has the parents that it should have, and any other report its old ones.
  pub record Inv (s : Store) : Type 0 where
    pub done :
        (a : String) (i : ℕ)
        → get m.reportmap a ≡ some i
        → contains a s.remapped ≡ true
        → (ps : KeySet) × (s.parents i ≡ some ps)
          × ((p : String) → (contains p ps ≡ true) ↔ Leads vis orig a p)
    pub todo :
        (a : String) (i : ℕ)
        → get m.reportmap a ≡ some i
        → contains a s.remapped ≡ false
        → s.parents i ≡ some (orig a)

  abbrev pub Grows : Store → Store → Type 0
  Grows s s' = (a : String) → contains a s.remapped ≡ true → contains a s'.remapped ≡ true

  -- What a call for `id` gives.
  abbrev pub Remapped : String → Store → Option Store → Type 0
  Remapped id s o =
      (s' : Store) × (o ≡ some s') × Inv s' × (contains id s'.remapped ≡ true) × Grows s s'

  abbrev Gathered : KeySet → KeySet → Store → Option (KeySet × Store) → Type 0
  Gathered ps acc s o =
      (acc' : KeySet) × (s' : Store) × (o ≡ some (acc', s'))
      × Inv s'
      × Grows s s'
      × ((x : String) → (contains x acc' ≡ true) ↔ ((contains x acc ≡ true) ⊎ Found vis orig ps x))

  gather_lem :
      (b : ℕ) (rec : String → Store → Option Store) (ps acc : KeySet) (s : Store)
      → ((p : String) (s : Store)
          → has m.reportmap p ≡ true
          → rank p < b
          → Inv s
          → Remapped p s (rec p s))
      → ((p : String) → contains p ps ≡ true → vis p ≡ false → rank p < b)
      → Inv s
      → Gathered ps acc s (gather m rec ps acc s)
  unfolding gather contains
  gather_lem b rec [] acc s ih low v = (acc, s, refl, v, λ a h. h, λ x. ground arith)
  gather_lem b rec (p ∷ ps) acc s ih low v = elim (Bool-cases (has m.removed p)) [
    | inr kept ↦
        let (acc', s', e, v', grown, found) =
          gather_lem b rec ps (add p acc) s ih (λ q k. low q (ground arith)) v in
        (
          acc',
          s',
          ground arith,
          v',
          grown,
          λ x. ground (arith, found x, contains-add x p acc, vis_removed p, eq_iff p x),
        )
    | inl gone ↦
        let (s0, e0, v0, in0, grown0) =
          ih p s (known p gone) (low p (ground (arith, eq_refl p)) (ground (arith, vis_removed p)))
            v in
        elim (Option-cases (get m.reportmap p)) [
          | inl missing ↦ absurd (ground (arith, known p))
          | inr (i, at) ↦
              let (gs, e1, exact) = v0.done p i at in0 in
              let (acc', s', e, v', grown, found) =
                gather_lem b rec ps (union acc gs) s0 ih (λ q k. low q (ground arith)) v0 in
              (
                acc',
                s',
                ground arith,
                v',
                λ a h. grown a (grown0 a h),
                λ x. ground (arith, found x, contains-union x acc gs, vis_removed p, exact x),
              )
        ]
  ]

  finish-Inv :
      (id : String) (i : ℕ) (acc : KeySet) (s : Store)
      → get m.reportmap id ≡ some i
      → Inv s
      → ((p : String) → (contains p acc ≡ true) ↔ Leads vis orig id p)
      → Inv (finish m id i (acc, s))
  unfolding finish
  finish-Inv id i acc s at v exact = record {
    done = λ a j found h. elim (Bool-cases (id == a)) [
      | inl e ↦ (acc, ground (arith, eq_iff id a), λ p. ground (arith, exact p, eq_iff id a))
      | inr e ↦
          let (ps, e1, x) = v.done a j found (ground (arith, contains-add a id s.remapped)) in
          (ps, ground (arith, injective id a i at, eq_refl id), x)
    ];
    todo = λ a j found h.
        ground
          (arith, v.todo a j found, contains-add a id s.remapped, injective id a i at, eq_refl id);
  }

  -- A report that is not remapped yet.
  remap_new :
      (f : ℕ) (id : String) (i : ℕ) (s : Store)
      → contains id s.remapped ≡ false
      → get m.reportmap id ≡ some i
      → s.parents i ≡ some (orig id)
      → Gathered (orig id) [] s (gather m (remap_parents m f) (orig id) [] s)
      → Remapped id s (remap_parents m (suc f) id s)
  unfolding remap_parents finish contains
  remap_new f id i s new at e0 (acc, s', e, v, grown, found) = (
    finish m id i (acc, s'),
    ground arith,
    finish-Inv id i acc s' at v (λ p. ground (
      arith,
      found p,
      λ (k : Found vis orig (orig id) p). Found→Leads vis orig id p (orig id) (λ q h. h) k,
      λ (k : Leads vis orig id p). Leads→Found vis orig k,
    )),
    ground (arith, contains-add id id s'.remapped, eq_refl id),
    λ a h. ground (arith, contains-add a id s'.remapped, grown a h),
  )

  pub remap_parents_lem :
      (f : ℕ) (id : String) (s : Store)
      → has m.reportmap id ≡ true
      → rank id < f
      → Inv s
      → Remapped id s (remap_parents m f id s)
  unfolding remap_parents
  remap_parents_lem zero id s here low v = absurd (omega arith)
  remap_parents_lem (suc f) id s here low v = elim (Bool-cases (contains id s.remapped)) [
    | inl old ↦ (s, ground arith, v, old, λ a h. h)
    | inr new ↦ elim (Option-cases (get m.reportmap id)) [
      | inl missing ↦ absurd (ground arith)
      | inr (i, at) ↦ remap_new f id i s new at (v.todo id i at new) (
          gather_lem f (remap_parents m f) (orig id) [] s (remap_parents_lem f)
            (λ p k w. omega (arith, falls id p k w)) v)
    ]
  ]

  pub remap_all_lem :
      (f : ℕ) (ids : List String) (s : Store)
      → ((a : String) → contains a ids ≡ true → has m.reportmap a ≡ true)
      → ((a : String) → rank a < f)
      → Inv s
      → (s' : Store) × (remap_all m f ids s ≡ some s')
        × Inv s'
        × ((a : String)
            → (contains a s.remapped ≡ true) ⊎ (contains a ids ≡ true)
            → contains a s'.remapped ≡ true)
  unfolding remap_all contains
  remap_all_lem f [] s here low v = (s, refl, v, λ a h. ground arith)
  remap_all_lem f (id ∷ ids) s here low v =
      let (s0, e0, v0, in0, grown0) =
        remap_parents_lem f id s (here id (ground (arith, eq_refl id))) (low id) v in
      let (s', e, v', full) = remap_all_lem f ids s0 (λ a k. here a (ground arith)) low v0 in
      (s', ground arith, v', λ a h. ground (arith, full a, grown0 a, eq_iff id a))
