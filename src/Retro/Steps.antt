-- ===== src/Retro/Steps.antt =====
-- A series is a step function of the time.
use tracing_framework.Prelude.{
  subst, sym, ap, ◌∙◌, ℕ, suc, ◌≤◌, ◌<◌, none, some, List, [], ◌∷◌, true, false, if◌then◌else◌, ltb,
  leb, nat_eq, ◌≡◌, refl, ◌&&◌, ◌||◌, arith, Bool-cases, inl, inr,
}
use tracing_framework.Retro.Amount.{Amount}
use tracing_framework.Retro.Series.{
  Element, Series, has_time, place, insert, add_point, add_until, add_between, add_data,
}

module _ (u : Amount) where
  abbrev pub times : List (Element u) → List ℕ
  times [] = []
  times (e ∷ es) = e.time ∷ times es

  -- The times rise, from `lo` on.
  abbrev pub Ascends : ℕ → List (Element u) → Type 0
  Ascends lo [] = Unit
  Ascends lo (e ∷ es) = (lo ≤ e.time) × Ascends (suc e.time) es

  -- The usage at a time: that of the last element before or at it, and `acc` before all elements.
  unfoldable pub usage_from : u.Carrier → ℕ → List (Element u) → u.Carrier
  usage_from acc x [] = acc
  usage_from acc x (e ∷ es) = if ltb x e.time then acc else usage_from e.usage x es

  unfoldable pub usage_at : ℕ → Series u → u.Carrier
  usage_at x s = usage_from u.nothing x s.elements

  pub record IsSound (s : Series u) : Type 0 where
    pub ascends : Ascends 0 s.elements
    pub mapped : (t : ℕ) → has_time u t s.elementsmap ≡ has_time u t (times s.elements)

  pub has_time-above :
      (t lo : ℕ) (es : List (Element u)) → Ascends lo es → t < lo → has_time u t (times es) ≡ false
  unfolding has_time
  has_time-above t lo [] a h = refl
  has_time-above t lo (e ∷ es) a h = ground (arith, has_time-above t (suc e.time) es a.1)

  place-above : (t lo : ℕ) (es : List (Element u)) → Ascends lo es → t < lo → place u t es ≡ none
  unfolding place
  place-above t lo [] a h = refl
  place-above t lo (e ∷ es) a h = ground (arith, place-above t (suc e.time) es a.1)

  -- Insertion with the usage `acc` where the new element is the first.
  insert_with : u.Carrier → ℕ → List (Element u) → List (Element u)
  insert_with acc t [] = record { time = t; usage = acc } ∷ []
  insert_with acc t (e ∷ es) =
      if ltb t e.time
      then record { time = t; usage = acc } ∷ e ∷ es
      else e ∷ insert_with e.usage t es

  place-insert_with :
      (acc : u.Carrier) (t lo : ℕ) (es : List (Element u))
      → Ascends lo es
      → (elim (place u t es) [
        | none ↦ record { time = t; usage = acc } ∷ es
        | some placed ↦ placed
      ])
        ≡ insert_with acc t es
  unfolding place insert_with
  place-insert_with acc t lo [] a = refl
  place-insert_with acc t lo (e ∷ es) a = elim (Bool-cases (ltb t e.time)) [
    | inl before ↦ ground (arith, place-above t (suc e.time) es a.1)
    | inr after ↦ ground (arith, place-insert_with e.usage t (suc e.time) es a.1)
  ]

  insert_with-usage :
      (acc : u.Carrier) (t x lo : ℕ) (es : List (Element u))
      → Ascends lo es
      → usage_from acc x (insert_with acc t es) ≡ usage_from acc x es
  unfolding insert_with usage_from
  insert_with-usage acc t x lo [] a = ground arith
  insert_with-usage acc t x lo (e ∷ es) a =
      ground (arith, insert_with-usage e.usage t x (suc e.time) es a.1)

  insert_with-Ascends :
      (acc : u.Carrier) (t lo : ℕ) (es : List (Element u))
      → Ascends lo es
      → lo ≤ t
      → has_time u t (times es) ≡ false
      → Ascends lo (insert_with acc t es)
  unfolding insert_with has_time
  insert_with-Ascends acc t lo [] a h n = (h, tt)
  insert_with-Ascends acc t lo (e ∷ es) a h n =
      ground (arith, insert_with-Ascends e.usage t (suc e.time) es a.1)

  has_time-insert_with :
      (acc : u.Carrier) (t x : ℕ) (es : List (Element u))
      → has_time u x (times (insert_with acc t es)) ≡ (nat_eq t x || has_time u x (times es))
  unfolding insert_with has_time
  has_time-insert_with acc t x [] = ground arith
  has_time-insert_with acc t x (e ∷ es) = ground (arith, has_time-insert_with e.usage t x es)

  add_until-usage :
      (to x lo : ℕ) (c acc : u.Carrier) (es : List (Element u))
      → Ascends lo es
      → has_time u to (times es) ≡ true
      → usage_from (u.plus acc c) x (add_until u to c es)
        ≡ (if ltb x to then u.plus (usage_from acc x es) c else usage_from acc x es)
  unfolding add_until usage_from has_time
  add_until-usage to x lo c acc [] a h = absurd (ground arith)
  add_until-usage to x lo c acc (e ∷ []) a h = ground arith
  add_until-usage to x lo c acc (e ∷ f ∷ es) a h = ground (
    arith,
    add_until-usage to x (suc e.time) c e.usage (f ∷ es) a.1,
    has_time-above to (suc e.time) (f ∷ es) a.1,
  )

  times-add_until :
      (to : ℕ) (c : u.Carrier) (es : List (Element u)) → times (add_until u to c es) ≡ times es
  unfolding add_until
  times-add_until to c [] = refl
  times-add_until to c (e ∷ []) = refl
  times-add_until to c (e ∷ f ∷ es) = ground (arith, times-add_until to c (f ∷ es))

  times-add_between :
      (from to : ℕ) (c : u.Carrier) (es : List (Element u))
      → times (add_between u from to c es) ≡ times es
  unfolding add_between
  times-add_between from to c [] = refl
  times-add_between from to c (e ∷ es) =
      ground (arith, times-add_between from to c es, times-add_until to c (e ∷ es))

  -- The order is a matter of the times alone.
  Ascends-times :
      (lo : ℕ) (es fs : List (Element u)) → times es ≡ times fs → Ascends lo es → Ascends lo fs
  Ascends-times lo [] [] e a = tt
  Ascends-times lo [] (f ∷ fs) e a = absurd (ground arith)
  Ascends-times lo (x ∷ es) [] e a = absurd (ground arith)
  Ascends-times lo (x ∷ es) (f ∷ fs) e a =
      let head : x.time ≡ f.time = ground arith in
      let tail : times es ≡ times fs = ground arith in
      (
        omega arith,
        Ascends-times (suc f.time) es fs tail (subst (λ t. Ascends (suc t) es) head a.1),
      )

  add_between-usage :
      (from to x lo : ℕ) (c acc : u.Carrier) (es : List (Element u))
      → Ascends lo es
      → from < to
      → has_time u from (times es) ≡ true
      → has_time u to (times es) ≡ true
      → usage_from acc x (add_between u from to c es)
        ≡ (if leb from x && ltb x to then u.plus (usage_from acc x es) c else usage_from acc x es)
  unfolding add_between add_until usage_from has_time
  add_between-usage from to x lo c acc [] a l h k = absurd (ground arith)
  add_between-usage from to x lo c acc (e ∷ []) a l h k = absurd (ground arith)
  add_between-usage from to x lo c acc (e ∷ f ∷ es) a l h k =
      elim (Bool-cases (nat_eq e.time from)) [
        | inl at ↦ ground (arith, add_until-usage to x (suc e.time) c e.usage (f ∷ es) a.1)
        | inr off ↦ ground (
          arith,
          add_between-usage from to x (suc e.time) c e.usage (f ∷ es) a.1 l,
          has_time-above from (suc e.time) (f ∷ es) a.1,
          has_time-above to (suc e.time) (f ∷ es) a.1,
        )
      ]

  add_point-IsSound :
      (t : ℕ) (s : Series u)
      → IsSound s
      → IsSound (add_point u t s)
        × (has_time u t (times (add_point u t s).elements) ≡ true)
        × ((x : ℕ)
            → has_time u x (times s.elements) ≡ true
            → has_time u x (times (add_point u t s).elements) ≡ true)
        × ((x : ℕ) → usage_at x (add_point u t s) ≡ usage_at x s)
  unfolding add_point insert usage_at has_time
  add_point-IsSound t s v = elim (Bool-cases (has_time u t s.elementsmap)) [
    | inl old ↦
        let same : s ≡ add_point u t s = ground arith in
        subst
          (λ z.
            IsSound z
            × (has_time u t (times z.elements) ≡ true)
            × ((x : ℕ)
                → has_time u x (times s.elements) ≡ true
                → has_time u x (times z.elements) ≡ true)
            × ((x : ℕ) → usage_at x z ≡ usage_at x s))
          same (v, ground (arith, v.mapped t), λ x h. h, λ x. refl)
    | inr new ↦
        let made : Series u = record {
          elements = insert_with u.nothing t s.elements;
          elementsmap = t ∷ s.elementsmap;
        } in
        let same : made ≡ add_point u t s =
          ground (arith, place-insert_with u.nothing t 0 s.elements v.ascends) in
        subst
          (λ z.
            IsSound z
            × (has_time u t (times z.elements) ≡ true)
            × ((x : ℕ)
                → has_time u x (times s.elements) ≡ true
                → has_time u x (times z.elements) ≡ true)
            × ((x : ℕ) → usage_at x z ≡ usage_at x s))
          same
          (
            record {
              ascends =
                  insert_with-Ascends u.nothing t 0 s.elements v.ascends (omega arith)
                    (ground (arith, v.mapped t));
              mapped =
                  λ x. ground (arith, v.mapped x, has_time-insert_with u.nothing t x s.elements);
            },
            ground (arith, has_time-insert_with u.nothing t t s.elements),
            λ x h. ground (arith, has_time-insert_with u.nothing t x s.elements),
            λ x. insert_with-usage u.nothing t x 0 s.elements v.ascends,
          )
  ]

  -- Adding consumption over an interval keeps the series sound, with its times in order and in the
  -- map, and raises the usage by it at exactly the times of the interval, its end not included.
  pub add_data_lem :
      (from to : ℕ) (c : u.Carrier) (s : Series u)
      → IsSound s
      → from < to
      → IsSound (add_data u from to c s)
        × ((x : ℕ)
            → usage_at x (add_data u from to c s)
              ≡ (if leb from x && ltb x to then u.plus (usage_at x s) c else usage_at x s))
  unfolding add_data usage_at
  add_data_lem from to c s v l =
      let s1 = add_point u from s in
      let s2 = add_point u to s1 in
      let (v1, h1, k1, w1) = add_point-IsSound from s v in
      let (v2, h2, k2, w2) = add_point-IsSound to s1 v1 in
      let same = times-add_between from to c s2.elements in
      (
        record {
          ascends =
              Ascends-times 0 s2.elements (add_between u from to c s2.elements) (sym same)
                v2.ascends;
          mapped = λ t. v2.mapped t ∙ ap (has_time u t) (sym same);
        },
        λ x. ground (
          arith,
          add_between-usage from to x 0 c u.nothing s2.elements v2.ascends l (k2 from h1) h2,
          w1 x,
          w2 x,
        ),
      )
