-- ===== src/Retro/Series.antt =====
-- `Series`. The list `elements` also stands for the links between its elements, which the code sets to
-- the neighbours in that list; `elementsmap` is the list of the times that the map has.
use tracing_framework.Prelude.{
  ℕ, ◌+◌, ◌*◌, Option, none, some, List, [], ◌∷◌, ◌++◌, Bool, true, false, if◌then◌else◌, ltb,
  nat_eq, filter, not,
}
use tracing_framework.Retro.Amount.{Amount}

module _ (u : Amount) where
  pub record Element : Type 0 where
    pub time : ℕ
    pub usage : u.Carrier

  pub record Series : Type 0 where
    pub elements : List Element
    pub elementsmap : List ℕ

  abbrev pub new_series : Series
  new_series = record { elements = []; elementsmap = [] }

  unfoldable pub has_time : ℕ → List ℕ → Bool
  has_time t [] = false
  has_time t (x ∷ xs) = if nat_eq x t then true else has_time t xs

  -- The search from the end for an element that is not after `t`, and the new element behind it with
  -- its usage; `none` where the search passes the first element.
  unfoldable pub place : ℕ → List Element → Option (List Element)
  place t [] = none
  place t (e ∷ es) = elim (place t es) [
    | some placed ↦ some (e ∷ placed)
    | none ↦ if ltb t e.time then none else some (e ∷ record { time = t; usage = e.usage } ∷ es)
  ]

  unfoldable pub insert : ℕ → List Element → List Element
  insert t es = elim (place t es) [
    | none ↦ record { time = t; usage = u.nothing } ∷ es
    | some placed ↦ placed
  ]

  unfoldable pub add_point : ℕ → Series → Series
  add_point t s =
      if has_time t s.elementsmap
      then s
      else record { elements = insert t s.elements; elementsmap = t ∷ s.elementsmap }

  -- The loop of `addData` from an element on: it stops at the last element and at the time `to`.
  unfoldable pub add_until : ℕ → u.Carrier → List Element → List Element
  add_until to c [] = []
  add_until to c (e ∷ es) =
      let rest = add_until to c es in
      elim es [
        | [] ↦ e ∷ []
        | f ∷ fs ↦
            if ltb e.time to then record e { usage = u.plus e.usage c } ∷ rest else e ∷ f ∷ fs
      ]

  -- `elementsmap[from]` is the element of that time.
  unfoldable pub add_between : ℕ → ℕ → u.Carrier → List Element → List Element
  add_between from to c [] = []
  add_between from to c (e ∷ es) =
      let rest = add_between from to c es in
      if nat_eq e.time from then add_until to c (e ∷ es) else e ∷ rest

  unfoldable pub add_data : ℕ → ℕ → u.Carrier → Series → Series
  add_data from to c s =
      let added = add_point to (add_point from s) in
      record added { elements = add_between from to c added.elements }

  -- The loop of `prune` removes the first element while the third is before `minvalue`.
  unfoldable pub cut : ℕ → List Element → List Element
  cut minvalue [] = []
  cut minvalue (e ∷ es) =
      let rest = cut minvalue es in
      elim es [
        | [] ↦ e ∷ []
        | f ∷ fs ↦ elim fs [
          | [] ↦ e ∷ f ∷ []
          | g ∷ gs ↦ if ltb g.time minvalue then rest else e ∷ f ∷ g ∷ gs
        ]
      ]

  unfoldable pub last_time : List Element → Option ℕ
  last_time [] = none
  last_time (e ∷ es) = let rest = last_time es in elim es [ [] ↦ some e.time | f ∷ fs ↦ rest ]

  -- `delete elementsmap[...]` for the elements that go
  unfoldable pub cut_map : ℕ → List Element → List ℕ → List ℕ
  cut_map minvalue [] ts = ts
  cut_map minvalue (e ∷ es) ts =
      let rest = cut_map minvalue es (filter (λ t. not (nat_eq t e.time)) ts) in
      elim es [
        | [] ↦ ts
        | f ∷ fs ↦ elim fs [ [] ↦ ts | g ∷ gs ↦ if ltb g.time minvalue then rest else ts ]
      ]

  unfoldable pub pruned : ℕ → Series → Series
  pruned minvalue s = record {
    elements = cut minvalue s.elements;
    elementsmap = cut_map minvalue s.elements s.elementsmap;
  }

  -- The new state, and whether the series is out of date.
  unfoldable pub prune : ℕ → Series → Series × Bool
  prune minvalue s = elim (last_time s.elements) [
    | none ↦ (pruned minvalue s, true)
    | some t ↦ if ltb t minvalue then (s, true) else (pruned minvalue s, false)
  ]

  -- The points of a graph, with four times their time.
  pub record Point : Type 0 where
    pub time4 : ℕ
    pub usage : u.Carrier

  -- The two points for an element and the next one.
  unfoldable pub two_points : Element → Element → List Point
  two_points e f =
      if u.is_zero e.usage
      then record { time4 = 4 * e.time; usage = u.nothing }
        ∷ record { time4 = 4 * f.time; usage = u.nothing }
        ∷ []
      else record { time4 = 3 * e.time + f.time; usage = e.usage }
        ∷ record { time4 = e.time + 3 * f.time; usage = e.usage }
        ∷ []

  -- `data()`: the last point has the usage of the last element but one.
  unfoldable pub points_of : List Element → List Point
  points_of [] = []
  points_of (e ∷ es) =
      let rest = points_of es in
      elim es [
        | [] ↦ []
        | f ∷ fs ↦ elim fs [
          | [] ↦ two_points e f ++ record { time4 = 4 * f.time; usage = e.usage } ∷ []
          | g ∷ gs ↦ two_points e f ++ rest
        ]
      ]
