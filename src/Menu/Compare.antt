-- ===== src/Menu/Compare.antt =====
-- `CompareGraphContextMenu`, and what xtrace_cluster.js does when traces are hidden.
use tracing_framework.Prelude.{
  ◌+◌, ◌-◌, ◌≤◌, String, List, [], ◌∷◌, ◌++◌, Bool, true, false, not, ◌&&◌, ◌==◌, if◌then◌else◌,
  filter, ◌≡◌, refl, arith, length, ltb, nat_eq, eq_iff, eq_refl, List-cases, inl, inr, ap, subst,
  sym, ◌∙◌,
}
use tracing_framework.Prelude.KeySet.{KeySet, contains, contains-filter, IsDistinct}

pub data CompareOperation : Type 0 where
  viewthis : CompareOperation
  removeselected : CompareOperation
  clusterselected : CompareOperation
  compareselected : CompareOperation
  comparetoselected : CompareOperation

-- The handlers `view`, `hide` and `compare`, with the traces that they get.
pub data CompareEffect : Type 0 where
  view : String → CompareEffect
  hide : List String → CompareEffect
  compare_traces : List String → CompareEffect

-- The traces are drawn as nodes, of which some are selected.
module _ (drawn : List String) (selected : KeySet) where
  abbrev pub chosen : List String
  chosen = filter (λ id. contains id selected) drawn

  abbrev pub unchosen : List String
  unchosen = filter (λ id. not (contains id selected)) drawn

  unfoldable pub on_compare_click : CompareOperation → String → CompareEffect
  on_compare_click viewthis this = view this
  on_compare_click removeselected this = hide chosen
  on_compare_click clusterselected this = hide unchosen
  on_compare_click compareselected this = compare_traces chosen
  on_compare_click comparetoselected this = compare_traces (chosen ++ this ∷ [])

  -- `selected.datum() != d3.select(this).datum()`, of the first selected node
  unfoldable pub first_is_other : String → Bool
  first_is_other this = elim chosen [ [] ↦ false | id ∷ ids ↦ not (id == this) ]

  unfoldable pub compare_items : String → List CompareOperation
  compare_items this =
      let n = length chosen in
      viewthis
      ∷ ((if ltb 0 n && ltb 1 (length drawn - n) then removeselected ∷ [] else [])
          ++ ((if ltb 1 n then clusterselected ∷ [] else [])
              ++ ((if nat_eq n 2 then compareselected ∷ [] else [])
                  ++ (if nat_eq n 1 && first_is_other this then comparetoselected ∷ [] else []))))

-- The handler of `hide` in xtrace_cluster.js: the ids of the traces but for the hidden ones.
unfoldable pub without_hidden : List String → List String → List String
without_hidden traces hidden = filter (λ id. not (contains id hidden)) traces

-- What an effect opens: one trace, at least two traces to cluster, or two different traces.
abbrev pub Opens : List String → CompareEffect → Type 0
Opens traces (view id) = Unit
Opens traces (hide hidden) = 2 ≤ length (without_hidden traces hidden)
Opens traces (compare_traces ids) = (length ids ≡ 2) × IsDistinct ids

abbrev pub EachOpens : List String → KeySet → String → List CompareOperation → Type 0
EachOpens drawn selected this [] = Unit
EachOpens drawn selected this (op ∷ ops) =
    Opens drawn (on_compare_click drawn selected op this) × EachOpens drawn selected this ops

length-filter :
    (q : String → Bool) (xs : List String)
    → length (filter q xs) + length (filter (λ id. not (q id)) xs) ≡ length xs
length-filter q [] = omega arith
length-filter q (x ∷ xs) = ground (arith, length-filter q xs)

filter-ext :
    (p q : String → Bool) (xs : List String)
    → ((k : String) → contains k xs ≡ true → p k ≡ q k)
    → filter p xs ≡ filter q xs
unfolding contains
filter-ext p q [] h = refl
filter-ext p q (x ∷ xs) h =
    ground (arith, h x, eq_refl x, filter-ext p q xs (λ k i. h k (ground arith)))

filter-IsDistinct :
    (q : String → Bool) (xs : List String) → IsDistinct xs → IsDistinct (filter q xs)
filter-IsDistinct q [] d = tt
filter-IsDistinct q (x ∷ xs) d = ground (arith, filter-IsDistinct q xs d.1, contains-filter q x xs)

-- Hiding a part of what is drawn leaves the rest.
without_hidden-filter :
    (q : String → Bool) (xs : List String)
    → without_hidden xs (filter q xs) ≡ filter (λ id. not (q id)) xs
unfolding without_hidden
without_hidden-filter q xs =
    filter-ext (λ id. not (contains id (filter q xs))) (λ id. not (q id)) xs
      (λ k i. ground (arith, contains-filter q k xs))

EachOpens-append :
    (drawn : List String) (selected : KeySet) (this : String) (ops more : List CompareOperation)
    → EachOpens drawn selected this ops
    → EachOpens drawn selected this more
    → EachOpens drawn selected this (ops ++ more)
EachOpens-append drawn selected this [] more a b = b
EachOpens-append drawn selected this (op ∷ ops) more (x, a) b =
    (x, EachOpens-append drawn selected this ops more a b)

module _ (drawn : List String) (selected : KeySet) (d : IsDistinct drawn) (this : String) where
  EachOpens-if :
      (b : Bool) (op : CompareOperation)
      → (b ≡ true → Opens drawn (on_compare_click drawn selected op this))
      → EachOpens drawn selected this (if b then op ∷ [] else [])
  EachOpens-if true op h = (h refl, tt)
  EachOpens-if false op h = tt

  removeselected_lem :
      ltb 1 (length drawn - length (chosen drawn selected)) ≡ true
      → Opens drawn (on_compare_click drawn selected removeselected this)
  unfolding on_compare_click
  removeselected_lem h = ground (
    arith,
    ap length (without_hidden-filter (λ id. contains id selected) drawn),
    length-filter (λ id. contains id selected) drawn,
  )

  clusterselected_lem :
      ltb 1 (length (chosen drawn selected)) ≡ true
      → Opens drawn (on_compare_click drawn selected clusterselected this)
  unfolding on_compare_click
  clusterselected_lem h =
      let shut = without_hidden-filter (λ id. not (contains id selected)) drawn in
      let twice =
        filter-ext (λ id. not (not (contains id selected))) (λ id. contains id selected) drawn
          (λ k i. ground arith) in
      ground (arith, ap length shut, ap length twice)

  compareselected_lem :
      nat_eq (length (chosen drawn selected)) 2 ≡ true
      → Opens drawn (on_compare_click drawn selected compareselected this)
  unfolding on_compare_click
  compareselected_lem h = (ground arith, filter-IsDistinct (λ id. contains id selected) drawn d)

  comparetoselected_lem :
      (nat_eq (length (chosen drawn selected)) 1 && first_is_other drawn selected this) ≡ true
      → Opens drawn (on_compare_click drawn selected comparetoselected this)
  unfolding on_compare_click first_is_other contains
  comparetoselected_lem h = elim (List-cases (chosen drawn selected)) [
    | inl e ↦ absurd (ground (arith, ap length e))
    | inr (x, xs, e) ↦
        let none' : xs ≡ [] = elim (List-cases xs) [
          | inl n ↦ n
          | inr (y, ys, n) ↦ absurd (ground (arith, ap length e, ap length n))
        ] in
        let whole : x ∷ this ∷ [] ≡ chosen drawn selected ++ this ∷ [] =
          ap (λ z. (x ∷ z) ++ this ∷ []) (sym none') ∙ ap (λ z. z ++ this ∷ []) (sym e) in
        subst (λ z. (length z ≡ 2) × IsDistinct z) whole
          (refl, (ground (arith, eq_iff x this, eq_iff this x), (refl, tt)))
  ]

  -- Where each trace is drawn once, a click on any option of the menu opens what makes sense: at least
  -- two traces are left to cluster, and exactly two different traces are compared.
  pub compare_items_lem : EachOpens drawn selected this (compare_items drawn selected this)
  unfolding compare_items on_compare_click
  compare_items_lem =
      let n = length (chosen drawn selected) in
      let a = ltb 0 n && ltb 1 (length drawn - n) in
      let b = nat_eq n 1 && first_is_other drawn selected this in
      let rest2 =
        (if nat_eq n 2 then compareselected ∷ [] else [])
        ++ (if b then comparetoselected ∷ [] else []) in
      let rest1 = (if ltb 1 n then clusterselected ∷ [] else []) ++ rest2 in
      (
        tt,
        EachOpens-append drawn selected this (if a then removeselected ∷ [] else []) rest1
            (EachOpens-if a removeselected (λ h. removeselected_lem (ground arith)))
            (EachOpens-append drawn selected this (if ltb 1 n then clusterselected ∷ [] else [])
              rest2 (EachOpens-if (ltb 1 n) clusterselected clusterselected_lem)
              (EachOpens-append drawn selected this
                (if nat_eq n 2 then compareselected ∷ [] else [])
                (if b then comparetoselected ∷ [] else [])
                (EachOpens-if (nat_eq n 2) compareselected compareselected_lem)
                (EachOpens-if b comparetoselected comparetoselected_lem))),
      )
