-- ===== src/Menu/Offer.antt =====
-- What the options of a node's menu do.
use tracing_framework.Prelude.{
  String, some, List, [], ◌∷◌, ◌++◌, Bool, true, false, not, ◌&&◌, if◌then◌else◌, filter, ◌≡◌, refl,
  ◌≢◌, arith, Option-cases, inl, inr, eq_refl, subst,
}
use tracing_framework.Prelude.KeySet.{contains, contains-filter, contains-append}
use tracing_framework.Prelude.Dict.{get, has}
use tracing_framework.Graph.Defs.{is_visible, get_visible_nodes}
use tracing_framework.Graph.Covers.{here}
use tracing_framework.Graph.Visible.{IsLinked, get_visible_parents_ends, get_visible_children_ends}
use tracing_framework.Graph.EntirePath.{get_entire_path_nodes_lem}
use tracing_framework.Menu.Defs.{
  Shown, Operation, Effect, hidethis, hideselected, hideunselected, hidefield, invertselection,
  selectall, selectneighbours, selectpath, selectfield, hidenodes, selectnodes, on_menu_click,
  field_of, has_value, never_visible, neighbours, is_selected, add_field, add_fields, menu_fields,
  some_selected, menu_items,
}
use tracing_framework.Menu.Preview.{items_of, visible-not_never}

-- The nodes that are drawn and not selected, of which there may be none
abbrev pub AreUnselected : Shown → List String → Type 0
AreUnselected p items =
    (k : String) → contains k items ≡ (not (contains k p.selected) && contains k p.drawn)

-- What an option does to the node `d` of its menu: to hide the selected nodes hides some, to hide the
-- others or to invert the selection takes the nodes that are not selected, and the other options take
-- `d` among others.
abbrev pub Includes : Shown → Operation → String → List String → Type 0
Includes p hideselected d items = items ≢ []
Includes p hideunselected d items = AreUnselected p items
Includes p invertselection d items = AreUnselected p items
Includes p op d items = contains d items ≡ true

-- A click on the option has an effect.
abbrev pub Works : Shown → String → Operation → Type 0
Works p d op = (e : Effect) × (on_menu_click p op d ≡ some e) × Includes p op d (items_of e)

abbrev pub Each : (Operation → Type 0) → List Operation → Type 0
Each P [] = Unit
Each P (op ∷ ops) = P op × Each P ops

Each-append :
    (P : Operation → Type 0) (ops more : List Operation)
    → Each P ops
    → Each P more
    → Each P (ops ++ more)
Each-append P [] more a b = b
Each-append P (op ∷ ops) more (x, a) b = (x, Each-append P ops more a b)

add_field-Each :
    (P : Operation → Type 0) (operation : String → String → Operation) (p : Shown) (d f : String)
    → ((v : String) → field_of p d f ≡ some v → P (operation f v))
    → Each P (add_field operation p d f)
unfolding add_field
add_field-Each P operation p d f h = elim (Option-cases (field_of p d f)) [
  | inl e ↦ subst (Each P) {x = []} (ground arith) tt
  | inr (v, e) ↦ subst (Each P) {x = operation f v ∷ []} (ground arith) (h v e, tt)
]

Each-if :
    (P : Operation → Type 0) (b : Bool) (ops : List Operation)
    → (b ≡ true → Each P ops)
    → Each P (if b then ops else [])
Each-if P true ops h = h refl
Each-if P false ops h = tt

add_fields-Each :
    (P : Operation → Type 0) (operation : String → String → Operation) (p : Shown) (d : String)
    → ((f v : String) → field_of p d f ≡ some v → P (operation f v))
    → (fs : List String) → Each P (add_fields operation p d fs)
unfolding add_fields
add_fields-Each P operation p d h [] = tt
add_fields-Each P operation p d h (f ∷ fs) =
    Each-append P (add_field operation p d f) (add_fields operation p d fs)
      (add_field-Each P operation p d f (h f)) (add_fields-Each P operation p d h fs)

module _ (p : Shown) (d : String) (l : IsLinked p.graph) (v : is_visible p.graph d ≡ true)
    (i : contains d p.graph.nodelist ≡ true) where
  stored : has p.graph.nodes d ≡ true
  stored = elim (Option-cases (get p.graph.nodes d)) [
    | inl e ↦ absurd (ground arith)
    | inr (n, e) ↦ ground arith
  ]

  among_visible : contains d (get_visible_nodes p.graph) ≡ true
  unfolding get_visible_nodes
  among_visible = ground (arith, contains-filter (is_visible p.graph) d p.graph.nodelist)

  field-has_value : (f w : String) → field_of p d f ≡ some w → has_value p f w d ≡ true
  unfolding has_value
  field-has_value f w e = ground (arith, eq_refl w)

  hidefield-Works : (f w : String) → field_of p d f ≡ some w → Works p d (hidefield f w)
  unfolding on_menu_click
  hidefield-Works f w e = (
    hidenodes _ _,
    refl,
    ground (
      arith,
      contains-filter (λ id. not (never_visible p.graph id) && has_value p f w id) d
          p.graph.nodelist,
      field-has_value f w e,
      visible-not_never p.graph d v,
    ),
  )

  selectfield-Works : (f w : String) → field_of p d f ≡ some w → Works p d (selectfield f w)
  unfolding on_menu_click
  selectfield-Works f w e = (
    selectnodes _,
    refl,
    ground (
      arith,
      contains-filter (has_value p f w) d (get_visible_nodes p.graph),
      field-has_value f w e,
      among_visible,
    ),
  )

  neighbours-Works : Works p d selectneighbours
  unfolding on_menu_click neighbours contains
  neighbours-Works =
      let (ps, e) = get_visible_parents_ends p.graph d l stored in
      let (cs, f) = get_visible_children_ends p.graph d l stored in
      (
        selectnodes ((ps ++ cs) ++ d ∷ []),
        ground arith,
        ground (arith, contains-append d (ps ++ cs) (d ∷ []), eq_refl d),
      )

  path-Works : Works p d selectpath
  unfolding on_menu_click
  path-Works =
      let (ns, e, r) = get_entire_path_nodes_lem p.graph d l stored in
      (selectnodes ns, ground arith, (r d).1 (inl here))

  hidethis-Works : Works p d hidethis
  unfolding on_menu_click contains
  hidethis-Works = (hidenodes (d ∷ []) "User Selection", refl, ground (arith, eq_refl d))

  hideselected-Works : some_selected p ≡ true → Works p d hideselected
  unfolding on_menu_click some_selected
  hideselected-Works h =
      (hidenodes (filter (is_selected p) p.drawn) "User Selection", refl, ground arith)

  hideunselected-Works : Works p d hideunselected
  unfolding on_menu_click
  hideunselected-Works = (
    hidenodes _ _,
    refl,
    λ k. ground (arith, contains-filter (λ id. not (is_selected p id)) k p.drawn),
  )

  invertselection-Works : Works p d invertselection
  unfolding on_menu_click
  invertselection-Works = (
    selectnodes _,
    refl,
    λ k. ground (arith, contains-filter (λ id. not (is_selected p id)) k p.drawn),
  )

  selectall-Works : Works p d selectall
  unfolding on_menu_click
  selectall-Works = (selectnodes _, refl, among_visible)

  -- In a linked graph, a click on any option that the menu of a visible node offers hands nodes on to be
  -- hidden or selected: to hide the selected nodes is offered only where there are some; to hide the others
  -- or to invert the selection takes exactly the drawn nodes that are not selected, of which there may be
  -- none; and each other option takes the menu's node, among others.
  pub menu_items_lem : Each (Works p d) (menu_items p d)
  unfolding menu_items
  menu_items_lem =
      let P = Works p d in
      let some' = some_selected p in
      (
        hidethis-Works,
        Each-append P (if some' then hideselected ∷ hideunselected ∷ [] else []) _
            (Each-if P some' (hideselected ∷ hideunselected ∷ [])
              (λ h. (hideselected-Works h, (hideunselected-Works, tt))))
            (Each-append P (add_fields hidefield p d menu_fields) _
              (add_fields-Each P hidefield p d hidefield-Works menu_fields)
              (Each-append P (if some' then invertselection ∷ [] else []) _
                (Each-if P some' (invertselection ∷ []) (λ h. (invertselection-Works, tt)))
                (
                  selectall-Works,
                  (
                    neighbours-Works,
                    (path-Works, add_fields-Each P selectfield p d selectfield-Works menu_fields),
                  ),
                ))),
      )
