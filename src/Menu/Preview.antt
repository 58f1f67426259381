-- ===== src/Menu/Preview.antt =====
-- What the mouse over an option previews, and what a click on it does.
use tracing_framework.Prelude.{
  String, some, List, [], ◌∷◌, Bool, true, false, not, ◌&&◌, filter, ◌≡◌, refl, arith, Option-cases,
  inl, inr, ap,
}
use mathlib.Core.Option
use tracing_framework.Prelude.Dict.{get}
use tracing_framework.Graph.Defs.{Graph, is_visible, get_visible_nodes}
use tracing_framework.Menu.Defs.{
  Shown, Operation, Effect, hidethis, hideselected, hideunselected, hidefield, invertselection,
  selectall, selectneighbours, selectpath, selectfield, hidenodes, selectnodes, on_menu_click,
  on_option_mouse_over, has_value, never_visible,
}

-- The nodes that an effect hides or selects.
abbrev pub items_of : Effect → List String
items_of (hidenodes items name) = items
items_of (selectnodes items) = items

-- Only hiding by a field also hides nodes that are not drawn.
abbrev pub shown_part : Shown → Operation → List String → List String
shown_part p (hidefield fieldname value) items = filter (is_visible p.graph) items
shown_part p op items = items

pub visible-not_never :
    (g : Graph) (id : String) → is_visible g id ≡ true → never_visible g id ≡ false
visible-not_never g id h = elim (Option-cases (get g.nodes id)) [
  | inl e ↦ absurd (ground arith)
  | inr (n, e) ↦ ground arith
]

filter-swap :
    (v n q : String → Bool)
    → ((id : String) → v id ≡ true → n id ≡ false)
    → (ids : List String)
    → filter q (filter v ids) ≡ filter v (filter (λ id. not (n id) && q id) ids)
filter-swap v n q h [] = refl
filter-swap v n q h (id ∷ ids) = ground (arith, filter-swap v n q h ids, h id)

-- The mouse over an option previews exactly the nodes that a click on it hides or selects, in their
-- order; of the nodes that are hidden by a field it previews those that are visible. Both fail alike.
pub hover-click :
    (p : Shown) (op : Operation) (this : String)
    → on_option_mouse_over p op this
      ≡ Option.map (λ e. shown_part p op (items_of e)) (on_menu_click p op this)
unfolding on_option_mouse_over on_menu_click get_visible_nodes
hover-click p hidethis this = refl
hover-click p hideselected this = refl
hover-click p hideunselected this = refl
hover-click p (hidefield f v) this = ap some (
    filter-swap (is_visible p.graph) (never_visible p.graph) (has_value p f v)
      (visible-not_never p.graph) p.graph.nodelist)
hover-click p invertselection this = refl
hover-click p selectall this = refl
hover-click p selectneighbours this = ground arith
hover-click p selectpath this = ground arith
hover-click p (selectfield f v) this = refl
