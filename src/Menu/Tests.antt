-- ===== src/Menu/Tests.antt =====
-- Menus on the graph a → h, in which h is hidden and both reports have the same agent.
use tracing_framework.Prelude.{
  String, some, List, [], ◌∷◌, Bool, true, false, ◌≡◌, refl, arith, eq_iff,
}
use mathlib.Core.Option
use tracing_framework.Prelude.KeySet.{KeySet, contains, IsDistinct}
use tracing_framework.Prelude.Dict.{get}
use tracing_framework.Graph.Defs.{Node, Graph, is_visible}
use tracing_framework.Graph.Visible.{IsLinked}
use tracing_framework.Menu.Defs.{
  Shown, hidethis, hidefield, selectall, selectneighbours, selectpath, selectfield, hidenodes,
  on_menu_click, on_option_mouse_over, menu_items, add_fields, add_field, field_of, has_value,
  some_selected,
}
use tracing_framework.Menu.Preview.{shown_part, items_of, hover-click}
use tracing_framework.Menu.Offer.{Each, Works, menu_items_lem}
use tracing_framework.Menu.Compare.{
  CompareOperation, compare_items, viewthis, removeselected, clusterselected, EachOpens,
  compare_items_lem,
}

abbrev node : String → Bool → KeySet → KeySet → Node
node id hidden parents children = record {
  id = id;
  never_visible = false;
  hidden = hidden;
  child_nodes = children;
  parent_nodes = parents;
}

abbrev pair : Graph
pair = record {
  nodelist = "a" ∷ "h" ∷ [];
  nodes = ("a", node "a" false [] ("h" ∷ [])) ∷ ("h", node "h" true ("a" ∷ []) []) ∷ [];
}

abbrev page : Shown
page = record {
  graph = pair;
  report_of = λ id. some (("Agent", "X") ∷ ("Host", "") ∷ []);
  drawn = "a" ∷ [];
  selected = [];
}

items_run :
    menu_items page "a"
    ≡ hidethis
      ∷ hidefield "Agent" "X"
      ∷ selectall
      ∷ selectneighbours
      ∷ selectpath
      ∷ selectfield "Agent" "X"
      ∷ []
unfolding menu_items add_fields add_field field_of some_selected get contains
items_run = refl

hide_run :
    on_menu_click page (hidefield "Agent" "X") "a" ≡ some (hidenodes ("a" ∷ "h" ∷ []) "Agent: X")
unfolding on_menu_click has_value field_of get
hide_run = refl

hover-click_example :
    on_option_mouse_over page (hidefield "Agent" "X") "a"
    ≡ Option.map
        (λ e. shown_part page (hidefield "Agent" "X") (items_of e))
        (on_menu_click page (hidefield "Agent" "X") "a")
hover-click_example = hover-click page (hidefield "Agent" "X") "a"

pair-IsLinked : IsLinked pair
unfolding get contains
pair-IsLinked = record {
  parents_in = λ a b h.
      ground (arith, eq_iff "a" a, eq_iff "h" a, eq_iff "a" b, eq_iff "h" b, eq_iff "a" "h");
  children_in = λ a b h.
      ground (arith, eq_iff "a" a, eq_iff "h" a, eq_iff "a" b, eq_iff "h" b, eq_iff "a" "h");
  opposite =
      λ a b. ground (arith, eq_iff "a" a, eq_iff "h" a, eq_iff "a" b, eq_iff "h" b, eq_iff "a" "h");
}

pair-shows_a : (is_visible pair "a" ≡ true) × (contains "a" pair.nodelist ≡ true)
unfolding get contains
pair-shows_a = (refl, refl)

menu_items_lem_example : Each (Works page "a") (menu_items page "a")
menu_items_lem_example = menu_items_lem page "a" pair-IsLinked pair-shows_a.0 pair-shows_a.1

abbrev traces : List String
traces = "s" ∷ "t" ∷ "u" ∷ "v" ∷ []

traces-IsDistinct : IsDistinct traces
unfolding contains
traces-IsDistinct = (refl, (refl, (refl, (refl, tt))))

compare_run :
    compare_items traces ("s" ∷ "u" ∷ []) "s"
    ≡ viewthis ∷ removeselected ∷ clusterselected ∷ CompareOperation.compareselected ∷ []
unfolding compare_items contains
compare_run = refl

compare_items_lem_example :
    EachOpens traces ("s" ∷ "u" ∷ []) "s" (compare_items traces ("s" ∷ "u" ∷ []) "s")
compare_items_lem_example = compare_items_lem traces ("s" ∷ "u" ∷ []) traces-IsDistinct "s"
