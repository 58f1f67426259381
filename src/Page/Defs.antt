-- ===== src/Page/Defs.antt =====
-- What the page keeps, and the handlers of its events.
use Prim.Native.String
use tracing_framework.Prelude.{
  if◌then◌else◌, ◌>>=◌, ℕ, String, Option, none, some, List, [], ◌∷◌, ◌++◌, Bool, ◌&&◌, ◌||◌,
  filter,
}
use tracing_framework.Prelude.KeySet.{KeySet, contains}
use tracing_framework.Prelude.Dict.{Dict}
use tracing_framework.Graph.Defs.{Node, Graph, get_visible_nodes}
use tracing_framework.Graph.Links.{Link, has_link, get_visible_links}
use tracing_framework.Graph.Between.{get_nodes_between}
use tracing_framework.History.Defs.{Item, History, new_history, add_selection, remove}
use tracing_framework.History.Visibility.{is_hidden}
use tracing_framework.Selectable.Defs.{Selection, Keys, click, select_all}

-- `graph` as it was made, without the flags `hidden`, which the history has; the elements that are drawn,
-- those with the class `selected`, and `lastSelected` of the handlers that are bound to them.
pub record Page : Type 0 where
  pub graph : Graph
  pub history : History
  pub nodes : List String
  pub edges : List Link
  pub selected : KeySet
  pub selected_edges : List Link
  pub last_selected : Option String

-- The node objects with their flags.
unfoldable pub flagged : Dict Bool → Dict Node → Dict Node
flagged hidden [] = []
flagged hidden ((id, n) ∷ ns) = (id, record n { hidden = is_hidden hidden id }) ∷ flagged hidden ns

unfoldable pub shown_graph : Page → Graph
shown_graph p = record (p.graph) { nodes = flagged p.history.hidden p.graph.nodes }

-- `selected[d.source.id] && selected[d.target.id]`
abbrev pub joins : KeySet → Link → Bool
joins selected l = contains l.0 selected && contains l.1 selected

-- Elements that stay keep their class, and the new handlers have no element that was selected last.
abbrev pub with_edges : List Link → Page → Page
with_edges edges p =
    let nodes = get_visible_nodes (shown_graph p) in
    record p {
      nodes = nodes;
      edges = edges;
      selected = filter (λ id. contains id nodes) p.selected;
      selected_edges = filter (λ l. has_link l.0 l.1 edges) p.selected_edges;
      last_selected = none;
    }

-- `edgeid`: the ids of the two ends, with nothing between them
abbrev pub edge_id : Link → String
edge_id l = String.◌++◌ l.0 l.1

-- `data(edges, edgeid)`: of the edges with the same id only the first is drawn.
unfoldable pub keyed : KeySet → List Link → List Link
keyed seen [] = []
keyed seen (l ∷ ls) =
    let rest = keyed (edge_id l ∷ seen) ls in if contains (edge_id l) seen then rest else l ∷ rest

-- `draw`
unfoldable pub draw : Page → Option Page
draw p = do edges ← get_visible_links (shown_graph p); some (with_edges (keyed [] edges) p)

-- `new XTraceDAG`
unfoldable pub open_page : Graph → Option Page
open_page graph = draw record {
  graph = graph;
  history = new_history [];
  nodes = [];
  edges = [];
  selected = [];
  selected_edges = [];
  last_selected = none;
}

-- The edges between selected nodes become the selected ones.
abbrev pub refresh_edges : Page → Page
refresh_edges p = record p { selected_edges = filter (joins p.selected) p.edges }

-- `on("hidenodes")`: of no nodes there is no item, whose element is looked up all the same.
unfoldable pub on_hide_nodes : List String → String → Page → Option Page
on_hide_nodes [] name p = none
on_hide_nodes (n ∷ ns) name p = do
  p' ← draw (record p { history = add_selection p.history (n ∷ ns) name })
  some (refresh_edges p')

-- `on("selectnodes")`: with Ctrl what is selected stays so.
unfoldable pub on_select_nodes : Bool → List String → Page → Page
on_select_nodes ctrl_key ns p = record p {
  selected = filter (λ id. contains id ns || ctrl_key && contains id p.selected) p.nodes;
  selected_edges =
      filter (λ l. joins ns l || ctrl_key && has_link l.0 l.1 p.selected_edges) p.edges;
}

-- `getrange(a, b)`
unfoldable pub get_range : ℕ → Graph → String → String → Option (List String)
get_range fuel g a b = do
  down ← get_nodes_between fuel g a b
  up ← get_nodes_between fuel g b a
  some (down ++ up)

abbrev pub selection_of : Page → Selection
selection_of p = record { selected = p.selected; last_selected = p.last_selected }

-- `on("select")`, after the handlers of Selectable.js
abbrev pub on_select : Page → Selection → Page
on_select p s = refresh_edges (record p { selected = s.selected; last_selected = s.last_selected })

unfoldable pub on_click : ℕ → Keys → String → Page → Option Page
on_click fuel keys d p = do
  s ← click p.nodes (get_range fuel p.graph) keys d (selection_of p)
  some (on_select p s)

unfoldable pub on_ctrl_a : ℕ → Page → Page
on_ctrl_a fuel p = on_select p (select_all p.nodes (get_range fuel p.graph) (selection_of p))

-- `items.on("click")`
unfoldable pub on_item_click : Item → Page → Option Page
on_item_click item p = draw (record p { history = remove p.history item })

pub data Event : Type 0 where
  hide_nodes : List String → String → Event
  select_nodes : Bool → List String → Event
  node_click : Keys → String → Event
  ctrl_a : Event
  item_click : Item → Event

unfoldable pub handle : ℕ → Event → Page → Option Page
handle fuel (hide_nodes ns name) p = on_hide_nodes ns name p
handle fuel (select_nodes ctrl_key ns) p = some (on_select_nodes ctrl_key ns p)
handle fuel (node_click keys d) p = on_click fuel keys d p
handle fuel ctrl_a p = some (on_ctrl_a fuel p)
handle fuel (item_click item) p = on_item_click item p

unfoldable pub handle_all : ℕ → List Event → Page → Option Page
handle_all fuel [] p = some p
handle_all fuel (e ∷ es) p = do p' ← handle fuel e p; handle_all fuel es p'
