-- ===== src/Graph/Defs.antt =====
-- Nodes, and the operations of a graph that do not search.
use tracing_framework.Prelude.{
  String, Option, none, some, List, [], ◌∷◌, ◌++◌, Bool, false, not, ◌&&◌, filter,
}
use tracing_framework.Prelude.KeySet.{KeySet, add, remove}
use tracing_framework.Prelude.Dict.{Dict, get, put}

pub record Node : Type 0 where
  pub id : String
  pub never_visible : Bool
  pub hidden : Bool
  pub child_nodes : KeySet
  pub parent_nodes : KeySet

-- `new Node(id)`
abbrev pub new_node : String → Node
new_node id = record {
  id = id;
  never_visible = false;
  hidden = false;
  child_nodes = [];
  parent_nodes = [];
}

-- `visible()`, and `visible(b)`
abbrev pub visible : Node → Bool
visible n = not n.never_visible && not n.hidden

abbrev pub set_visible : Bool → Node → Node
set_visible b n = record n { hidden = not b }

unfoldable pub add_child : Node → Node → Node
add_child child n = record n { child_nodes = add child.id n.child_nodes }

unfoldable pub add_parent : Node → Node → Node
add_parent parent n = record n { parent_nodes = add parent.id n.parent_nodes }

unfoldable pub remove_child : Node → Node → Node
remove_child child n = record n { child_nodes = remove child.id n.child_nodes }

unfoldable pub remove_parent : Node → Node → Node
remove_parent parent n = record n { parent_nodes = remove parent.id n.parent_nodes }

pub record Graph : Type 0 where
  pub nodelist : List String
  pub nodes : Dict Node

abbrev pub new_graph : Graph
new_graph = record { nodelist = []; nodes = [] }

unfoldable pub add_node : Graph → Node → Graph
add_node g n = record { nodelist = g.nodelist ++ n.id ∷ []; nodes = put n.id n g.nodes }

-- `getNode`
abbrev pub get_node : Graph → String → Option Node
get_node g id = get g.nodes id

-- The ids that a node object holds; an id without a node has none.
abbrev pub parents_of : Graph → String → KeySet
parents_of g id = elim (get g.nodes id) [ none ↦ [] | some n ↦ n.parent_nodes ]

abbrev pub children_of : Graph → String → KeySet
children_of g id = elim (get g.nodes id) [ none ↦ [] | some n ↦ n.child_nodes ]

abbrev pub is_visible : Graph → String → Bool
is_visible g id = elim (get g.nodes id) [ none ↦ false | some n ↦ visible n ]

-- `getVisibleNodes`
unfoldable pub get_visible_nodes : Graph → List String
get_visible_nodes g = filter (is_visible g) g.nodelist
