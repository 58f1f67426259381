-- ===== src/KernelGraph/Defs.antt =====
-- State and operations of `KernelGraph`.
use tracing_framework.Prelude.{
  String, Option, none, some, List, [], ◌∷◌, ◌++◌, map, ◌&&◌, if◌then◌else◌, length, ℕ,
}
use tracing_framework.Prelude.KeySet.{KeySet, add, remove, union}
use tracing_framework.Prelude.Dict.{Dict, get, has, put, del, keys, set_at}
use tracing_framework.Report.{Report}

pub record KernelNode : Type 0 where
  pub id : String
  pub label : String
  pub report : Report

pub record KernelGraph : Type 0 where
  pub id : String
  pub nodes : Dict KernelNode
  pub parents : Dict KeySet
  pub children : Dict KeySet
  pub labels : Dict KeySet

-- `if (!labels.hasOwnProperty(label)) labels[label] = {}; labels[label][nid] = true`
unfoldable pub put_label : String → String → Dict KeySet → Dict KeySet
put_label label nid d =
    let ls = if has d label then d else put label [] d in put label (add nid (set_at ls label)) ls

-- The body of the constructor's loop.
unfoldable pub add_node : KernelGraph → KernelNode → KernelGraph
add_node g n = record g {
  nodes = put n.id n g.nodes;
  parents = put n.id [] g.parents;
  children = put n.id [] g.children;
  labels = put_label n.label n.id g.labels;
}

abbrev pub empty_graph : String → KernelGraph
empty_graph id = record { id = id; nodes = []; parents = []; children = []; labels = [] }

unfoldable pub add_nodes : KernelGraph → List KernelNode → KernelGraph
add_nodes g [] = g
add_nodes g (n ∷ ns) = add_nodes (add_node g n) ns

-- `new KernelGraph(id, nodelist)`
unfoldable pub kernel_graph : String → List KernelNode → KernelGraph
kernel_graph id nodelist = add_nodes (empty_graph id) nodelist

-- Both sets are there when both nodes are (`IsWf` below), so the two writes cannot fail.
unfoldable pub link : KernelGraph → String → String → KernelGraph
link g pid cid =
    if has g.nodes pid && has g.nodes cid
    then record g {
      parents = put cid (add pid (set_at g.parents cid)) g.parents;
      children = put pid (add cid (set_at g.children pid)) g.children;
    }
    else g

-- The body of either loop of `remove`: the entry `k` of one map loses the removed node `nid`, and
-- gains the neighbours that `nid` has in the same map. These are read from the live object.
unfoldable pub rewire : String → String → Dict KeySet → Dict KeySet
rewire nid k d =
    if has d k
    then (let d1 = put k (remove nid (set_at d k)) d in
        put k (union (set_at d1 k) (set_at d1 nid)) d1)
    else d

unfoldable pub rewire_all : String → KeySet → Dict KeySet → Dict KeySet
rewire_all nid [] d = d
rewire_all nid (k ∷ ks) d = rewire_all nid ks (rewire nid k d)

-- `delete labels[label][nid]`, and the label too when its set is empty
unfoldable pub drop_label : String → String → KeySet → Dict KeySet → Dict KeySet
drop_label label nid ids d = elim (remove nid ids) [
  | [] ↦ del label d
  | k ∷ ks ↦ put label (k ∷ ks) d
]

-- The state after `remove`, where `ids` is the set of the node's label.
unfoldable pub without : KernelGraph → KernelNode → KeySet → KernelGraph
without g n ids =
    let cs = rewire_all n.id (set_at g.parents n.id) g.children in
    let ps = rewire_all n.id (set_at cs n.id) g.parents in
    record g {
      nodes = del n.id g.nodes;
      parents = del n.id ps;
      children = del n.id cs;
      labels = drop_label n.label n.id ids g.labels;
    }

-- `remove`, called with a node. An unknown label raises a TypeError.
unfoldable pub remove_node : KernelGraph → KernelNode → Option KernelGraph
remove_node g n =
    if has g.nodes n.id
    then elim (get g.labels n.label) [ none ↦ none | some ids ↦ some (without g n ids) ]
    else some g

-- `remove`, called with an id. For an unknown id `node` is undefined, and `node.id` a TypeError.
unfoldable pub remove_id : KernelGraph → String → Option KernelGraph
remove_id g k = elim (get g.nodes k) [ none ↦ none | some n ↦ remove_node g n ]

-- The state after `relabel`, where `ids` is the set of the node's old label.
unfoldable pub relabelled : KernelGraph → String → KernelNode → KeySet → String → KernelGraph
relabelled g k n ids label = record g {
  nodes = put k (record n { label = label }) g.nodes;
  labels = put_label label n.id (drop_label n.label n.id ids g.labels);
}

-- `none` for an unknown id or label, where the code meets a TypeError.
unfoldable pub relabel : KernelGraph → String → String → Option KernelGraph
relabel g k label = elim (get g.nodes k) [
  | none ↦ none
  | some n ↦ elim (get g.labels n.label) [
    | none ↦ none
    | some ids ↦ some (relabelled g k n ids label)
  ]
]

-- The getters. A missing node would be `undefined` in the list; `closed` of `IsWf` rules it out.
unfoldable pub get_node_ids : KernelGraph → KeySet
get_node_ids g = keys g.nodes

unfoldable pub lookup_all : Dict KernelNode → KeySet → List KernelNode
lookup_all d [] = []
lookup_all d (k ∷ ks) =
    let rest = lookup_all d ks in elim (get d k) [ none ↦ rest | some n ↦ n ∷ rest ]

unfoldable pub get_nodes : KernelGraph → List KernelNode
get_nodes g = lookup_all g.nodes (get_node_ids g)

unfoldable pub get_parent_ids : KernelGraph → String → KeySet
get_parent_ids g k = if has g.parents k then set_at g.parents k else []

unfoldable pub get_child_ids : KernelGraph → String → KeySet
get_child_ids g k = if has g.children k then set_at g.children k else []

unfoldable pub get_neighbour_ids : KernelGraph → String → KeySet
get_neighbour_ids g k = get_parent_ids g k ++ get_child_ids g k

unfoldable pub get_parent_labels : KernelGraph → KernelNode → List String
get_parent_labels g n = map (λ m. m.label) (lookup_all g.nodes (get_parent_ids g n.id))

unfoldable pub get_child_labels : KernelGraph → KernelNode → List String
get_child_labels g n = map (λ m. m.label) (lookup_all g.nodes (get_child_ids g n.id))

unfoldable pub get_neighbour_labels : KernelGraph → KernelNode → List String
get_neighbour_labels g n = get_child_labels g n ++ get_parent_labels g n

unfoldable pub get_labels : KernelGraph → KeySet
get_labels g = keys g.labels

unfoldable pub get_node_ids_for_label : KernelGraph → String → KeySet
get_node_ids_for_label g l = if has g.labels l then set_at g.labels l else []

unfoldable pub get_label_count : KernelGraph → String → ℕ
get_label_count g l = length (get_node_ids_for_label g l)

-- `for (cid in parents) for (pid in parents[cid]) clone.link(pid, cid)`
unfoldable pub link_parents : String → KeySet → KernelGraph → KernelGraph
link_parents cid [] g = g
link_parents cid (pid ∷ ps) g = link_parents cid ps (link g pid cid)

unfoldable pub link_all : Dict KeySet → KeySet → KernelGraph → KernelGraph
link_all d [] g = g
link_all d (cid ∷ cids) g = link_all d cids (link_parents cid (set_at d cid) g)

-- A cloned node has the fields of the original.
unfoldable pub clone : KernelGraph → KernelGraph
clone g = link_all g.parents (keys g.parents) (kernel_graph g.id (get_nodes g))
