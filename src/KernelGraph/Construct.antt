-- ===== src/KernelGraph/Construct.antt =====
-- The constructor.
use tracing_framework.Prelude.{
  String, List, [], ◌∷◌, ◌≡◌, refl, true, false, ◌||◌, arith, eq_iff, eq_refl,
}
use tracing_framework.Prelude.KeySet.{KeySet, contains, IsDistinct}
use tracing_framework.Prelude.Dict.{get, has, get-put, keys, put-IsDistinct, set_at-put}
use tracing_framework.KernelGraph.Defs.{
  KernelNode, KernelGraph, add_node, add_nodes, kernel_graph, empty_graph,
}
use tracing_framework.KernelGraph.Labels.{contains-put_label, put_label-used}
use tracing_framework.KernelGraph.IsWf.{IsWf, edge}

empty_graph-IsWf : (id : String) → IsWf (empty_graph id)
unfolding get contains keys
empty_graph-IsWf id = record {
  parents_keys = λ k. refl;
  children_keys = λ k. refl;
  symmetric = λ p c. refl;
  closed = λ p c h. cc;
  node_ids = λ k n h. cc;
  distinct = tt;
  labelled = λ k l. refl;
  used = λ l h. cc;
}

-- A node with a new id.
module _ (g : KernelGraph) (n : KernelNode) (w : IsWf g) (new : has g.nodes n.id ≡ false) where
  add_node-IsWf : IsWf (add_node g n)
  unfolding add_node contains
  add_node-IsWf = record {
    parents_keys = λ k.
        ground (arith, get-put n.id k [] g.parents, get-put n.id k n g.nodes, w.parents_keys k);
    children_keys = λ k.
        ground (arith, get-put n.id k [] g.children, get-put n.id k n g.nodes, w.children_keys k);
    symmetric = λ p c. ground (
      arith,
      set_at-put n.id p [] g.children,
      set_at-put n.id c [] g.parents,
      w.symmetric p c,
      w.closed p c,
      eq_iff n.id p,
      eq_iff n.id c,
      w.parents_keys c,
    );
    closed = λ p c h.
        ground (arith, set_at-put n.id c [] g.parents, get-put n.id p n g.nodes, w.closed p c);
    node_ids = λ k m h. ground (arith, get-put n.id k n g.nodes, w.node_ids k m, eq_iff n.id k);
    distinct = put-IsDistinct n.id n g.nodes w.distinct;
    labelled = λ k l. ground (
      arith,
      contains-put_label n.label l n.id k g.labels,
      get-put n.id k n g.nodes,
      w.labelled k l,
      eq_iff n.id k,
    );
    used = λ l. put_label-used n.label l n.id g.labels (w.used l);
  }

-- The ids of a node list.
abbrev pub ids_of : List KernelNode → KeySet
ids_of [] = []
ids_of (n ∷ ns) = n.id ∷ ids_of ns

-- No node of the list is in the graph.
abbrev AreNew : KernelGraph → List KernelNode → Type 0
AreNew g ns = (k : String) → contains k (ids_of ns) ≡ true → has g.nodes k ≡ false

AreNew-add_node :
    (g : KernelGraph) (n : KernelNode) (ns : List KernelNode)
    → IsDistinct (ids_of (n ∷ ns))
    → AreNew g (n ∷ ns)
    → AreNew (add_node g n) ns
unfolding add_node contains
AreNew-add_node g n ns d new k h = ground (arith, new k, get-put n.id k n g.nodes, eq_iff n.id k)

add_nodes-IsWf :
    (g : KernelGraph) (ns : List KernelNode)
    → IsWf g
    → IsDistinct (ids_of ns)
    → AreNew g ns
    → IsWf (add_nodes g ns)
unfolding add_nodes contains
add_nodes-IsWf g [] w d new = w
add_nodes-IsWf g (n ∷ ns) w d new =
    add_nodes-IsWf (add_node g n) ns (add_node-IsWf g n w (new n.id (ground (arith, eq_refl n.id))))
      d.1 (AreNew-add_node g n ns d new)

has-add_nodes :
    (g : KernelGraph) (ns : List KernelNode) (k : String)
    → has (add_nodes g ns).nodes k ≡ (contains k (ids_of ns) || has g.nodes k)
unfolding add_nodes contains add_node
has-add_nodes g [] k = refl
has-add_nodes g (n ∷ ns) k =
    ground (arith, has-add_nodes (add_node g n) ns k, get-put n.id k n g.nodes)

-- No node enters with an edge.
edge-add_nodes :
    (g : KernelGraph) (ns : List KernelNode) (p c : String)
    → edge (add_nodes g ns) p c ≡ true
    → edge g p c ≡ true
unfolding add_nodes contains add_node
edge-add_nodes g [] p c h = h
edge-add_nodes g (n ∷ ns) p c h =
    ground (arith, edge-add_nodes (add_node g n) ns p c h, set_at-put n.id c [] g.parents)

-- Of nodes with different ids, `new KernelGraph(id, nodelist)` builds a well-formed graph that has
-- exactly these nodes and no edge.
pub kernel_graph-IsWf :
    (id : String) (ns : List KernelNode)
    → IsDistinct (ids_of ns)
    → IsWf (kernel_graph id ns)
      × ((k : String) → has (kernel_graph id ns).nodes k ≡ contains k (ids_of ns))
      × ((p c : String) → edge (kernel_graph id ns) p c ≡ false)
unfolding kernel_graph get contains
kernel_graph-IsWf id ns d = (
  add_nodes-IsWf (empty_graph id) ns (empty_graph-IsWf id) d (λ k h. refl),
  λ k. ground (arith, has-add_nodes (empty_graph id) ns k),
  λ p c. ground (arith, edge-add_nodes (empty_graph id) ns p c),
)
