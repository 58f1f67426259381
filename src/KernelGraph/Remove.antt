-- ===== src/KernelGraph/Remove.antt =====
-- `remove`: the node goes, and each of its parents is linked to each of its children.
use tracing_framework.Prelude.{
  if◌then◌else◌, String, none, some, ◌≡◌, ◌==◌, false, not, ◌||◌, ◌&&◌, arith, eq_iff, eq_refl,
  Option-cases, inl, inr, is_some, true,
}
use tracing_framework.Prelude.KeySet.{KeySet, contains}
use tracing_framework.Prelude.Dict.{get, has, get-del, del-IsDistinct, set_at, set_at-del}
use tracing_framework.KernelGraph.Defs.{
  KernelNode, KernelGraph, rewire_all, without, remove_node, remove_id,
}
use tracing_framework.KernelGraph.Labels.{contains-drop_label, drop_label-used}
use tracing_framework.KernelGraph.Rewire.{has-rewire_all, contains-rewire_all, rewire_all_keeps}
use tracing_framework.KernelGraph.IsWf.{IsWf, edge}

-- A node of the graph, the set of its label, and no edge from the node to itself.
module _ (g : KernelGraph) (n : KernelNode) (ids : KeySet) (w : IsWf g)
    (here : get g.nodes n.id ≡ some n) (label_set : get g.labels n.label ≡ some ids)
    (no_loop : edge g n.id n.id ≡ false) where
  abbrev ps : KeySet
  ps = set_at g.parents n.id

  abbrev cs : KeySet
  cs = set_at g.children n.id

  no_loop_children : contains n.id cs ≡ false
  no_loop_children = ground (arith, w.symmetric n.id n.id)

  -- The first loop leaves the removed node's own children alone.
  cs_kept : set_at (rewire_all n.id ps g.children) n.id ≡ cs
  cs_kept = rewire_all_keeps n.id ps g.children no_loop

  has-without : (k : String) → has (without g n ids).nodes k ≡ (not (n.id == k) && has g.nodes k)
  unfolding without
  has-without k = ground (arith, get-del n.id k g.nodes)

  -- The edges that are left, and one from each parent to each child.
  edge-without :
      (p c : String)
      → edge (without g n ids) p c
        ≡ (not (n.id == p) && not (n.id == c) && (edge g p c || edge g p n.id && edge g n.id c))
  unfolding without contains
  edge-without p c = rw cs_kept (
      ground (
        arith,
        set_at-del n.id c (rewire_all n.id cs g.parents),
        eq_iff n.id p,
        no_loop_children,
        contains-rewire_all n.id cs c p g.parents,
        w.symmetric n.id c,
        w.parents_keys c,
        w.symmetric p c,
        eq_iff n.id c,
      ))

  edge-without_children :
      (p c : String)
      → contains c (set_at (without g n ids).children p)
        ≡ (not (n.id == p) && not (n.id == c) && (edge g p c || edge g p n.id && edge g n.id c))
  unfolding without contains
  edge-without_children p c = ground (
    arith,
    set_at-del n.id p (rewire_all n.id ps g.children),
    eq_iff n.id p,
    no_loop_children,
    contains-rewire_all n.id ps p c g.children,
    w.symmetric n.id c,
    w.children_keys p,
    w.symmetric p c,
    eq_iff n.id c,
    w.closed p n.id,
  )

  without-IsWf : IsWf (without g n ids)
  unfolding without
  without-IsWf = record {
    parents_keys = λ k. rw cs_kept (
        ground (
          arith,
          has-rewire_all n.id cs k g.parents,
          w.parents_keys k,
          has-without k,
          get-del n.id k (rewire_all n.id cs g.parents),
        ));
    children_keys = λ k. ground (
      arith,
      has-rewire_all n.id ps k g.children,
      w.children_keys k,
      has-without k,
      get-del n.id k (rewire_all n.id ps g.children),
    );
    symmetric = λ p c. ground (arith, edge-without p c, edge-without_children p c);
    closed =
        λ p c h. ground (arith, edge-without p c, has-without p, w.closed p c, w.closed p n.id);
    node_ids = λ k m h. ground (arith, get-del n.id k g.nodes, w.node_ids k m);
    distinct = del-IsDistinct n.id g.nodes w.distinct;
    labelled = λ k l. ground (
      arith,
      contains-drop_label n.label l n.id k ids g.labels,
      get-del n.id k g.nodes,
      w.labelled k l,
      eq_iff n.id k,
      eq_iff n.label l,
    );
    used = λ l. drop_label-used n.label l n.id ids g.labels (w.used l);
  }

-- `remove`, called with a node of the graph.
pub remove_node-get :
    (g : KernelGraph) (n : KernelNode)
    → IsWf g
    → get g.nodes n.id ≡ some n
    → edge g n.id n.id ≡ false
    → (g' : KernelGraph) × (remove_node g n ≡ some g')
      × IsWf g'
      × ((j : String) → get g'.nodes j ≡ (if n.id == j then none else get g.nodes j))
      × ((p c : String)
          → edge g' p c ≡ (
              not (n.id == p) && not (n.id == c) && (edge g p c || edge g p n.id && edge g n.id c)))
unfolding remove_node without contains
remove_node-get g n w here no_loop = elim (Option-cases (get g.labels n.label)) [
  | inl missing ↦ absurd (ground (arith, w.labelled n.id n.label, eq_refl n.label))
  | inr (ids, found) ↦ (
    without g n ids,
    ground arith,
    without-IsWf g n ids w here found no_loop,
    λ j. get-del n.id j g.nodes,
    λ p c. edge-without g n ids w here found no_loop p c,
  )
]

-- Removing a node of a well-formed graph succeeds, unless the node is its own parent. The graph stays
-- well formed, loses the node only, keeps the edges between the others, and gains an edge from each
-- parent of the node to each of its children; no other edge is added.
pub remove_node_lem :
    (g : KernelGraph) (k : String) (n : KernelNode)
    → IsWf g
    → get g.nodes k ≡ some n
    → edge g k k ≡ false
    → (g' : KernelGraph) × (remove_id g k ≡ some g')
      × IsWf g'
      × ((j : String) → has g'.nodes j ≡ (not (k == j) && has g.nodes j))
      × ((p c : String)
          → edge g' p c
            ≡ (not (k == p) && not (k == c) && (edge g p c || edge g p k && edge g k c)))
unfolding remove_id remove_node contains
remove_node_lem g k n w here no_loop = elim (Option-cases (get g.labels n.label)) [
  | inl missing ↦ absurd (ground (arith, w.labelled k n.label, eq_refl n.label))
  | inr (ids, found) ↦
      let e = w.node_ids k n here in
      let here' : get g.nodes n.id ≡ some n = cc in
      let no_loop' : edge g n.id n.id ≡ false = cc in
      (
        without g n ids,
        ground arith,
        without-IsWf g n ids w here' found no_loop',
        λ j. cc (has-without g n ids w here' found no_loop' j),
        λ p c. cc (edge-without g n ids w here' found no_loop' p c),
      )
]

-- The comment in the source says that `remove` does nothing if the node does not exist. Called with
-- the id of such a node it raises a TypeError.
remove_id-missing : (g : KernelGraph) (k : String) → has g.nodes k ≡ false → remove_id g k ≡ none
unfolding remove_id
remove_id-missing g k h = ground arith

remove_id-found :
    (g : KernelGraph) (k : String) (n : KernelNode)
    → IsWf g
    → get g.nodes k ≡ some n
    → is_some (remove_id g k) ≡ true
unfolding remove_id remove_node contains
remove_id-found g k n w h = elim (Option-cases (get g.labels n.label)) [
  | inl missing ↦ absurd (ground (arith, w.labelled k n.label, eq_refl n.label))
  | inr (ids, found) ↦ ground (arith, h, found, w.node_ids k n h)
]

-- For a well-formed graph, remove, called with an id, raises a TypeError exactly when no node has the id;
-- called with a node whose id no node has, it leaves the graph as it is.
pub remove_missing :
    (g : KernelGraph) (k : String) (n : KernelNode)
    → IsWf g
    → has g.nodes n.id ≡ false
    → (is_some (remove_id g k) ≡ has g.nodes k) × (remove_node g n ≡ some g)
unfolding remove_node
remove_missing g k n w h = (
  elim (Option-cases (get g.nodes k)) [
    | inl e ↦ ground (arith, remove_id-missing g k, e)
    | inr (m, e) ↦ ground (arith, remove_id-found g k m w e, e)
  ],
  ground (arith, h),
)
