-- ===== src/KernelGraph/Relabel.antt =====
-- `relabel`.
use tracing_framework.Prelude.{
  String, some, ◌≡◌, refl, ◌==◌, arith, if◌then◌else◌, eq_iff, eq_refl, Option-cases, inl, inr,
}
use tracing_framework.Prelude.KeySet.{KeySet, contains}
use tracing_framework.Prelude.Dict.{get, get-put, put-IsDistinct}
use tracing_framework.KernelGraph.Defs.{KernelNode, KernelGraph, relabelled, relabel, drop_label}
use tracing_framework.KernelGraph.Labels.{
  contains-drop_label, drop_label-used, contains-put_label, put_label-used,
}
use tracing_framework.KernelGraph.IsWf.{IsWf, edge}

module _ (g : KernelGraph) (k : String) (n : KernelNode) (ids : KeySet) (label : String)
    (w : IsWf g) (here : get g.nodes k ≡ some n) (label_set : get g.labels n.label ≡ some ids) where
  abbrev renamed : KernelNode
  renamed = record n { label = label }

  relabelled-IsWf : IsWf (relabelled g k n ids label)
  unfolding relabelled
  relabelled-IsWf = record {
    parents_keys = λ j. ground (arith, get-put k j renamed g.nodes, w.parents_keys j, eq_iff k j);
    children_keys = λ j. ground (arith, get-put k j renamed g.nodes, w.children_keys j, eq_iff k j);
    symmetric = w.symmetric;
    closed = λ p c h. ground (arith, get-put k p renamed g.nodes, w.closed p c);
    node_ids = λ j m h.
        ground (arith, get-put k j renamed g.nodes, w.node_ids j m, w.node_ids k n, eq_iff k j);
    distinct = put-IsDistinct k renamed g.nodes w.distinct;
    labelled = λ j l. ground (
      arith,
      contains-put_label label l n.id j (drop_label n.label n.id ids g.labels),
      contains-drop_label n.label l n.id j ids g.labels,
      get-put k j renamed g.nodes,
      w.labelled j l,
      w.node_ids k n,
      eq_iff k j,
      eq_iff n.label l,
      eq_iff label l,
    );
    used = λ l.
        put_label-used label l n.id (drop_label n.label n.id ids g.labels)
          (drop_label-used n.label l n.id ids g.labels (w.used l));
  }

-- Relabelling a node of a well-formed graph succeeds, keeps the graph well formed, gives the node
-- the label, and leaves the other nodes and all edges as they are.
pub relabel_lem :
    (g : KernelGraph) (k label : String) (n : KernelNode)
    → IsWf g
    → get g.nodes k ≡ some n
    → (g' : KernelGraph) × (relabel g k label ≡ some g')
      × IsWf g'
      × ((j : String)
          → get g'.nodes j ≡ (if k == j then some (record n { label = label }) else get g.nodes j))
      × ((p c : String) → edge g' p c ≡ edge g p c)
unfolding relabel relabelled contains
relabel_lem g k label n w here = elim (Option-cases (get g.labels n.label)) [
  | inl missing ↦ absurd (ground (arith, w.labelled k n.label, eq_refl n.label))
  | inr (ids, found) ↦ (
    relabelled g k n ids label,
    ground arith,
    relabelled-IsWf g k n ids label w here found,
    λ j. get-put k j (record n { label = label }) g.nodes,
    λ p c. refl,
  )
]
