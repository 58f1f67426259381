-- ===== src/Kernel/Sets.antt =====
-- The sets of a kernel graph are objects, which have no key twice.
use tracing_framework.Prelude.{String, [], ◌∷◌, List, arith, ◌==◌, Bool-cases, inl, inr, subst}
use tracing_framework.Prelude.KeySet.{KeySet, IsDistinct, add, add-IsDistinct}
use tracing_framework.Prelude.Dict.{Dict, get, keys, set_at, put, put-IsDistinct}
use tracing_framework.KernelGraph.Defs.{
  KernelNode, KernelGraph, put_label, add_node, add_nodes, kernel_graph, link, empty_graph,
}
use tracing_framework.KernelGraph.Labels.{get-put_label}

pub record HasSets (g : KernelGraph) : Type 0 where
  pub label_keys : IsDistinct (keys g.labels)
  pub label_sets : (l : String) → IsDistinct (set_at g.labels l)

put_label-IsDistinct :
    (l k : String) (d : Dict KeySet) → IsDistinct (keys d) → IsDistinct (keys (put_label l k d))
unfolding put_label
put_label-IsDistinct l k d h = ground (
  arith,
  put-IsDistinct l [] d h,
  put-IsDistinct l (add k (set_at d l)) d h,
  put-IsDistinct l (add k (set_at (put l [] d) l)) (put l [] d),
)

add_node-HasSets : (g : KernelGraph) (n : KernelNode) → HasSets g → HasSets (add_node g n)
unfolding add_node
add_node-HasSets g n h = record {
  label_keys = put_label-IsDistinct n.label n.id g.labels h.label_keys;
  label_sets = λ l. elim (Bool-cases (n.label == l)) [
    | inl e ↦
        subst IsDistinct (ground (arith, get-put_label n.label l n.id g.labels))
          (add-IsDistinct n.id (set_at g.labels n.label) (h.label_sets n.label))
    | inr e ↦
        subst IsDistinct (ground (arith, get-put_label n.label l n.id g.labels)) (h.label_sets l)
  ];
}

add_nodes-HasSets : (g : KernelGraph) (ns : List KernelNode) → HasSets g → HasSets (add_nodes g ns)
unfolding add_nodes
add_nodes-HasSets g [] h = h
add_nodes-HasSets g (n ∷ ns) h = add_nodes-HasSets (add_node g n) ns (add_node-HasSets g n h)

pub kernel_graph-HasSets : (id : String) (ns : List KernelNode) → HasSets (kernel_graph id ns)
unfolding kernel_graph get keys
kernel_graph-HasSets id ns =
    add_nodes-HasSets (empty_graph id) ns (record { label_keys = tt; label_sets = λ l. tt })

pub link-HasSets : (g : KernelGraph) (p c : String) → HasSets g → HasSets (link g p c)
unfolding link
link-HasSets g p c h = record {
  label_keys = ground arith;
  label_sets = λ l. ground (arith, h.label_sets l);
}
