-- ===== src/Kernel/Tests.antt =====
-- Runs on the graph a → m → b, compared with itself and with a single node.
use tracing_framework.Prelude.{◌*◌, length, some, none, List, [], ◌∷◌, ◌≡◌, refl, String}
use tracing_framework.Prelude.KeySet.{IsDistinct, contains, add, union}
use tracing_framework.Prelude.Dict.{get, put, keys}
use tracing_framework.Report.{Report}
use tracing_framework.KernelGraph.Defs.{
  KernelNode, kernel_graph, add_nodes, add_node, put_label, get_labels, get_label_count, get_nodes,
  get_node_ids, lookup_all, get_node_ids_for_label,
}
use tracing_framework.KernelGraph.Construct.{kernel_graph-IsWf, ids_of}
use tracing_framework.Kernel.Defs.{calculate, dot_product, merged_labels, feature_vector}
use tracing_framework.Kernel.Sets.{kernel_graph-HasSets}
use tracing_framework.Kernel.Count.{labels_of}
use tracing_framework.Kernel.NodeCount.{same_pairs, calculate_lem}

abbrev report : Report
report = record {
  event_id = none;
  parent_event_id = none;
  operation = none;
  agent = none;
  process_id = none;
  source = none;
  timestamp = 0;
}

abbrev node : String → String → KernelNode
node id label = record { id = id; label = label; report = report }

abbrev three : List KernelNode
three = node "a" "L-1" ∷ node "m" "L-2" ∷ node "b" "L-1" ∷ []

abbrev two : List KernelNode
two = node "x" "L-1" ∷ node "y" "L-3" ∷ []

three-IsDistinct : IsDistinct (ids_of three)
unfolding contains
three-IsDistinct = (refl, (refl, (refl, tt)))

two-IsDistinct : IsDistinct (ids_of two)
unfolding contains
two-IsDistinct = (refl, (refl, tt))

score_run :
    calculate (kernel_graph "g" three) (kernel_graph "h" two) ≡ some (record { top = 2; over = 6 })
unfolding calculate dot_product merged_labels feature_vector kernel_graph add_nodes add_node
    put_label get_labels get_label_count get_node_ids_for_label get_nodes get_node_ids lookup_all
    get put keys contains add union
score_run = refl

calculate_lem_example :
    calculate (kernel_graph "g" three) (kernel_graph "h" two)
    ≡ some (record {
      top = same_pairs (labels_of (kernel_graph "g" three)) (labels_of (kernel_graph "h" two));
      over =
          length (labels_of (kernel_graph "g" three)) * length (labels_of (kernel_graph "h" two));
    })
calculate_lem_example =
    calculate_lem (kernel_graph "g" three) (kernel_graph "h" two)
      (kernel_graph-IsWf "g" three three-IsDistinct).0 (kernel_graph-HasSets "g" three)
      (kernel_graph-IsWf "h" two two-IsDistinct).0 (kernel_graph-HasSets "h" two)
