-- ===== src/KernelGraph/Tests.antt =====
-- Runs on the graph a → m → b.
use tracing_framework.Prelude.{
  String, Option, some, none, List, [], ◌∷◌, false, ◌≡◌, refl, ◌==◌, ◌&&◌, ◌||◌, not, is_some,
}
use tracing_framework.Prelude.KeySet.{KeySet, contains, IsDistinct, add, remove, union}
use tracing_framework.Prelude.Dict.{get, has, put, del, keys, set_at}
use tracing_framework.Report.{Report}
use tracing_framework.KernelGraph.Defs.{
  KernelNode, KernelGraph, kernel_graph, add_nodes, add_node, put_label, link, remove_id,
  remove_node, without, rewire, rewire_all, drop_label, get_labels, get_label_count,
  get_node_ids_for_label,
}
use tracing_framework.KernelGraph.IsWf.{IsWf, edge}
use tracing_framework.KernelGraph.Construct.{ids_of, kernel_graph-IsWf}
use tracing_framework.KernelGraph.Link.{link-IsWf}
use tracing_framework.KernelGraph.Remove.{remove_node_lem, remove_missing}

abbrev no_report : Report
no_report = record {
  event_id = none;
  parent_event_id = none;
  operation = none;
  agent = none;
  process_id = none;
  source = none;
  timestamp = 0;
}

abbrev node : String → String → KernelNode
node id label = record { id = id; label = label; report = no_report }

abbrev three : List KernelNode
three = node "a" "L-1" ∷ node "m" "L-2" ∷ node "b" "L-1" ∷ []

abbrev bare : KernelGraph
bare = kernel_graph "g" three

abbrev path : KernelGraph
path = link (link bare "a" "m") "m" "b"

three-IsDistinct : IsDistinct (ids_of three)
unfolding contains
three-IsDistinct = (refl, (refl, (refl, tt)))

path-IsWf : IsWf path
path-IsWf =
    link-IsWf (link bare "a" "m") "m" "b"
      (link-IsWf bare "a" "m" (kernel_graph-IsWf "g" three three-IsDistinct).0)

path-get_m : get path.nodes "m" ≡ some (node "m" "L-2")
unfolding link kernel_graph add_nodes add_node get put
path-get_m = refl

path-no_loop : edge path "m" "m" ≡ false
unfolding link kernel_graph add_nodes add_node get put contains add
path-no_loop = refl

path-no_z : has path.nodes "z" ≡ false
unfolding link kernel_graph add_nodes add_node get put
path-no_z = refl

abbrev children_of_a : Option KernelGraph → KeySet
children_of_a none = []
children_of_a (some g) = set_at g.children "a"

-- Without `m`, `a` has the child `b`.
remove_run : children_of_a (remove_id path "m") ≡ "b" ∷ []
unfolding link kernel_graph add_nodes add_node put_label get put contains add remove_id remove_node
    without rewire_all rewire drop_label del remove union
remove_run = refl

labels_run : (get_labels path ≡ "L-1" ∷ "L-2" ∷ []) × (get_label_count path "L-1" ≡ 2)
unfolding link kernel_graph add_nodes add_node put_label get put contains add get_labels
    get_label_count get_node_ids_for_label keys
labels_run = (refl, refl)

remove_node_lem_example :
    (g' : KernelGraph) × (remove_id path "m" ≡ some g')
    × IsWf g'
    × ((j : String) → has g'.nodes j ≡ (not ("m" == j) && has path.nodes j))
    × ((p c : String)
        → edge g' p c ≡ (
            not ("m" == p)
            && not ("m" == c)
            && (edge path p c || edge path p "m" && edge path "m" c)))
remove_node_lem_example =
    remove_node_lem path "m" (node "m" "L-2") path-IsWf path-get_m path-no_loop

remove_missing_example :
    (is_some (remove_id path "m") ≡ has path.nodes "m")
    × (remove_node path (node "z" "L-1") ≡ some path)
remove_missing_example = remove_missing path "m" (node "z" "L-1") path-IsWf path-no_z
