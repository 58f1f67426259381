-- ===== src/CreateGraph/Tests.antt =====
-- The graph of three reports, the last of which names a parent that has no report.
use tracing_framework.Prelude.{inl, inr, arith, String, none, some, List, [], ◌∷◌, ◌≡◌, refl, ◌&&◌}
use tracing_framework.Prelude.KeySet.{IsDistinct, contains, add}
use tracing_framework.Prelude.Dict.{get, has, put, keys}
use tracing_framework.Report.{Report}
use tracing_framework.Filter.Result.{HaveParents}
use tracing_framework.Graph.Defs.{parents_of, children_of, is_visible, add_child, add_parent}
use tracing_framework.Graph.Visible.{IsLinked}
use tracing_framework.Graph.Links.{IsStored}
use tracing_framework.CreateGraph.Defs.{
  reports_by_id, parent_ids, linked_graph, graph_of, create_nodes, link_nodes, link_node,
  link_parent, modify,
}
use tracing_framework.CreateGraph.Linked.{graph_of_lem}
use tracing_framework.CreateGraph.Named.{has_report, last_parents}

abbrev report : String → List String → Report
report id parents = record {
  event_id = some id;
  parent_event_id = some parents;
  operation = none;
  agent = none;
  process_id = none;
  source = none;
  timestamp = 0;
}

abbrev three : List Report
three = report "a" [] ∷ report "b" ("a" ∷ []) ∷ report "c" ("b" ∷ "gone" ∷ []) ∷ []

graph_run :
    (parents_of (graph_of three) "c" ≡ "b" ∷ []) × (children_of (graph_of three) "a" ≡ "b" ∷ [])
unfolding graph_of reports_by_id create_nodes link_nodes link_node link_parent modify parent_ids
    keys get put contains add add_child add_parent
graph_run = (refl, refl)

three-HaveParents : HaveParents three
three-HaveParents r h = elim h [
  | inl e ↦ ground (arith, e)
  | inr more ↦ elim more [
    | inl e ↦ ground (arith, e)
    | inr last ↦ elim last [ inl e ↦ ground (arith, e) | inr never ↦ absurd never ]
  ]
]

graph_of_lem_example :
    (linked_graph three ≡ some (graph_of three))
    × IsLinked (graph_of three)
    × IsStored (graph_of three)
    × IsDistinct (graph_of three).nodelist
    × ((a : String) → contains a (graph_of three).nodelist ≡ has_report a three)
    × ((a : String) → has (graph_of three).nodes a ≡ has_report a three)
    × ((a : String) → is_visible (graph_of three) a ≡ has_report a three)
    × ((a b : String)
        → contains b (parents_of (graph_of three) a)
          ≡ (contains b (last_parents a three []) && has_report b three))
graph_of_lem_example = graph_of_lem three three-HaveParents
