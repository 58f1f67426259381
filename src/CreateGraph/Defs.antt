-- ===== src/CreateGraph/Defs.antt =====
-- The steps of `createGraphFromReports`. The field `report` of a node, which the linking reads, is
-- kept in a map of its own, so that nodes stay those of Graph.js.
use tracing_framework.Prelude.{
  is_some, ℕ, String, Option, none, some, List, [], ◌∷◌, Bool, true, false, if◌then◌else◌, get_or,
}
use tracing_framework.Prelude.KeySet.{KeySet}
use tracing_framework.Prelude.Dict.{Dict, get, has, put, keys}
use tracing_framework.Report.{Report}
use tracing_framework.Graph.Defs.{Node, new_node, add_child, add_parent, Graph}
use tracing_framework.Filter.Merge.{
  filter_agent_reports, filter_merge_reports, filter_yarnchild_reports,
}

-- The options of the page that are read here.
pub record Params : Type 0 where
  pub hideagent : Option String
  pub mapreduceonly : Bool

-- `nodes[id].report`: a report with no id is passed over, a later report of an id wins.
unfoldable pub reports_by_id : List Report → Dict Report → Dict Report
reports_by_id [] d = d
reports_by_id (r ∷ rs) d = reports_by_id rs (elim r.event_id [ none ↦ d | some id ↦ put id r d ])

unfoldable pub create_nodes : KeySet → Dict Node → Dict Node
create_nodes [] d = d
create_nodes (id ∷ ids) d = create_nodes ids (put id (new_node id) d)

unfoldable pub modify : String → (Node → Node) → Dict Node → Dict Node
modify k f d = elim (get d k) [ none ↦ d | some n ↦ put k (f n) d ]

-- The body of the inner loop: `nodes[pid].addChild(node); node.addParent(nodes[pid])`.
unfoldable pub link_parent : String → String → Dict Node → Dict Node
link_parent id pid d =
    if has d pid
    then modify id (add_parent (new_node pid)) (modify pid (add_child (new_node id)) d)
    else d

unfoldable pub link_node : String → KeySet → Dict Node → Dict Node
link_node id [] d = d
link_node id (pid ∷ pids) d = link_node id pids (link_parent id pid d)

-- `node.report["ParentEventID"]`; where the field is missing, `parents_present` is false, and no graph is
-- built.
unfoldable pub parent_ids : Dict Report → String → KeySet
parent_ids reports id = elim (get reports id) [ none ↦ [] | some r ↦ get_or r.parent_event_id [] ]

unfoldable pub link_nodes : Dict Report → KeySet → Dict Node → Dict Node
link_nodes reports [] d = d
link_nodes reports (id ∷ ids) d = link_nodes reports ids (link_node id (parent_ids reports id) d)

-- The nodes of the graph, from reports that have been filtered.
unfoldable pub graph_of : List Report → Graph
graph_of rs =
    let reports = reports_by_id rs [] in
    let ids = keys reports in
    record { nodelist = ids; nodes = link_nodes reports ids (create_nodes ids []) }

-- Whether each node's report has the field, which the loop goes over.
unfoldable pub parents_present : Dict Report → KeySet → Bool
parents_present reports [] = true
parents_present reports (id ∷ ids) =
    let rest = parents_present reports ids in
    elim (get reports id) [
      | none ↦ false
      | some r ↦ if is_some r.parent_event_id then rest else false
    ]

-- The graph, or the TypeError of a report without the field.
unfoldable pub linked_graph : List Report → Option Graph
linked_graph rs =
    let reports = reports_by_id rs [] in
    if parents_present reports (keys reports) then some (graph_of rs) else none

-- The filters that the options ask for, in the order of the source.
unfoldable pub hide_agent : ℕ → Option String → List Report → Option (List Report)
hide_agent fuel none rs = some rs
hide_agent fuel (some agent) rs = filter_agent_reports fuel rs agent

unfoldable pub create_graph : ℕ → Params → List Report → Option Graph
create_graph fuel params rs = elim (hide_agent fuel params.hideagent rs) [
  | none ↦ none
  | some shown ↦ elim (filter_merge_reports fuel shown) [
    | none ↦ none
    | some merged ↦ elim params.mapreduceonly [
      | false ↦ linked_graph merged
      | true ↦ elim (filter_yarnchild_reports fuel merged) [
        | none ↦ none
        | some kept ↦ linked_graph kept
      ]
    ]
  ]
]
