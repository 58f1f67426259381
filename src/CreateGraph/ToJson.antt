-- ===== src/CreateGraph/ToJson.antt =====
-- `createJSONFromVisibleGraph`: the reports of the visible nodes, with their visible parents.
use tracing_framework.Prelude.{◌>>=◌, String, Option, none, some, List, [], ◌∷◌}
use tracing_framework.Prelude.Dict.{Dict, get}
use tracing_framework.Report.{Report}
use tracing_framework.Graph.Defs.{Graph, get_visible_nodes}
use tracing_framework.Graph.Visible.{get_visible_parents}

-- `$.extend({}, node.report)`, where a node without a report gives an empty object.
unfoldable pub copy_report : Option Report → Report
copy_report (some r) = r
copy_report none = record {
  event_id = none;
  parent_event_id = none;
  operation = none;
  agent = none;
  process_id = none;
  source = none;
  timestamp = 0;
}

-- The field `report` of each node is in `reports`, by the node's id.
unfoldable pub visible_reports : Graph → Dict Report → List String → Option (List Report)
visible_reports g reports [] = some []
visible_reports g reports (id ∷ ids) = do
  parents ← get_visible_parents g id
  rest ← visible_reports g reports ids
  some (record (copy_report (get reports id)) { parent_event_id = some parents } ∷ rest)

unfoldable pub create_json_from_visible_graph : Graph → Dict Report → Option (List Report)
create_json_from_visible_graph g reports = visible_reports g reports (get_visible_nodes g)
