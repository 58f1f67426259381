-- ===== src/CreateGraph.antt =====
-- `createGraphFromReports` of
-- xtrace/visualization/src/main/resources/webui/html/interactive/js/xtrace_utils.js: from the reports
-- that the server sends to the graph that the page draws.
pub mod Defs
pub mod Named
pub mod Linked
pub mod ToJson
mod Tests
