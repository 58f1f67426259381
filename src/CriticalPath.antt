-- ===== src/CriticalPath.antt =====
-- `critical_path` of
-- xtrace/visualization/src/main/resources/webui/html/interactive/js/swimlane/criticalpath.js.
-- The loop takes fuel, and is `none` where the fuel runs out.
pub mod Defs
pub mod Latest
pub mod Events
mod Tests
