-- ===== src/Layout.antt =====
-- The vertical layout of the swimlanes, VizLane.js, VizGroup.js and VizLayout.js of
-- xtrace/visualization/src/main/resources/webui/html/interactive/js/swimlane/data.
pub mod Defs
pub mod Apart
pub mod Tenants
mod Tests
mod TenantTests
