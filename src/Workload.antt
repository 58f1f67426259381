-- ===== src/Workload.antt =====
-- The workload that the swimlane page draws, `Workload`, `XTask`, `XMachine`, `XProcess`, `XThread`,
-- `XSpan`, `XEvent` and `GCEvent` of
-- xtrace/visualization/src/main/resources/webui/html/interactive/js/swimlane/data/Workload.js. The ids and
-- names that only label what is drawn, and the links from an object up to its owner, are left out.
pub mod Times
pub mod Total
pub mod Sorting
pub mod Groups
pub mod Spans
pub mod Events
pub mod Tasks
pub mod Counted
pub mod Loads
pub mod Extremes
pub mod Unchanged
pub mod Loaded
pub mod Collected
pub mod Collections
mod Tests
