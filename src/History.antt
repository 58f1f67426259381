-- ===== src/History.antt =====
-- The history of hidden selections,
-- xtrace/visualization/src/main/resources/webui/html/interactive/js/History.js.
pub mod Defs
pub mod Visibility
mod Tests
