-- ===== src/Selectable.antt =====
-- The selection of nodes by clicks, `Selectable` of
-- xtrace/visualization/src/main/resources/webui/html/interactive/js/Selectable.js. The elements that
-- are drawn are named by the ids of their nodes; which of them have the class `selected` is a set.
pub mod Defs
pub mod Anchor
pub mod Within
mod Tests
