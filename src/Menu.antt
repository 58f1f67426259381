-- ===== src/Menu.antt =====
-- The context menus of
-- xtrace/visualization/src/main/resources/webui/html/interactive/js/ContextMenu.js: which options a
-- node's menu offers, and what a click on one hides or selects. A report is the map of its fields.
-- The handlers of the page get the effect of a click, and the nodes that an option previews.
pub mod Defs
pub mod Preview
pub mod Offer
pub mod Compare
mod Tests
