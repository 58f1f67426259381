-- ===== src/Compare.antt =====
-- The page that compares two traces, xtrace_compare.js of
-- xtrace/visualization/src/main/resources/webui/html/interactive/js: the scores that the stability of the nodes
-- gives to the reports. The drawing of the two graphs is left out.
pub mod Fractions
pub mod Defs
pub mod Scores
mod Tests
