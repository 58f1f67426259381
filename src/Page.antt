-- ===== src/Page.antt =====
-- The page of a trace's graph, `XTraceDAG` of
-- xtrace/visualization/src/main/resources/webui/html/interactive/js/xtrace_graph.js, with the drawing of
-- DirectedAcyclicGraph.js as far as it decides which elements there are. An element is named by the id of
-- its node, or by the ids at the ends of its edge; a class on elements is the set of those that have it.
-- Elements that are taken out are gone at once, as they are where nothing is animated.
pub mod Defs
pub mod Drawn
pub mod Session
pub mod Highlight
mod Tests
