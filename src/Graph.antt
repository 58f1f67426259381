-- ===== src/Graph.antt =====
-- The graph of reports that the page draws, `Node` and `Graph` of
-- xtrace/visualization/src/main/resources/webui/html/interactive/js/Graph.js.
-- A node object is named by its id, and `nodes` of a graph is also the store of the node objects:
-- the page creates one node for an id and adds all its nodes to the graph. The maps `child_nodes` and
-- `parent_nodes` of a node are then sets of ids. A recursion over the graph takes fuel, and is `none`
-- where the fuel runs out; `Graph.Ends` has the fuel that suffices.
pub mod Defs
pub mod Explore
pub mod Ends
pub mod Exact
mod Chain
pub mod Visible
pub mod Duality
pub mod Links
pub mod Trail
pub mod Covers
pub mod PathExact
pub mod EntirePath
pub mod Between
pub mod BetweenLem
mod Tests
