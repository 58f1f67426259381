-- ===== src/KernelGraph.antt =====
-- The labelled graph on which the graph kernels run, `KernelNode` and `KernelGraph` of
-- xtrace/visualization/src/main/resources/webui/html/interactive/js/kernels/KernelGraph.js.
-- The four private maps of the constructor are the fields of a record, and each method returns
-- the new record. `none` stands for a TypeError.
pub mod Defs
pub mod IsWf
pub mod Labels
pub mod Construct
pub mod Link
pub mod Rewire
pub mod Remove
pub mod Relabel
pub mod Clone
pub mod FromJson
pub mod Merges
mod Tests
mod JsonTests
