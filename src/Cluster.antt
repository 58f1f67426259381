-- ===== src/Cluster.antt =====
-- The page that compares all traces with each other, `XTraceClusterViz` of
-- xtrace/visualization/src/main/resources/webui/html/interactive/js/xtrace_cluster.js, and what the
-- worker of kernels/KernelWorker.js answers.
pub mod Defs
pub mod Tasks
pub mod Edges
pub mod Weights
mod Tests
