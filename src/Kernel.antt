-- ===== src/Kernel.antt =====
-- The comparison of two kernel graphs, `NodeCountKernel` and `dotProduct` of
-- xtrace/visualization/src/main/resources/webui/html/interactive/js/kernels/NodeCountKernel.js,
-- and the rounds of WeisfeilerLehmanKernel.js in the same directory.
-- A score is a fraction, of a numerator and a denominator that the code divides at the end.
pub mod Defs
pub mod Sets
pub mod Count
pub mod NodeCount
pub mod Rounds
pub mod Numbers
pub mod Agree
pub mod Stability
pub mod Bounded
mod Tests
mod RoundTests
