-- ===== src/Retro.antt =====
-- The time series of resource usage, and the sets of them that a page displays, of
-- retro/visualization/src/main/resources/webui/js/Data.js and FilterDataSet.js. Times are whole
-- milliseconds. What is used is of any type with a zero, sums and quotients, for the pages measure it in
-- floating-point numbers of many units.
pub mod Amount
pub mod Series
pub mod Steps
pub mod Prune
pub mod Reports
pub mod DataSet
pub mod Collect
pub mod Sums
pub mod Recent
pub mod Current
pub mod Chosen
pub mod Session
mod Tests
