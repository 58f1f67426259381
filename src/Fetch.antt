-- ===== src/Fetch.antt =====
-- `getReports` of xtrace/visualization/src/main/resources/webui/html/interactive/js/xtrace_utils.js:
-- two chains of requests, one in batches to the server and one file by file, whose answers come in
-- any order. The requests themselves are the browser's: a step is an answer, of any content, to a
-- request that waits. The id that is written into the single trace of a file is part of that content; a
-- failed request is no step. The lists of ids are globals of the page: the model is of one call, while no
-- other runs.
pub mod Defs
pub mod Once
pub mod Ends
pub mod Live
pub mod Asked
pub mod Gc
mod Tests
