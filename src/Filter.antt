-- ===== src/Filter.antt =====
-- The filters on reports, `filter_reports` and its callers in
-- xtrace/visualization/src/main/resources/webui/html/interactive/js/xtrace_utils.js.
-- A report object is named by its position in the array, so that the three maps of `filter_reports`
-- may share it, and the store holds the field that is changed in place, its parents.
-- `remap_parents` calls itself on the parents that were removed, before it marks a report: on a cycle
-- of removed reports it never returns. It takes fuel, and `none` is a call that does not return a
-- value: the fuel ran out, or a field of `undefined` was read.
pub mod Defs
mod Maps
mod Remap
pub mod Result
pub mod Merge
mod Tests
