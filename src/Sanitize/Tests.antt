-- ===== src/Sanitize/Tests.antt =====
-- Runs of `sanitizeReports`: an edge without an id is removed, a root without an id is not.
use tracing_framework.Prelude.{String, Option, none, some, List, [], ◌∷◌, ◌≡◌, refl, inl}
use tracing_framework.Report.{Report}
use tracing_framework.Filter.Result.{Among}
use tracing_framework.Sanitize.{
  sanitize_reports, sanitize_loop, no_edges, no_id, sanitized, expected_reports, expected_roots,
  expected_nameless, state, clear_parents, sanitize_reports_lem,
}

abbrev report : Option String → Option (List String) → Report
report id parents = record {
  event_id = id;
  parent_event_id = parents;
  operation = none;
  agent = none;
  process_id = none;
  source = none;
  timestamp = 0;
}

abbrev root : Report
root = report none none

abbrev three : List Report
three = root ∷ report none (some ("a" ∷ [])) ∷ report (some "b") (some ("a" ∷ [])) ∷ []

sanitize_run :
    sanitize_reports three
    ≡ some (
        state
          (clear_parents root ∷ report (some "b") (some ("a" ∷ [])) ∷ [])
          (clear_parents root ∷ [])
          (report none (some ("a" ∷ [])) ∷ []))
unfolding sanitize_reports sanitize_loop no_edges no_id
sanitize_run = refl

sanitize_reports_lem_example :
    sanitize_reports three
    ≡ some (state (expected_reports three) (expected_roots three) (expected_nameless three))
sanitize_reports_lem_example = sanitize_reports_lem three

root-first : Among (clear_parents root) (sanitized three)
unfolding sanitized no_edges no_id
root-first = inl refl
