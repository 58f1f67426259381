-- ===== src/CriticalPath/Tests.antt =====
-- A run on four reports: c has the parents a and b, of which b is later, and z, which is unknown.
use tracing_framework.Prelude.{
  ℕ, ◌<◌, String, Option, none, some, List, [], ◌∷◌, true, ◌≡◌, refl, arith, eq_iff, ap, get_or,
}
use tracing_framework.Prelude.KeySet.{contains}
use tracing_framework.Prelude.Dict.{get, put}
use tracing_framework.Report.{Report}
use tracing_framework.CriticalPath.Defs.{
  critical_path, walk, next_report, first_known, latest, last_report, report_map,
}
use tracing_framework.CriticalPath.Latest.{PathFrom, critical_path_lem}

abbrev report : String → Option (List String) → ℕ → Report
report id parents timestamp = record {
  event_id = some id;
  parent_event_id = parents;
  operation = none;
  agent = none;
  process_id = none;
  source = none;
  timestamp = timestamp;
}

abbrev root : Report
root = report "r" none 0

abbrev early : Report
early = report "a" (some ("r" ∷ [])) 1

abbrev late : Report
late = report "b" (some ("r" ∷ [])) 2

abbrev final : Report
final = report "c" (some ("a" ∷ "z" ∷ "b" ∷ [])) 3

abbrev trace : List Report
trace = root ∷ early ∷ late ∷ final ∷ []

path_run : critical_path 9 trace none ≡ some (final ∷ late ∷ [])
unfolding critical_path walk next_report first_known latest last_report report_map get put
path_run = refl

-- Timestamps fall from a report to its parents here, so they serve as ranks.
trace-falls :
    (q : String) (a b : Report) (ps : List String) (p : String)
    → get (report_map trace []) q ≡ some a
    → a.parent_event_id ≡ some ps
    → contains p ps ≡ true
    → get (report_map trace []) p ≡ some b
    → b.timestamp < a.timestamp
unfolding report_map get put contains
trace-falls q a b ps p s e i g = ground (
  arith,
  eq_iff "r" q,
  eq_iff "a" q,
  eq_iff "b" q,
  eq_iff "c" q,
  eq_iff "r" p,
  eq_iff "a" p,
  eq_iff "b" p,
  eq_iff "c" p,
  eq_iff "z" p,
  eq_iff "z" "c",
  eq_iff "z" "r",
  eq_iff "z" "a",
  eq_iff "z" "b",
  eq_iff "r" "a",
  eq_iff "r" "b",
  eq_iff "r" "c",
  eq_iff "a" "b",
  eq_iff "a" "c",
  eq_iff "b" "c",
  ap (λ (o : Option (List String)). get_or o []) e,
)

trace-begins :
    (last_report trace ≡ some final)
    × (get (report_map trace []) "c" ≡ some final)
    × (get (report_map trace []) "undefined" ≡ none)
unfolding last_report report_map get put
trace-begins = (refl, refl, refl)

critical_path_lem_example :
    (path : List Report) × (critical_path 4 trace none ≡ some path)
    × PathFrom (report_map trace []) final path
critical_path_lem_example =
    critical_path_lem 4 trace none final (λ r. r.timestamp) trace-begins.0 trace-begins.1
      trace-falls trace-begins.2 (omega arith)
