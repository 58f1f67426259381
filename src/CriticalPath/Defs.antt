-- ===== src/CriticalPath/Defs.antt =====
-- The walk from the last report along the latest parents.
use tracing_framework.Prelude.{
  ℕ, zero, suc, String, Option, none, some, List, [], ◌∷◌, if◌then◌else◌, ltb,
}
use mathlib.Core.Option
use tracing_framework.Prelude.Dict.{Dict, get, put}
use tracing_framework.Report.{Report, as_key}

-- `reportmap`
unfoldable pub report_map : List Report → Dict Report → Dict Report
report_map [] d = d
report_map (r ∷ rs) d = report_map rs (put (as_key r.event_id) r d)

unfoldable pub first_known : Dict Report → List String → Option Report
first_known d [] = none
first_known d (p ∷ ps) =
    let rest = first_known d ps in elim (get d p) [ none ↦ rest | some r ↦ some r ]

-- The last loop of the body, over the parents from the second on.
unfoldable pub latest : Dict Report → List String → Report → Report
latest d [] next = next
latest d (p ∷ ps) next = elim (get d p) [
  | none ↦ latest d ps next
  | some candidate ↦
      latest d ps (if ltb next.timestamp candidate.timestamp then candidate else next)
]

-- The body of the `while`, after the push: without a first parent `undefined` is looked up.
unfoldable pub next_report : Dict Report → List String → Option Report
next_report d [] = get d (as_key none)
next_report d (p ∷ ps) = Option.map (latest d ps) (first_known d (p ∷ ps))

unfoldable pub walk : ℕ → Dict Report → Option Report → Option (List Report)
walk fuel d none = some []
walk zero d (some next) = none
walk (suc fuel) d (some next) = elim next.parent_event_id [
  | none ↦ some []
  | some parents ↦ Option.map (λ cpath. next ∷ cpath) (walk fuel d (next_report d parents))
]

-- `reports[reports.length-1]`
unfoldable pub last_report : List Report → Option Report
last_report [] = none
last_report (r ∷ []) = some r
last_report (r ∷ s ∷ rs) = last_report (s ∷ rs)

unfoldable pub critical_path : ℕ → List Report → Option Report → Option (List Report)
critical_path fuel reports none = walk fuel (report_map reports []) (last_report reports)
critical_path fuel reports (some finalreport) = walk fuel (report_map reports []) (some finalreport)
