-- ===== src/CriticalPath/Events.antt =====
-- `filter_criticalpath_events`: the events of the critical path of the latest event.
use tracing_framework.Prelude.{
  ◌>>=◌, ℕ, ◌≤◌, String, Option, none, some, List, [], ◌∷◌, map, filter, if◌then◌else◌, ltb, arith,
}
use tracing_framework.Prelude.KeySet.{KeySet, contains, add}
use tracing_framework.Report.{Report, as_key}
use tracing_framework.CriticalPath.Defs.{critical_path}

-- The fields of a swimlane event that are read here.
pub record SwimlaneEvent : Type 0 where
  pub id : String
  pub timestamp : ℕ
  pub report : Report

unfoldable pub final_event : List SwimlaneEvent → SwimlaneEvent → SwimlaneEvent
final_event [] final = final
final_event (e ∷ es) final = final_event es (if ltb final.timestamp e.timestamp then e else final)

-- `oncpath`
unfoldable pub on_path : List Report → KeySet → KeySet
on_path [] ids = ids
on_path (r ∷ rs) ids = on_path rs (add (as_key r.event_id) ids)

-- Without an event, `finalevent.report` raises a TypeError.
unfoldable pub filter_criticalpath_events : ℕ → List SwimlaneEvent → Option (List SwimlaneEvent)
filter_criticalpath_events fuel [] = none
filter_criticalpath_events fuel (e ∷ events) = do
  let final = final_event (e ∷ events) e
  cpath ← critical_path fuel (map (λ x. x.report) (e ∷ events)) (some final.report)
  some (filter (λ x. contains x.id (on_path cpath [])) (e ∷ events))

abbrev AllBefore : ℕ → List SwimlaneEvent → Type 0
AllBefore t [] = Unit
AllBefore t (e ∷ es) = (e.timestamp ≤ t) × AllBefore t es

-- No event is later than the final one.
final_event-latest :
    (es : List SwimlaneEvent) (e : SwimlaneEvent)
    → (e.timestamp ≤ (final_event es e).timestamp) × AllBefore (final_event es e).timestamp es
unfolding final_event
final_event-latest [] e = (omega arith, tt)
final_event-latest (f ∷ es) e =
    let next = if ltb e.timestamp f.timestamp then f else e in
    let (first, others) = final_event-latest es next in
    (ground (arith, first), (ground (arith, first), others))
