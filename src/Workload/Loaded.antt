-- ===== src/Workload/Loaded.antt =====
-- What a workload holds after its tasks have been added.
use tracing_framework.Prelude.{ℕ, suc, String, List, ◌≡◌, map, length}
use tracing_framework.Workload.Times.{Times}
use tracing_framework.Workload.Total.{All, total}
use tracing_framework.Workload.Sorting.{IsSorted}
use tracing_framework.Workload.Spans.{WorkReport}
use tracing_framework.Workload.Tasks.{Task, task_start, task_end, min_of, max_of, present}
use tracing_framework.Workload.Counted.{in_task, events_at}
use tracing_framework.Workload.Loads.{Workload, task_before}
use tracing_framework.Workload.Extremes.{IsOrdered, StartsWithin, EndsWithin}

module _ (t : Times) (o : IsOrdered t) where
  abbrev pub Traces : Type 0
  Traces = List (String × List (WorkReport t))

  -- The traces have been loaded: a task for each of them, in the order of their starts, between `min` and
  -- `max`, and with their events.
  pub record IsLoaded (traces : Traces) (w : Workload t) : Type 0 where
    pub ordered : IsSorted (task_before t) w.tasks
    pub starts : All (λ x. StartsWithin t o w.min (task_start t x.1)) w.tasks
    pub ends : All (λ x. EndsWithin t o w.max (task_end t x.1)) w.tasks
    pub size : total (λ x. 1) w.tasks ≡ length traces
    pub events :
        (h p q k : String)
        → total (λ x. in_task t h p q k x.1) w.tasks
          ≡ total (λ r. total (events_at t h p q k) r.1) traces

  -- What `addTask` sets, before the garbage collections.
  abbrev with_tasks : List (ℕ × Task t) → Workload t → Workload t
  with_tasks tasks w = record w {
    added = suc w.added;
    min = min_of t (present t (map (λ x. task_start t x.1) tasks));
    max = max_of t (present t (map (λ x. task_end t x.1) tasks));
    tasks = tasks;
  }
