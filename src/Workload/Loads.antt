-- ===== src/Workload/Loads.antt =====
-- `Workload`, and the garbage collections of its processes. A task is known by the number of tasks that
-- were added before it, and the cached result of `Processes()` by the tasks whose processes it has.
use tracing_framework.Prelude.{
  ◌>>=◌, ℕ, suc, String, Option, none, some, List, [], ◌∷◌, ◌++◌, Bool, true, false, if◌then◌else◌,
  map, filter, ◌&&◌, not, nat_eq,
}
use tracing_framework.Prelude.Dict.{Dict, get}
use tracing_framework.Workload.Times.{Times}
use tracing_framework.Workload.Sorting.{sort}
use tracing_framework.Workload.Spans.{WorkReport}
use tracing_framework.Workload.Tasks.{
  GcEvent, Process, Machine, Task, process_start, process_end, task_start, task_end, starts_before,
  min_of, max_of, present, make_task,
}

module _ (t : Times) where
  pub record GcReport : Type 0 where
    pub gc_start : t.Time
    pub gc_duration : t.Time

  abbrev pub GcData : Type 0
  GcData = Dict (List GcReport)

  -- `new GCEvent`
  unfoldable pub make_gc : GcReport → GcEvent t
  make_gc r =
      let start = t.plus r.gc_start (t.of_count 1) in
      let duration = t.minus r.gc_duration (t.of_count 1) in
      record { start = start; duration = duration; end = t.plus start duration }

  -- `a <= b` where `b` is infinite if it is not there
  abbrev pub at_most_end : t.Time → Option t.Time → Bool
  at_most_end a none = false
  at_most_end a (some b) = t.at_most a b

  abbrev pub at_least_start : t.Time → Option t.Time → Bool
  at_least_start a none = false
  at_least_start a (some b) = t.at_most b a

  unfoldable pub in_process_time : Process t → GcEvent t → Bool
  in_process_time p e =
      at_most_end e.start (process_end t p)
      && at_least_start e.end (process_start t p)
      && not (t.at_most e.duration (t.of_count 0))

  -- `process.addGCData(gcdata)`
  unfoldable pub add_gc_data : GcData → Process t → Process t
  add_gc_data gcdata p = elim (get gcdata p.process_id) [
    | none ↦ p
    | some rs ↦ record p { gcevents = filter (in_process_time p) (map make_gc rs) }
  ]

  -- `task.Processes().forEach(...)`
  abbrev pub add_gc_machine : GcData → Machine t → Machine t
  add_gc_machine gcdata m = record m { processes = map (add_gc_data gcdata) m.processes }

  abbrev pub add_gc_task : GcData → Task t → Task t
  add_gc_task gcdata x = record x { machines = map (add_gc_machine gcdata) x.machines }

  pub record Workload : Type 0 where
    pub tasks : List (ℕ × Task t)
    pub added : ℕ
    pub gcdata : Option GcData
    pub min : Option t.Time
    pub max : Option t.Time
    pub processes : Option (List ℕ)

  abbrev pub empty_workload : Option GcData → Workload
  empty_workload gcdata = record {
    tasks = [];
    added = 0;
    gcdata = gcdata;
    min = none;
    max = none;
    processes = none;
  }

  abbrev pub task_before : ℕ × Task t → ℕ × Task t → Bool
  task_before a b = starts_before t (task_start t a.1) (task_start t b.1)

  abbrev pub has_number : ℕ → List ℕ → Bool
  has_number n [] = false
  has_number n (m ∷ ms) = if nat_eq m n then true else has_number n ms

  -- The processes of some tasks get the data.
  unfoldable pub add_gc_tasks : GcData → List ℕ → List (ℕ × Task t) → List (ℕ × Task t)
  add_gc_tasks gcdata ns [] = []
  add_gc_tasks gcdata ns ((n, x) ∷ xs) =
      (n, if has_number n ns then add_gc_task gcdata x else x) ∷ add_gc_tasks gcdata ns xs

  abbrev pub gc_if : Option GcData → List ℕ → List (ℕ × Task t) → List (ℕ × Task t)
  gc_if none ns xs = xs
  gc_if (some gcdata) ns xs = add_gc_tasks gcdata ns xs

  abbrev pub numbers : List (ℕ × Task t) → List ℕ
  numbers [] = []
  numbers ((n, x) ∷ xs) = n ∷ numbers xs

  -- `addTask`, from the new task on
  abbrev pub added_task : Task t → Workload → Workload
  added_task task w =
      let tasks = sort task_before (w.tasks ++ (w.added, task) ∷ []) in
      record w {
        added = suc w.added;
        min = min_of t (present t (map (λ x. task_start t x.1) tasks));
        max = max_of t (present t (map (λ x. task_end t x.1) tasks));
        tasks = gc_if w.gcdata (w.added ∷ []) tasks;
      }

  unfoldable pub add_task : String → List (WorkReport t) → Workload → Option Workload
  add_task id reports w = do task ← make_task t id reports; some (added_task task w)

  unfoldable pub add_tasks : List (String × List (WorkReport t)) → Workload → Option Workload
  add_tasks [] w = some w
  add_tasks ((id, reports) ∷ more) w = do w' ← add_task id reports w; add_tasks more w'

  -- `new Workload(data, gcdata)`
  unfoldable pub make_workload :
      List (String × List (WorkReport t)) → Option GcData → Option Workload
  make_workload traces gcdata = add_tasks traces (empty_workload gcdata)

  -- `this.Processes()`, computed at the first call and kept; `addTask` does not forget it.
  unfoldable pub call_processes : Workload → List ℕ × Workload
  call_processes w = elim w.processes [
    | some ns ↦ (ns, w)
    | none ↦ (numbers w.tasks, record w { processes = some (numbers w.tasks) })
  ]

  -- `addGC`
  unfoldable pub add_gc : GcData → Workload → Workload
  add_gc gcdata w =
      let (ns, w') = call_processes (record w { gcdata = some gcdata }) in
      record w' { tasks = add_gc_tasks gcdata ns w'.tasks }
