-- ===== src/Workload/Tasks.antt =====
-- Processes, machines and tasks, which group the reports, and the workload.
use tracing_framework.Prelude.{
  ◌>>=◌, String, Option, none, some, List, [], ◌∷◌, Bool, true, false, if◌then◌else◌, map, length,
  get_or,
}
use tracing_framework.Prelude.KeySet.{KeySet, add}
use tracing_framework.Workload.Times.{Times}
use tracing_framework.Workload.Total.{all_some}
use tracing_framework.Workload.Sorting.{sort}
use tracing_framework.Workload.Groups.{group_reports_by_field}
use tracing_framework.Workload.Spans.{WorkReport, Thread, make_thread}

module _ (t : Times) where
  abbrev pub least : t.Time → Option t.Time → Option t.Time
  least x none = some x
  least x (some y) = if t.at_most x y then some x else some y

  abbrev pub greatest : t.Time → Option t.Time → Option t.Time
  greatest x none = some x
  greatest x (some y) = if t.at_most y x then some x else some y

  -- `Math.min` and `Math.max` of a list; `none` is the infinity of an empty one.
  unfoldable pub min_of : List t.Time → Option t.Time
  min_of [] = none
  min_of (x ∷ xs) = least x (min_of xs)

  unfoldable pub max_of : List t.Time → Option t.Time
  max_of [] = none
  max_of (x ∷ xs) = greatest x (max_of xs)

  -- `min_of` and `max_of` of what is there, for objects that may be empty.
  abbrev pub present : List (Option t.Time) → List t.Time
  present [] = []
  present (none ∷ xs) = present xs
  present (some x ∷ xs) = x ∷ present xs

  -- A comparison by `Start()`, infinite for an empty object.
  abbrev pub starts_before : Option t.Time → Option t.Time → Bool
  starts_before _ none = true
  starts_before none (some b) = false
  starts_before (some a) (some b) = t.at_most a b

  abbrev pub thread_start : Thread t → Option t.Time
  thread_start th = min_of (map (λ s. s.start) th.spans)

  abbrev pub thread_end : Thread t → Option t.Time
  thread_end th = max_of (map (λ s. s.end) th.spans)

  pub record GcEvent : Type 0 where
    pub start : t.Time
    pub duration : t.Time
    pub end : t.Time

  pub record Process : Type 0 where
    pub process_id : String
    pub threads : List (Thread t)
    pub gcevents : List GcEvent

  abbrev pub process_start : Process → Option t.Time
  process_start p = min_of (present (map thread_start p.threads))

  abbrev pub process_end : Process → Option t.Time
  process_end p = max_of (present (map thread_end p.threads))

  -- `Number(report.HRT)`
  abbrev pub hrt_of : WorkReport t → t.Time
  hrt_of r = get_or r.hrt t.not_a_number

  abbrev pub sum_of : t.Time → List t.Time → t.Time
  sum_of acc [] = acc
  sum_of acc (x ∷ xs) = sum_of (t.plus acc x) xs

  -- `total / count`, of the sum from 0.0 on
  unfoldable pub average : List t.Time → t.Time
  average xs = t.over (sum_of (t.of_count 0) xs) (length xs)

  -- The timestamp by the high resolution time.
  abbrev pub moved : t.Time → t.Time → WorkReport t → WorkReport t
  moved mean_ts mean_hrt r = record r {
    timestamp = t.plus mean_ts (t.over (t.minus (hrt_of r) mean_hrt) 1000000);
  }

  -- Where the first report has a high resolution time, all get theirs, moved to the mean of the timestamps.
  unfoldable pub refine : List (WorkReport t) → List (WorkReport t)
  refine [] = []
  refine (r ∷ rs) = elim r.hrt [
    | none ↦ r ∷ rs
    | some _ ↦
        let mean_ts = average (map (λ x. x.timestamp) (r ∷ rs)) in
        let mean_hrt = average (map hrt_of (r ∷ rs)) in map (moved mean_ts mean_hrt) (r ∷ rs)
  ]

  -- `new XProcess`
  unfoldable pub make_process : String → List (WorkReport t) → Option Process
  make_process id reports = do
    let by_thread = group_reports_by_field (λ r. r.thread_id) (refine reports)
    threads ← all_some (λ g. make_thread t g.0 g.1) by_thread
    some (record {
      process_id = id;
      threads = sort (λ a b. starts_before (thread_start a) (thread_start b)) threads;
      gcevents = [];
    })

  pub record Machine : Type 0 where
    pub machine_id : String
    pub processes : List Process

  abbrev pub machine_start : Machine → Option t.Time
  machine_start m = min_of (present (map process_start m.processes))

  abbrev pub machine_end : Machine → Option t.Time
  machine_end m = max_of (present (map process_end m.processes))

  -- `new XMachine`
  unfoldable pub make_machine : String → List (WorkReport t) → Option Machine
  make_machine id reports = do
    processes ←
        all_some (λ g. make_process g.0 g.1) (group_reports_by_field (λ r. r.process_id) reports)
    some (record {
      machine_id = id;
      processes = sort (λ a b. starts_before (process_start a) (process_start b)) processes;
    })

  unfoldable pub add_tags : List String → KeySet → KeySet
  add_tags [] tags = tags
  add_tags (x ∷ xs) tags = add_tags xs (add x tags)

  unfoldable pub tags_of : List (WorkReport t) → KeySet → KeySet
  tags_of [] tags = tags
  tags_of (r ∷ rs) tags = tags_of rs (add_tags r.tags tags)

  pub record Task : Type 0 where
    pub task_id : String
    pub machines : List Machine
    pub tags : KeySet

  abbrev pub task_start : Task → Option t.Time
  task_start k = min_of (present (map machine_start k.machines))

  abbrev pub task_end : Task → Option t.Time
  task_end k = max_of (present (map machine_end k.machines))

  -- `new XTask`
  unfoldable pub make_task : String → List (WorkReport t) → Option Task
  make_task id reports = do
    machines ← all_some (λ g. make_machine g.0 g.1) (group_reports_by_field (λ r. r.host) reports)
    some (record {
      task_id = id;
      machines = sort (λ a b. starts_before (machine_start a) (machine_start b)) machines;
      tags = tags_of reports [];
    })
