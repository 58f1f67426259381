-- ===== src/Workload/Tests.antt =====
-- Tests of the workload, on two tasks.
use tracing_framework.Prelude.{ℕ, String, Option, none, some, List, [], ◌∷◌, ◌≡◌, refl}
use tracing_framework.Workload.Times.{whole}
use tracing_framework.Workload.Spans.{WorkReport}
use tracing_framework.Workload.Loads.{GcData, Workload, make_workload}
use tracing_framework.Workload.Collected.{IsCurrent}
use tracing_framework.Workload.Collections.{add_gcs, newest_first, history, add_gc_lem}

-- A report of one thread of a process of a machine.
abbrev report : String → ℕ → Option String → WorkReport whole
report id timestamp operation = record {
  id = id;
  timestamp = timestamp;
  hrt = none;
  operation = operation;
  agent = none;
  duration = some 2000000;
  io = [];
  host = "h";
  process_id = "p";
  thread_id = "t";
  parents = [];
  tags = [];
}

-- A thread that reads, waits and ends.
abbrev reports : List (WorkReport whole)
reports = report "a" 10 none ∷ report "b" 20 (some "waited") ∷ report "c" 25 none ∷ []

abbrev earlier : List (WorkReport whole)
earlier = report "d" 5 none ∷ report "e" 7 none ∷ []

abbrev traces : List (String × List (WorkReport whole))
traces = ("first", reports) ∷ ("second", earlier) ∷ []

abbrev collections : GcData whole
collections = ("p", record { gc_start = 6; gc_duration = 4 } ∷ []) ∷ []

add_gc_lem_example :
    (w : Workload whole) × (make_workload whole traces none ≡ some w)
    × IsCurrent whole
        (newest_first whole (collections ∷ []) (history whole none))
        (add_gcs whole (collections ∷ []) w)
add_gc_lem_example =
    add_gc_lem whole traces none (collections ∷ [])
      ((refl, (refl, (refl, tt))), ((refl, (refl, tt)), tt))
