-- ===== src/Layout/TenantTests.antt =====
-- The layout of three tasks, two of which have the same worker.
use tracing_framework.Prelude.{String, List, [], ◌∷◌, ◌≡◌, ◌==◌, refl, map, length, filter, get_or}
use tracing_framework.Prelude.KeySet.{KeySet}
use tracing_framework.Prelude.Dict.{get, put}
use tracing_framework.Layout.Defs.{lanes_of}
use tracing_framework.Layout.Tenants.{
  worker_of, groupings, per_tenant_layout, IsPlaced, IsFirstWorker, per_tenant_layout_lem,
}
use tracing_framework.Workload.Times.{whole}
use tracing_framework.Workload.Groups.{group_by_from, group_reports_by_field}
use tracing_framework.Workload.Tasks.{Task}

abbrev task : String → KeySet → Task whole
task id tags = record { task_id = id; machines = []; tags = tags }

abbrev tasks : List (Task whole)
tasks =
    task "1" ("slow" ∷ "Worker_a" ∷ []) ∷ task "2" [] ∷ task "3" ("Worker_a" ∷ "Worker_b" ∷ []) ∷ []

groupings_run : map (λ g. length g.1) (groupings whole tasks) ≡ 2 ∷ 1 ∷ []
unfolding group_reports_by_field group_by_from worker_of get put
groupings_run = refl

per_tenant_layout_lem_example :
    IsPlaced (map (λ g. length g.1) (groupings whole tasks)) (per_tenant_layout whole tasks)
    × ((k : String)
        → get_or (get (groupings whole tasks) k) [] ≡ filter (λ x. worker_of x.tags == k) tasks)
    × (length (lanes_of (per_tenant_layout whole tasks).groups) ≡ length tasks)
    × ((x : Task whole) → IsFirstWorker x.tags (worker_of x.tags))
per_tenant_layout_lem_example = per_tenant_layout_lem whole tasks
