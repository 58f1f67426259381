-- ===== src/Cluster/Tests.antt =====
-- Four traces.
use tracing_framework.Prelude.{String, ℕ, ◌+◌, ◌<◌, ◌≤◌, List, [], ◌∷◌, ◌≡◌, refl, arith, length}
use tracing_framework.Prelude.KeySet.{contains, IsDistinct}
use tracing_framework.Cluster.Defs.{compare_pair, terminate, Edge, give_task, progress}
use tracing_framework.Cluster.Tasks.{task_after, pairs, give_task_lem}
use tracing_framework.Cluster.Edges.{is_end, IsAt, answered, kicked_off, answered_lem}

third_task : task_after 4 3 ≡ compare_pair 3 0
unfolding give_task progress
third_task = refl

give_task_lem_example :
    ((i j : ℕ) → j < i → i < 4 → task_after 4 (pairs i + j) ≡ compare_pair i j)
    × ((k i j : ℕ) → task_after 4 k ≡ compare_pair i j → k ≡ pairs i + j)
    × ((k : ℕ) → pairs 4 ≤ k → task_after 4 k ≡ terminate)
give_task_lem_example = give_task_lem 4 (omega arith)

abbrev answers : List Edge
answers =
    record { source = "b"; target = "a"; score = record { top = 1; over = 2 } }
    ∷ record { source = "c"; target = "a"; score = record { top = 1; over = 3 } }
    ∷ []

answered_lem_example :
    ((answered answers (kicked_off 4)).edges ≡ answers)
    × ((k : String) → contains k (answered answers (kicked_off 4)).nodes ≡ is_end k answers)
    × IsDistinct (answered answers (kicked_off 4)).nodes
    × IsAt 4 (length answers + 1) (answered answers (kicked_off 4)).state
answered_lem_example = answered_lem 4 answers (omega arith)

abbrev scored_edges : List Edge
scored_edges =
    record { source = "a"; target = "b"; score = record { top = 1; over = 2 } }
    ∷ record { source = "a"; target = "c"; score = record { top = 3; over = 4 } }
    ∷ []
