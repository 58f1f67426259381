-- ===== src/Cluster/Defs.antt =====
-- The tasks for the worker, and the edges and nodes that its answers add.
use tracing_framework.Prelude.{
  ◌>>=◌, ℕ, zero, suc, String, Option, none, some, List, [], ◌∷◌, ◌++◌, if◌then◌else◌, nat_eq, ltb,
}
use tracing_framework.Prelude.KeySet.{KeySet, add}
use tracing_framework.KernelGraph.Defs.{KernelGraph}
use tracing_framework.Kernel.Defs.{Fraction}

-- What the page posts to a worker.
pub data Task : Type 0 where
  compare_pair : ℕ → ℕ → Task
  terminate : Task

-- The variables `i` and `j` of `giveTaskToWorker`.
pub record Progress : Type 0 where
  pub i : ℕ
  pub j : ℕ

abbrev pub first_pair : Progress
first_pair = record { i = 1; j = 0 }

unfoldable pub progress : Progress → Progress
progress s =
    let next = suc s.j in
    if nat_eq s.i next then record { i = suc s.i; j = 0 } else record { i = s.i; j = next }

-- The task, and the new state, for `n` traces.
unfoldable pub give_task : ℕ → Progress → Task × Progress
give_task n s = if ltb s.i n then (compare_pair s.i s.j, progress s) else (terminate, s)

pub record Edge : Type 0 where
  pub source : String
  pub target : String
  pub score : Fraction

pub record ClusterPage : Type 0 where
  pub traces : ℕ
  pub state : Progress
  pub edges : List Edge
  pub nodes : KeySet

-- A new page; its first worker gets a task at once.
abbrev pub new_page : ℕ → ClusterPage
new_page n = record { traces = n; state = first_pair; edges = []; nodes = [] }

-- `workerOnMessage` gives the worker its next task, and adds the edge and its ends.
unfoldable pub worker_on_message : Edge → ClusterPage → Task × ClusterPage
worker_on_message edge s =
    let (task, state) = give_task s.traces s.state in
    (
      task,
      record s {
        state = state;
        edges = s.edges ++ edge ∷ [];
        nodes = add edge.target (add edge.source s.nodes);
      },
    )

unfoldable pub graph_at : ℕ → List KernelGraph → Option KernelGraph
graph_at k [] = none
graph_at zero (g ∷ gs) = some g
graph_at (suc k) (g ∷ gs) = graph_at k gs

-- `oncalculate`, where `calculate` is the kernel's, and changes its state.
unfoldable pub on_calculate :
    {S : Type 0}
    → (KernelGraph → KernelGraph → S → Option (Fraction × S))
    → List KernelGraph
    → ℕ
    → ℕ
    → S
    → Option (Edge × S)
on_calculate calculate graphs i j s = do
  a ← graph_at i graphs
  b ← graph_at j graphs
  (score, s') ← calculate a b s
  some (record { source = a.id; target = b.id; score = score }, s')
