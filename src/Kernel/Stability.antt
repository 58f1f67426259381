-- ===== src/Kernel/Stability.antt =====
-- `calculate_node_stability` of kernels/WeisfeilerLehmanKernel.js.
use tracing_framework.Prelude.{
  ◌>>=◌, ℕ, zero, suc, ◌+◌, ◌*◌, String, Option, some, List, [], ◌∷◌, ◌++◌, if◌then◌else◌, ltb,
}
use tracing_framework.Prelude.Dict.{Dict, get, put}
use tracing_framework.KernelGraph.Defs.{
  KernelGraph, get_node_ids, get_labels, get_label_count, get_node_ids_for_label,
}
use tracing_framework.Kernel.Defs.{Fraction}
use tracing_framework.Kernel.Rounds.{Generator, Direction, add_fraction, relabel_graph}

-- `labels_a` and `scores_a`
pub record Stability : Type 0 where
  pub labels : Dict (List String)
  pub scores : Dict Fraction

unfoldable pub init_stability : List String → Stability → Stability
init_stability [] s = s
init_stability (id ∷ ids) s =
    init_stability ids record {
      labels = put id [] s.labels;
      scores = put id (record { top = 0; over = 1 }) s.scores;
    }

-- `score>0 ? 0.5+0.5*score : 0`
abbrev pub half_up : Fraction → Fraction
half_up f = elim f.top [
  | zero ↦ record { top = 0; over = 1 }
  | suc n ↦ record { top = f.over + f.top; over = 2 * f.over }
]

-- The quotient of the counts, or its inverse if it is more than 1.
abbrev pub count_ratio : ℕ → ℕ → Fraction
count_ratio other own =
    if ltb own other then record { top = own; over = other } else record { top = other; over = own }

-- `labels_a[id].push(label); scores_a[id] += ...`
unfoldable pub score_nodes : String → Fraction → List String → Stability → Option Stability
score_nodes label share [] s = some s
score_nodes label share (id ∷ ids) s = do
  labels ← get s.labels id
  score ← get s.scores id
  score_nodes label share ids record {
    labels = put id (labels ++ label ∷ []) s.labels;
    scores = put id (add_fraction score share) s.scores;
  }

-- The labels of the graph `own`, compared with `other`.
unfoldable pub score_labels : KernelGraph → KernelGraph → List String → Stability → Option Stability
score_labels own other [] s = some s
score_labels own other (label ∷ labels) s = do
  let share = half_up (count_ratio (get_label_count other label) (get_label_count own label))
  s' ← score_nodes label share (get_node_ids_for_label own label) s
  score_labels own other labels s'

module _ (sort : List String → List String) (text : ℕ → String) where
  unfoldable pub stability_rounds :
      ℕ
      → Direction
      → KernelGraph
      → KernelGraph
      → Stability
      → Stability
      → Generator
      → Option (Stability × Stability × Generator)
  stability_rounds zero direction a b sa sb gen = some (sa, sb, gen)
  stability_rounds (suc rounds) direction a b sa sb gen = do
    sa' ← score_labels a b (get_labels a) sa
    sb' ← score_labels b a (get_labels b) sb
    a' ← relabel_graph sort text direction a gen
    b' ← relabel_graph sort text direction b a'.1
    stability_rounds rounds direction a'.0 b'.0 sa' sb' b'.1

  -- `depth` is the number of rounds.
  unfoldable pub calculate_node_stability :
      ℕ
      → Direction
      → KernelGraph
      → KernelGraph
      → Generator
      → Option (Stability × Stability × Generator)
  calculate_node_stability depth direction a b gen =
      let empty : Stability = record { labels = []; scores = [] } in
      stability_rounds depth direction a b (init_stability (get_node_ids a) empty)
        (init_stability (get_node_ids b) empty) gen
