-- ===== src/Compare/Defs.antt =====
-- The scores of the reports.
use tracing_framework.Prelude.{
  ◌>>=◌, ℕ, ◌*◌, String, Option, none, some, List, [], ◌∷◌, length, map,
}
use tracing_framework.Prelude.Dict.{Dict, get, keys}
use tracing_framework.KernelGraph.Defs.{KernelGraph}
use tracing_framework.Kernel.Defs.{Fraction}
use tracing_framework.Kernel.Rounds.{new_generator, both}
use tracing_framework.Kernel.Stability.{Stability, calculate_node_stability}
use tracing_framework.Compare.Fractions.{Extremes, no_extremes, include_all, between}

-- The fields of a report that the page reads and sets.
pub record ScoredReport : Type 0 where
  pub event_id : Option String
  pub kernel_labels : Option (List String)
  pub kernel_score : Option Fraction

-- `scores[id] / labels[id].length`
abbrev pub mean : List String → Fraction → Fraction
mean labels score = record { top = score.top; over = score.over * length labels }

-- For each id of `scores`; a score without labels is a TypeError.
unfoldable pub mean_scores :
    Dict (List String) → Dict Fraction → List String → Option (Dict Fraction)
mean_scores labels scores [] = some []
mean_scores labels scores (id ∷ ids) = do
  ls ← get labels id
  score ← get scores id
  rest ← mean_scores labels scores ids
  some ((id, mean ls score) ∷ rest)

abbrev pub values : Dict Fraction → List Fraction
values d = map (λ x. x.1) d

-- `labels.hasOwnProperty(id)`, else the field stays as it is
abbrev pub found {ℓ} : {A : Type ℓ} → Option A → Option A → Option A
found none old = old
found (some x) old = some x

unfoldable pub score_report :
    Dict (List String) → Dict Fraction → Extremes → ScoredReport → ScoredReport
score_report labels scores e r = elim r.event_id [
  | none ↦ r
  | some id ↦ record r {
    kernel_labels = found (get labels id) r.kernel_labels;
    kernel_score =
        found (elim (get scores id) [ none ↦ none | some f ↦ some (between e f) ]) r.kernel_score;
  }
]

-- From the scores of the two graphs on
unfoldable pub score_all :
    Stability
    → Stability
    → List ScoredReport
    → List ScoredReport
    → Option (List ScoredReport × List ScoredReport)
score_all sa sb reports_a reports_b = do
  scores_a ← mean_scores sa.labels sa.scores (keys sa.scores)
  scores_b ← mean_scores sb.labels sb.scores (keys sb.scores)
  let e = include_all (values scores_b) (include_all (values scores_a) no_extremes)
  some (
    map (score_report sa.labels scores_a e) reports_a,
    map (score_report sb.labels scores_b e) reports_b,
  )

-- The page, with the kernel graphs of its two traces.
unfoldable pub compare_page :
    (List String → List String)
    → (ℕ → String)
    → KernelGraph
    → KernelGraph
    → List ScoredReport
    → List ScoredReport
    → Option (List ScoredReport × List ScoredReport)
compare_page sort text a b reports_a reports_b = do
  (sa, sb, gen) ← calculate_node_stability sort text 5 both a b new_generator
  score_all sa sb reports_a reports_b
