-- ===== src/Compare/Tests.antt =====
-- Two traces, of two nodes and of one.
use tracing_framework.Prelude.{ℕ, String, Option, none, some, List, [], ◌∷◌, ◌≡◌, refl}
use tracing_framework.Prelude.KeySet.{IsDistinct, contains}
use tracing_framework.Report.{Report}
use tracing_framework.KernelGraph.Defs.{KernelNode, kernel_graph}
use tracing_framework.KernelGraph.Construct.{kernel_graph-IsWf, ids_of}
use tracing_framework.Kernel.Defs.{Fraction}
use tracing_framework.Compare.Fractions.{no_extremes, include, include_all, between}
use tracing_framework.Compare.Defs.{ScoredReport, compare_page}
use tracing_framework.Compare.Scores.{AllScored, compare_page_lem}

abbrev report : Report
report = record {
  event_id = none;
  parent_event_id = none;
  operation = none;
  agent = none;
  process_id = none;
  source = none;
  timestamp = 0;
}

abbrev node : String → String → KernelNode
node id label = record { id = id; label = label; report = report }

abbrev two : List KernelNode
two = node "a" "L" ∷ node "b" "M" ∷ []

abbrev one : List KernelNode
one = node "x" "L" ∷ []

two-IsDistinct : IsDistinct (ids_of two)
unfolding contains
two-IsDistinct = (refl, (refl, tt))

one-IsDistinct : IsDistinct (ids_of one)
unfolding contains
one-IsDistinct = (refl, tt)

abbrev scored : Option String → ScoredReport
scored id = record { event_id = id; kernel_labels = none; kernel_score = none }

abbrev fraction : ℕ → ℕ → Fraction
fraction a b = record { top = a; over = b }

-- Of a half, 1 and a quarter the second lies at 1.
between_run :
    between
      (include_all (fraction 1 2 ∷ fraction 1 1 ∷ fraction 1 4 ∷ []) no_extremes)
      (fraction 1 1)
    ≡ fraction 12 12
unfolding include_all include
between_run = refl

compare_page_lem_example :
    (qs : List ScoredReport × List ScoredReport) × (compare_page
        (λ xs. xs)
        (λ n. "L")
        (kernel_graph "g" two)
        (kernel_graph "h" one)
        (scored (some "a") ∷ scored none ∷ [])
        (scored (some "y") ∷ [])
      ≡ some qs)
    × AllScored (kernel_graph "g" two) (scored (some "a") ∷ scored none ∷ []) qs.0
    × AllScored (kernel_graph "h" one) (scored (some "y") ∷ []) qs.1
compare_page_lem_example =
    compare_page_lem (λ xs. xs) (λ n. "L") (kernel_graph "g" two) (kernel_graph "h" one)
      (scored (some "a") ∷ scored none ∷ []) (scored (some "y") ∷ [])
      (kernel_graph-IsWf "g" two two-IsDistinct).0 (kernel_graph-IsWf "h" one one-IsDistinct).0
