-- ===== src/Kernel/RoundTests.antt =====
-- Rounds of the kernel on the graph a → m → b and a single node.
use Prim.Native.String
use text.Mathlib.TextLemmas.{length-append}
use tracing_framework.Prelude.{
  ◌+◌, ℕ, zero, suc, some, none, List, [], ◌∷◌, ◌≡◌, ◌∙◌, refl, sym, ap, String, ◌↔◌, arith,
}
use tracing_framework.Prelude.KeySet.{IsDistinct, contains}
use tracing_framework.Prelude.Dict.{get, has}
use tracing_framework.Report.{Report}
use tracing_framework.KernelGraph.Defs.{KernelNode, KernelGraph, kernel_graph, link}
use tracing_framework.KernelGraph.IsWf.{IsWf, edge}
use tracing_framework.KernelGraph.Construct.{kernel_graph-IsWf, ids_of}
use tracing_framework.KernelGraph.Link.{link-IsWf}
use tracing_framework.Kernel.Defs.{Fraction, calculate}
use tracing_framework.Kernel.Rounds.{Generator, new_generator, both, relabel_graph, do_calculate}
use tracing_framework.Kernel.Numbers.{IsSound}
use tracing_framework.Kernel.Stability.{Stability, calculate_node_stability}
use tracing_framework.Kernel.Bounded.{IsBounded, calculate_node_stability_lem}
use tracing_framework.Kernel.Agree.{
  new_generator-IsSound, calculate-returns, label_in, view, labels_agree_lem, do_calculate-returns,
}

abbrev report : Report
report = record {
  event_id = none;
  parent_event_id = none;
  operation = none;
  agent = none;
  process_id = none;
  source = none;
  timestamp = 0;
}

abbrev node : String → String → KernelNode
node id label = record { id = id; label = label; report = report }

abbrev three : List KernelNode
three = node "a" "L-1" ∷ node "m" "L-2" ∷ node "b" "L-1" ∷ []

abbrev one : List KernelNode
one = node "x" "L-1" ∷ []

three-IsDistinct : IsDistinct (ids_of three)
unfolding contains
three-IsDistinct = (refl, (refl, (refl, tt)))

one-IsDistinct : IsDistinct (ids_of one)
unfolding contains
one-IsDistinct = (refl, tt)

abbrev chain : KernelGraph
chain = link (link (kernel_graph "g" three) "a" "m") "m" "b"

chain-IsWf : IsWf chain
chain-IsWf =
    let g = kernel_graph "g" three in
    link-IsWf (link g "a" "m") "m" "b"
      (link-IsWf g "a" "m" (kernel_graph-IsWf "g" three three-IsDistinct).0)

abbrev lone : KernelGraph
lone = kernel_graph "h" one

-- A text for every number.
strokes : ℕ → String
strokes zero = ""
strokes (suc n) = String.◌++◌ "|" (strokes n)

count-strokes : (n : ℕ) → String.count (strokes n) ≡ n
unfolding strokes
count-strokes zero = refl
count-strokes (suc n) =
    length-append "|" (strokes n) ∙ ap (λ z. 1 + z) (count-strokes n) ∙ omega arith

strokes_inj : (m n : ℕ) → strokes m ≡ strokes n → m ≡ n
strokes_inj m n e = sym (count-strokes m) ∙ ap String.count e ∙ count-strokes n

labels_agree_lem_example :
    (x : KernelGraph × Generator) × (y : KernelGraph × Generator) × (relabel_graph
        (λ xs. xs)
        strokes
        both
        chain
        new_generator
      ≡ some x)
    × (relabel_graph (λ xs. xs) strokes both lone x.1 ≡ some y)
    × ((p c : String) → (edge x.0 p c ≡ edge chain p c) × (edge y.0 p c ≡ edge lone p c))
    × ((k j : String) (n m : KernelNode)
        → get chain.nodes k ≡ some n
        → get lone.nodes j ≡ some m
        → (label_in x.0 k ≡ label_in y.0 j)
          ↔ (view (λ xs. xs) strokes chain n ≡ view (λ xs. xs) strokes lone m))
labels_agree_lem_example =
    labels_agree_lem (λ xs. xs) strokes chain lone new_generator strokes_inj chain-IsWf
      (kernel_graph-IsWf "h" one one-IsDistinct).0 new_generator-IsSound

do_calculate-returns_example :
    (score : Fraction) × (gen' : Generator) × (do_calculate
        (λ xs. xs)
        strokes
        calculate
        3
        both
        chain
        lone
        new_generator
      ≡ some (score, gen'))
    × IsSound gen'
do_calculate-returns_example =
    do_calculate-returns (λ xs. xs) strokes calculate calculate-returns 3 chain lone new_generator
      chain-IsWf (kernel_graph-IsWf "h" one one-IsDistinct).0 new_generator-IsSound

calculate_node_stability_lem_example :
    (ua : Stability) × (ub : Stability) × (gen' : Generator) × (calculate_node_stability
        (λ xs. xs)
        strokes
        3
        both
        chain
        lone
        new_generator
      ≡ some (ua, ub, gen'))
    × IsBounded (λ k. has chain.nodes k) ua
    × IsBounded (λ k. has lone.nodes k) ub
calculate_node_stability_lem_example =
    calculate_node_stability_lem (λ xs. xs) strokes 3 chain lone new_generator chain-IsWf
      (kernel_graph-IsWf "h" one one-IsDistinct).0 new_generator-IsSound
