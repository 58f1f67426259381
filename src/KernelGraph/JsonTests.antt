-- ===== src/KernelGraph/JsonTests.antt =====
-- A trace of the reports a → m → b, where m is a merge.
use tracing_framework.Prelude.{
  ℕ, ◌%◌, String, Option, some, none, List, [], ◌∷◌, Bool, true, ◌≡◌, refl, ◌==◌, ◌&&◌, not,
  if◌then◌else◌, arith, ap, subst, eq_iff, inl, inr, ◌⊎◌,
}
use tracing_framework.Prelude.KeySet.{contains, IsDistinct}
use tracing_framework.Prelude.Dict.{has}
use tracing_framework.Report.{Report}
use tracing_framework.KernelGraph.Defs.{KernelNode, KernelGraph, kernel_graph, link}
use tracing_framework.KernelGraph.IsWf.{IsWf, edge}
use tracing_framework.KernelGraph.Construct.{ids_of, kernel_graph-IsWf}
use tracing_framework.KernelGraph.Link.{edge-link}
use tracing_framework.KernelGraph.FromJson.{
  node_of, nodes_of, hash_report, signed, hash_code, hash_from, hash_step, link_reports, link_to,
  from_json, polynomial, word, hash_code_lem,
}
use tracing_framework.KernelGraph.Merges.{Rises, is_merge_id, from_json_lem}

-- The hash code of "Hi".
hash_run : hash_code (72 ∷ 105 ∷ []) ≡ 2337
unfolding hash_code hash_from hash_step
hash_run = refl

hash_code_lem_example : hash_code (72 ∷ 105 ∷ []) ≡ polynomial 0 (72 ∷ 105 ∷ []) % word
hash_code_lem_example = hash_code_lem (72 ∷ 105 ∷ [])

abbrev report : String → List String → Option String → Report
report id parents operation = record {
  event_id = some id;
  parent_event_id = some parents;
  operation = operation;
  agent = none;
  process_id = none;
  source = none;
  timestamp = 0;
}

abbrev trace : List Report
trace = report "a" [] none ∷ report "m" ("a" ∷ []) (some "merge") ∷ report "b" ("m" ∷ []) none ∷ []

abbrev zero_text : Bool × ℕ → String
zero_text n = "0"

abbrev nodes : List KernelNode
nodes =
    record { id = "a"; label = "L-0"; report = report "a" [] none }
    ∷ record { id = "m"; label = "L-0"; report = report "m" ("a" ∷ []) (some "merge") }
    ∷ record { id = "b"; label = "L-0"; report = report "b" ("m" ∷ []) none }
    ∷ []

trace-nodes : nodes_of (λ s. []) zero_text trace ≡ some nodes
unfolding nodes_of node_of hash_report signed
trace-nodes = refl

nodes-IsDistinct : IsDistinct (ids_of nodes)
unfolding contains
nodes-IsDistinct = (refl, (refl, (refl, tt)))

abbrev depth : String → ℕ
depth k = if k == "a" then 0 else if k == "m" then 1 else 2

linked :
    link (link (kernel_graph "t" nodes) "a" "m") "m" "b"
    ≡ link_reports nodes (kernel_graph "t" nodes)
unfolding link_reports link_to
linked = refl

edge-cases :
    (p c : String)
    → edge (link (link (kernel_graph "t" nodes) "a" "m") "m" "b") p c ≡ true
    → (("a" ≡ p) × ("m" ≡ c)) ⊎ (("m" ≡ p) × ("b" ≡ c))
edge-cases p c h =
    let g = kernel_graph "t" nodes in
    ground (
      arith,
      edge-link (link g "a" "m") "m" "b" p c,
      edge-link g "a" "m" p c,
      (kernel_graph-IsWf "t" nodes nodes-IsDistinct).2 p c,
      eq_iff "a" p,
      eq_iff "m" p,
      eq_iff "m" c,
      eq_iff "b" c,
    )

nodes-Rises : Rises depth (link_reports nodes (kernel_graph "t" nodes))
nodes-Rises = subst (Rises depth) linked (λ p c h. elim (edge-cases p c h) [
  | inl (x, y) ↦ omega (arith, ap depth x, ap depth y)
  | inr (x, y) ↦ omega (arith, ap depth x, ap depth y)
])

from_json_lem_example :
    (g : KernelGraph) × (from_json (λ s. []) zero_text "t" trace ≡ some g)
    × IsWf g
    × Rises depth g
    × ((k : String) → has g.nodes k ≡ (contains k (ids_of nodes) && not (is_merge_id k nodes)))
from_json_lem_example =
    from_json_lem (λ s. []) zero_text "t" trace nodes depth trace-nodes nodes-IsDistinct nodes-Rises
