-- ===== src/KernelGraph/Merges.antt =====
-- The graph that `fromJSON` builds has no merges.
use tracing_framework.Prelude.{
  ◌>>=◌, ℕ, ◌<◌, String, none, some, List, [], ◌∷◌, Bool, true, false, not, ◌&&◌, ◌||◌,
  if◌then◌else◌, ◌==◌, ◌≡◌, ◌∙◌, refl, sym, ap, subst, arith, Bool-cases, Option-cases, inl, inr,
  eq_iff, eq_refl,
}
use tracing_framework.Prelude.KeySet.{contains, IsDistinct}
use tracing_framework.Prelude.Dict.{Dict, get, has, get-put}
use tracing_framework.Report.{Report, is_merge}
use tracing_framework.KernelGraph.Defs.{
  KernelNode, KernelGraph, add_node, add_nodes, empty_graph, kernel_graph, link, remove_node,
}
use tracing_framework.KernelGraph.IsWf.{IsWf, edge}
use tracing_framework.KernelGraph.Construct.{ids_of, kernel_graph-IsWf}
use tracing_framework.KernelGraph.Clone.{AllFrom}
use tracing_framework.KernelGraph.Link.{link-IsWf, nodes-link}
use tracing_framework.KernelGraph.Remove.{remove_node-get}
use tracing_framework.KernelGraph.FromJson.{
  nodes_of, link_to, link_reports, remove_merges, from_json,
}

link_to-IsWf :
    (edges : List String) (nid : String) (g : KernelGraph)
    → IsWf g
    → IsWf (link_to edges nid g) × ((link_to edges nid g).nodes ≡ g.nodes)
unfolding link_to
link_to-IsWf [] nid g w = (w, refl)
link_to-IsWf (e ∷ edges) nid g w =
    let (w', same) = link_to-IsWf edges nid (link g e nid) (link-IsWf g e nid w) in
    (w', same ∙ nodes-link g e nid)

link_reports-IsWf :
    (ns : List KernelNode) (g : KernelGraph)
    → IsWf g
    → IsWf (link_reports ns g) × ((link_reports ns g).nodes ≡ g.nodes)
unfolding link_reports
link_reports-IsWf [] g w = (w, refl)
link_reports-IsWf (n ∷ ns) g w = elim (Option-cases n.report.parent_event_id) [
  | inl e ↦ rw (e, link_reports) (link_reports-IsWf ns g w)
  | inr (edges, e) ↦
      rw (e, link_reports)
        (let (w1, same1) = link_to-IsWf edges n.id g w in
          let (w2, same2) = link_reports-IsWf ns (link_to edges n.id g) w1 in (w2, same2 ∙ same1))
]

-- The id belongs to a merge of the list.
abbrev pub is_merge_id : String → List KernelNode → Bool
is_merge_id k [] = false
is_merge_id k (n ∷ ns) = (is_merge n.report && n.id == k) || is_merge_id k ns

contains-merge_id :
    (k : String) (ns : List KernelNode) → is_merge_id k ns ≡ true → contains k (ids_of ns) ≡ true
unfolding contains
contains-merge_id k [] h = h
contains-merge_id k (n ∷ ns) h = ground (arith, contains-merge_id k ns)

AllFrom-but :
    (k : String) (d d' : Dict KernelNode) (ns : List KernelNode)
    → ((j : String) → (k == j) ≡ false → get d' j ≡ get d j)
    → contains k (ids_of ns) ≡ false
    → AllFrom d ns
    → AllFrom d' ns
unfolding contains
AllFrom-but k d d' [] h c a = tt
AllFrom-but k d d' (n ∷ ns) h c a = (
  h n.id (ground (arith, eq_iff k n.id, eq_iff n.id k)) ∙ a.0,
  AllFrom-but k d d' ns h (ground arith) a.1,
)

module _ (rank : String → ℕ) where
  -- The rank rises along every edge.
  abbrev pub Rises : KernelGraph → Type 0
  Rises g = (p c : String) → edge g p c ≡ true → rank p < rank c

  no_loop : (g : KernelGraph) (k : String) → Rises g → edge g k k ≡ false
  no_loop g k r = elim (Bool-cases (edge g k k)) [
    | inl e ↦ absurd (omega (arith, r k k e))
    | inr e ↦ e
  ]

  remove_merges_lem :
      (ns : List KernelNode) (g : KernelGraph)
      → IsWf g
      → Rises g
      → IsDistinct (ids_of ns)
      → AllFrom g.nodes ns
      → (g' : KernelGraph) × (remove_merges ns g ≡ some g')
        × IsWf g'
        × Rises g'
        × ((k : String) → get g'.nodes k ≡ (if is_merge_id k ns then none else get g.nodes k))
  unfolding remove_merges
  remove_merges_lem [] g w r d a = (g, refl, w, r, λ k. refl)
  remove_merges_lem (n ∷ ns) g w r d a = elim (Bool-cases (is_merge n.report)) [
    | inr keep ↦
        let (g', e, w', r', nodes) = remove_merges_lem ns g w r d.1 a.1 in
        (
          g',
          ap (λ b. (if b then remove_node g n else some g) >>= remove_merges ns) keep ∙ e,
          w',
          r',
          λ k. ground (arith, nodes k, keep),
        )
    | inl gone ↦
        let (g1, e1, w1, nodes1, edges1) = remove_node-get g n w a.0 (no_loop g n.id r) in
        let r1 : Rises g1 = λ p c h. ground (arith, edges1 p c, r p c, r p n.id, r n.id c) in
        let (g', e, w', r', nodes) =
          remove_merges_lem ns g1 w1 r1 d.1
            (AllFrom-but n.id g.nodes g1.nodes ns (λ j h. ground (arith, nodes1 j)) d.0 a.1) in
        (
          g',
          ap (λ b. (if b then remove_node g n else some g) >>= remove_merges ns) gone
              ∙ ap (λ o. o >>= remove_merges ns) e1
              ∙ e,
          w',
          r',
          λ k. ground (arith, nodes k, nodes1 k, gone),
        )
  ]

get-add_nodes-other :
    (g : KernelGraph) (ns : List KernelNode) (k : String)
    → contains k (ids_of ns) ≡ false
    → get (add_nodes g ns).nodes k ≡ get g.nodes k
unfolding add_nodes add_node contains
get-add_nodes-other g [] k c = refl
get-add_nodes-other g (n ∷ ns) k c =
    ground (arith, get-add_nodes-other (add_node g n) ns k, get-put n.id k n g.nodes)

AllFrom-add_nodes :
    (g : KernelGraph) (ns : List KernelNode)
    → IsDistinct (ids_of ns)
    → AllFrom (add_nodes g ns).nodes ns
unfolding add_nodes add_node
AllFrom-add_nodes g [] d = tt
AllFrom-add_nodes g (n ∷ ns) d = (
  get-add_nodes-other (add_node g n) ns n.id d.0
      ∙ ground (arith, get-put n.id n.id n g.nodes, eq_refl n.id),
  AllFrom-add_nodes (add_node g n) ns d.1,
)

-- For reports that all have an id, different from each other, and such that ranks rise along all edges
-- once their nodes are linked: fromJSON returns a well-formed graph, in which ranks rise along all
-- edges, and its nodes are exactly those of the reports that are not merges.
pub from_json_lem :
    (units : String → List ℕ) (text : Bool × ℕ → String) (id : String) (reports : List Report)
    (ns : List KernelNode) (rank : String → ℕ)
    → nodes_of units text reports ≡ some ns
    → IsDistinct (ids_of ns)
    → Rises rank (link_reports ns (kernel_graph id ns))
    → (g : KernelGraph) × (from_json units text id reports ≡ some g)
      × IsWf g
      × Rises rank g
      × ((k : String) → has g.nodes k ≡ (contains k (ids_of ns) && not (is_merge_id k ns)))
unfolding from_json kernel_graph
from_json_lem units text id reports ns rank e d r =
    let g0 = kernel_graph id ns in
    let (w0, nodes0, edges0) = kernel_graph-IsWf id ns d in
    let (w1, same) = link_reports-IsWf ns g0 w0 in
    let (g, f, w, r', nodes) =
      remove_merges_lem rank ns (link_reports ns g0) w1 r d
        (subst (λ z. AllFrom z ns) (sym same) (AllFrom-add_nodes (empty_graph id) ns d)) in
    (
      g,
      ap (λ o. o >>= λ ms. remove_merges ms (link_reports ms (kernel_graph id ms))) e ∙ f,
      w,
      r',
      λ k. ground (arith, nodes k, nodes0 k, ap (λ z. get z k) same),
    )
