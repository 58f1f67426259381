-- ===== src/KernelGraph/Clone.antt =====
-- `clone`: the copy has the nodes and the edges of the original.
use tracing_framework.Prelude.{
  String, some, List, [], ◌∷◌, ◌≡◌, refl, ◌==◌, ◌||◌, ◌&&◌, arith, if◌then◌else◌, eq_iff,
  Option-cases, inl, inr,
}
use tracing_framework.Prelude.KeySet.{KeySet, contains, IsDistinct}
use tracing_framework.Prelude.Dict.{Dict, get, has, keys, get-put, contains-keys, set_at}
use tracing_framework.KernelGraph.Defs.{
  KernelNode, KernelGraph, add_node, add_nodes, kernel_graph, empty_graph, lookup_all, get_node_ids,
  get_nodes, link, link_parents, link_all, clone,
}
use tracing_framework.KernelGraph.Construct.{ids_of, kernel_graph-IsWf}
use tracing_framework.KernelGraph.Link.{edge-link, nodes-link, link-IsWf}
use tracing_framework.KernelGraph.IsWf.{IsWf, edge}

-- Each node of the list is the one that `d` has under its id.
abbrev pub AllFrom : Dict KernelNode → List KernelNode → Type 0
AllFrom d [] = Unit {0}
AllFrom d (n ∷ ns) = (get d n.id ≡ some n) × AllFrom d ns

get-add_nodes :
    (d : Dict KernelNode) (g : KernelGraph) (ns : List KernelNode) (k : String)
    → AllFrom d ns
    → get (add_nodes g ns).nodes k ≡ (if contains k (ids_of ns) then get d k else get g.nodes k)
unfolding add_nodes add_node contains
get-add_nodes d g [] k a = refl
get-add_nodes d g (n ∷ ns) k a =
    ground (arith, get-add_nodes d (add_node g n) ns k a.1, get-put n.id k n g.nodes, eq_iff n.id k)

-- Every key of `d` is the id of its node.
module _ (d : Dict KernelNode)
    (own : (k : String) (n : KernelNode) → get d k ≡ some n → n.id ≡ k) where
  pub lookup_all-AllFrom : (ks : KeySet) → AllFrom d (lookup_all d ks)
  unfolding lookup_all
  lookup_all-AllFrom [] = tt
  lookup_all-AllFrom (k ∷ ks) = elim (Option-cases (get d k)) [
    | inl e ↦ rw (e, lookup_all) (lookup_all-AllFrom ks)
    | inr (n, e) ↦ rw (e, lookup_all) (cc (own k n e), lookup_all-AllFrom ks)
  ]

  pub contains-ids_of-lookup_all :
      (ks : KeySet) (k : String)
      → contains k (ids_of (lookup_all d ks)) ≡ (contains k ks && has d k)
  unfolding lookup_all contains
  contains-ids_of-lookup_all [] k = refl
  contains-ids_of-lookup_all (j ∷ ks) k = elim (Option-cases (get d j)) [
    | inl e ↦ ground (arith, contains-ids_of-lookup_all ks k, eq_iff j k)
    | inr (n, e) ↦ ground (arith, contains-ids_of-lookup_all ks k, eq_iff j k, own j n e)
  ]

  pub ids_of-lookup_all-IsDistinct :
      (ks : KeySet) → IsDistinct ks → IsDistinct (ids_of (lookup_all d ks))
  unfolding lookup_all
  ids_of-lookup_all-IsDistinct [] h = tt
  ids_of-lookup_all-IsDistinct (k ∷ ks) h = elim (Option-cases (get d k)) [
    | inl e ↦ rw (e, lookup_all) (ids_of-lookup_all-IsDistinct ks h.1)
    | inr (n, e) ↦
        rw (e, lookup_all)
          (
            ground (arith, contains-ids_of-lookup_all ks k, own k n e),
            ids_of-lookup_all-IsDistinct ks h.1,
          )
  ]

nodes-link_parents :
    (c : String) (ps : KeySet) (g : KernelGraph) → (link_parents c ps g).nodes ≡ g.nodes
unfolding link_parents
nodes-link_parents c [] g = refl
nodes-link_parents c (p ∷ ps) g = cc (nodes-link_parents c ps (link g p c), nodes-link g p c)

link_parents-IsWf :
    (c : String) (ps : KeySet) (g : KernelGraph) → IsWf g → IsWf (link_parents c ps g)
unfolding link_parents
link_parents-IsWf c [] g w = w
link_parents-IsWf c (p ∷ ps) g w = link_parents-IsWf c ps (link g p c) (link-IsWf g p c w)

edge-link_parents :
    (c : String) (ps : KeySet) (g : KernelGraph) (p' c' : String)
    → edge (link_parents c ps g) p' c'
      ≡ (edge g p' c' || contains p' ps && has g.nodes p' && has g.nodes c' && (c == c'))
unfolding link_parents contains
edge-link_parents c [] g p' c' = ground arith
edge-link_parents c (p ∷ ps) g p' c' = ground (
  arith,
  edge-link_parents c ps (link g p c) p' c',
  edge-link g p c p' c',
  nodes-link g p c,
  eq_iff p p',
  eq_iff c c',
)

nodes-link_all :
    (d : Dict KeySet) (cs : KeySet) (g : KernelGraph) → (link_all d cs g).nodes ≡ g.nodes
unfolding link_all
nodes-link_all d [] g = refl
nodes-link_all d (c ∷ cs) g =
    cc (nodes-link_all d cs (link_parents c (set_at d c) g), nodes-link_parents c (set_at d c) g)

link_all-IsWf : (d : Dict KeySet) (cs : KeySet) (g : KernelGraph) → IsWf g → IsWf (link_all d cs g)
unfolding link_all
link_all-IsWf d [] g w = w
link_all-IsWf d (c ∷ cs) g w =
    link_all-IsWf d cs (link_parents c (set_at d c) g) (link_parents-IsWf c (set_at d c) g w)

edge-link_all :
    (d : Dict KeySet) (cs : KeySet) (g : KernelGraph) (p' c' : String)
    → edge (link_all d cs g) p' c' ≡ (
        edge g p' c'
        || contains c' cs && contains p' (set_at d c') && has g.nodes p' && has g.nodes c')
unfolding link_all contains
edge-link_all d [] g p' c' = ground arith
edge-link_all d (c ∷ cs) g p' c' = ground (
  arith,
  edge-link_all d cs (link_parents c (set_at d c) g) p' c',
  edge-link_parents c (set_at d c) g p' c',
  nodes-link_parents c (set_at d c) g,
  eq_iff c c',
)

get_copy :
    (g : KernelGraph) (k : String)
    → IsWf g
    → get (kernel_graph g.id (get_nodes g)).nodes k ≡ get g.nodes k
unfolding kernel_graph get_nodes get_node_ids get
get_copy g k w =
    let ks = keys g.nodes in
    ground (
      arith,
      contains-keys k g.nodes,
      contains-ids_of-lookup_all g.nodes w.node_ids ks k,
      get-add_nodes g.nodes (empty_graph g.id) (lookup_all g.nodes ks) k
          (lookup_all-AllFrom g.nodes w.node_ids ks),
    )

-- The clone of a well-formed graph is well formed, and has the same nodes and the same edges.
pub clone_lem :
    (g : KernelGraph)
    → IsWf g
    → IsWf (clone g)
      × ((k : String) → get (clone g).nodes k ≡ get g.nodes k)
      × ((p c : String) → edge (clone g) p c ≡ edge g p c)
unfolding clone get_nodes get_node_ids contains
clone_lem g w =
    let g0 = kernel_graph g.id (get_nodes g) in
    let made =
      kernel_graph-IsWf g.id (get_nodes g)
        (ids_of-lookup_all-IsDistinct g.nodes w.node_ids (keys g.nodes) w.distinct) in
    (
      link_all-IsWf g.parents (keys g.parents) g0 made.0,
      λ k. ground (arith, nodes-link_all g.parents (keys g.parents) g0, get_copy g k w),
      λ p c. ground (
        arith,
        edge-link_all g.parents (keys g.parents) g0 p c,
        made.2 p c,
        get_copy g p w,
        get_copy g c w,
        contains-keys c g.parents,
        w.parents_keys c,
        w.closed p c,
      ),
    )
