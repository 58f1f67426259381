-- ===== src/CreateGraph/Linked.antt =====
-- The graph that is created: its nodes, and its edges in both directions.
use tracing_framework.Prelude.{
  String, none, some, List, [], ◌∷◌, Bool, true, false, ◌≡◌, refl, ◌&&◌, ◌||◌, ◌==◌, arith, eq_iff,
  eq_refl, if◌then◌else◌, Option-cases, Bool-cases, inl, inr,
}
use tracing_framework.Prelude.KeySet.{KeySet, IsDistinct, contains, contains-add, add}
use tracing_framework.Prelude.Dict.{Dict, get, has, put, keys, get-put, contains-keys}
use tracing_framework.Report.{Report}
use tracing_framework.Filter.Result.{HaveParents}
use tracing_framework.Graph.Defs.{
  Node, new_node, add_child, add_parent, parents_of, children_of, is_visible, visible,
}
use tracing_framework.Graph.Visible.{IsLinked}
use tracing_framework.Graph.Links.{IsStored}
use tracing_framework.CreateGraph.Defs.{
  reports_by_id, create_nodes, modify, link_parent, link_node, parent_ids, link_nodes, graph_of,
  linked_graph,
}
use tracing_framework.CreateGraph.Named.{
  has_report, last_parents, reports_by_id-has, reports_by_id-parents, reports_by_id-IsDistinct,
  report_of-HasParents, parents_present-all,
}

abbrev ups : Dict Node → String → KeySet
ups d a = elim (get d a) [ none ↦ [] | some n ↦ n.parent_nodes ]

abbrev downs : Dict Node → String → KeySet
downs d a = elim (get d a) [ none ↦ [] | some n ↦ n.child_nodes ]

abbrev shown : Dict Node → String → Bool
shown d a = elim (get d a) [ none ↦ false | some n ↦ visible n ]

get-modify :
    (k j : String) (f : Node → Node) (d : Dict Node)
    → get (modify k f d) j
      ≡ (if k == j then elim (get d j) [ none ↦ none | some n ↦ some (f n) ] else get d j)
unfolding modify
get-modify k j f d = elim (Option-cases (get d k)) [
  | inl e ↦ ground (arith, eq_iff k j)
  | inr (n, e) ↦ ground (arith, eq_iff k j, get-put k j (f n) d)
]

-- From `d` to `d'` the nodes stay, and gain the edges of `e` that run between nodes.
record Gains (e : String → String → Bool) (d d' : Dict Node) : Type 0 where
  same : (a : String) → has d' a ≡ has d a
  sight : (a : String) → shown d' a ≡ shown d a
  up :
      (a b : String) → contains b (ups d' a) ≡ (contains b (ups d a) || has d a && has d b && e a b)
  down :
      (a b : String)
      → contains a (downs d' b) ≡ (contains a (downs d b) || has d a && has d b && e a b)

module _ (id pid : String) (d : Dict Node) (i : has d id ≡ true) where
  abbrev with_child : Dict Node
  with_child = modify pid (add_child (new_node id)) d

  get-link_parent :
      (a : String) (n : Node)
      → get d a ≡ some n
      → get (link_parent id pid d) a
        ≡ some (record n {
          child_nodes = if has d pid && (pid == a) then add id n.child_nodes else n.child_nodes;
          parent_nodes = if has d pid && (id == a) then add pid n.parent_nodes else n.parent_nodes;
        })
  unfolding link_parent add_child add_parent
  get-link_parent a n e = ground (
    arith,
    get-modify id a (add_parent (new_node pid)) with_child,
    get-modify pid a (add_child (new_node id)) d,
  )

  get-link_parent-none : (a : String) → get d a ≡ none → get (link_parent id pid d) a ≡ none
  unfolding link_parent
  get-link_parent-none a e = ground (
    arith,
    get-modify id a (add_parent (new_node pid)) with_child,
    get-modify pid a (add_child (new_node id)) d,
  )

  link_parent-Gains : Gains (λ a b. (id == a) && (pid == b)) d (link_parent id pid d)
  link_parent-Gains = record {
    same = λ a. elim (Option-cases (get d a)) [
      | inl e ↦ ground (arith, get-link_parent-none a e)
      | inr (n, e) ↦ ground (arith, get-link_parent a n e)
    ];
    sight = λ a. elim (Option-cases (get d a)) [
      | inl e ↦ ground (arith, get-link_parent-none a e)
      | inr (n, e) ↦ ground (arith, get-link_parent a n e)
    ];
    up = λ a b. elim (Option-cases (get d a)) [
      | inl e ↦ ground (arith, get-link_parent-none a e)
      | inr (n, e) ↦
          ground (arith, get-link_parent a n e, contains-add b pid n.parent_nodes, eq_iff pid b)
    ];
    down = λ a b. elim (Option-cases (get d b)) [
      | inl e ↦ ground (arith, get-link_parent-none b e)
      | inr (n, e) ↦
          ground (
            arith,
            get-link_parent b n e,
            contains-add a id n.child_nodes,
            eq_iff pid b,
            eq_iff id a,
          )
    ];
  }

link_node-Gains :
    (id : String) (ps : KeySet) (d : Dict Node)
    → has d id ≡ true
    → Gains (λ a b. (id == a) && contains b ps) d (link_node id ps d)
unfolding link_node contains
link_node-Gains id [] d i = record {
  same = λ a. refl;
  sight = λ a. refl;
  up = λ a b. ground arith;
  down = λ a b. ground arith;
}
link_node-Gains id (p ∷ ps) d i =
    let one = link_parent-Gains id p d i in
    let rest = link_node-Gains id ps (link_parent id p d) (ground (arith, one.same id)) in
    record {
      same = λ a. ground (arith, rest.same a, one.same a);
      sight = λ a. ground (arith, rest.sight a, one.sight a);
      up = λ a b. ground (arith, rest.up a b, one.up a b, one.same a, one.same b);
      down = λ a b. ground (arith, rest.down a b, one.down a b, one.same a, one.same b);
    }

link_nodes-Gains :
    (reports : Dict Report) (ids : KeySet) (d : Dict Node)
    → ((a : String) → contains a ids ≡ true → has d a ≡ true)
    → Gains
        (λ a b. contains a ids && contains b (parent_ids reports a))
        d
        (link_nodes reports ids d)
unfolding link_nodes contains
link_nodes-Gains reports [] d i = record {
  same = λ a. refl;
  sight = λ a. refl;
  up = λ a b. ground arith;
  down = λ a b. ground arith;
}
link_nodes-Gains reports (id ∷ ids) d i =
    let d1 = link_node id (parent_ids reports id) d in
    let one = link_node-Gains id (parent_ids reports id) d (i id (ground (arith, eq_refl id))) in
    let rest = link_nodes-Gains reports ids d1 (λ a h. ground (arith, one.same a, i a)) in
    record {
      same = λ a. ground (arith, rest.same a, one.same a);
      sight = λ a. ground (arith, rest.sight a, one.sight a);
      up = λ a b. ground (arith, rest.up a b, one.up a b, one.same a, one.same b, eq_iff id a);
      down =
          λ a b. ground (arith, rest.down a b, one.down a b, one.same a, one.same b, eq_iff id a);
    }

get-create_nodes :
    (ids : KeySet) (d : Dict Node) (a : String)
    → get (create_nodes ids d) a ≡ (if contains a ids then some (new_node a) else get d a)
unfolding create_nodes contains
get-create_nodes [] d a = refl
get-create_nodes (id ∷ ids) d a = ground (
  arith,
  get-create_nodes ids (put id (new_node id) d) a,
  get-put id a (new_node id) d,
  eq_iff id a,
)

module _ (rs : List Report) where
  abbrev by_id : Dict Report
  by_id = reports_by_id rs []

  abbrev bare : Dict Node
  bare = create_nodes (keys by_id) []

  graph-Gains :
      Gains
        (λ a b. contains a (keys by_id) && contains b (parent_ids by_id a))
        bare
        (graph_of rs).nodes
  unfolding graph_of get
  graph-Gains =
      link_nodes-Gains by_id (keys by_id) bare
        (λ a h. ground (arith, get-create_nodes (keys by_id) [] a))

  get-bare : (a : String) → get bare a ≡ (if has by_id a then some (new_node a) else none)
  unfolding get
  get-bare a = ground (arith, get-create_nodes (keys by_id) [] a, contains-keys a by_id)

  no_parent_ids : (a : String) → has by_id a ≡ false → parent_ids by_id a ≡ []
  unfolding parent_ids
  no_parent_ids a h = ground arith

  graph_nodes : (a : String) → has (graph_of rs).nodes a ≡ has by_id a
  graph_nodes a = ground (arith, graph-Gains.same a, get-bare a)

  graph_edges :
      (a b : String)
      → contains b (parents_of (graph_of rs) a) ≡ (contains b (parent_ids by_id a) && has by_id b)
  unfolding contains
  graph_edges a b =
      ground
        (arith, graph-Gains.up a b, get-bare a, get-bare b, contains-keys a by_id, no_parent_ids a)

  graph_edges_down :
      (a b : String)
      → contains a (children_of (graph_of rs) b) ≡ (contains b (parent_ids by_id a) && has by_id b)
  unfolding contains
  graph_edges_down a b =
      ground (
        arith,
        graph-Gains.down a b,
        get-bare a,
        get-bare b,
        contains-keys a by_id,
        no_parent_ids a,
      )

  graph-IsLinked : IsLinked (graph_of rs)
  unfolding contains
  graph-IsLinked = record {
    parents_in = λ a b h. ground (arith, graph_edges a b, graph_nodes b);
    children_in = λ a b h.
        ground
          (arith, graph_edges_down b a, graph_nodes b, no_parent_ids b, Bool-cases (has by_id b));
    opposite = λ a b. ground (arith, graph_edges a b, graph_edges_down a b);
  }

  graph-IsStored : IsStored (graph_of rs)
  unfolding graph_of
  graph-IsStored a h = ground (arith, contains-keys a by_id, graph_nodes a)

graph-listed :
    (rs : List Report)
    → IsDistinct (graph_of rs).nodelist
      × ((a : String) → contains a (graph_of rs).nodelist ≡ has_report a rs)
unfolding graph_of get keys
graph-listed rs = (
  reports_by_id-IsDistinct rs [] tt,
  λ a. ground (arith, contains-keys a (reports_by_id rs []), reports_by_id-has a rs []),
)

linked_graph-returns : (rs : List Report) → HaveParents rs → linked_graph rs ≡ some (graph_of rs)
unfolding linked_graph get
linked_graph-returns rs all =
    let reports = reports_by_id rs [] in
    ground (
      arith,
      parents_present-all reports (keys reports) (λ a h. ground (arith, h, contains-keys a reports))
          (λ a r. report_of-HasParents a r rs [] all (λ e. absurd (ground (arith, e)))),
    )

-- From reports that each have a list of parents a graph is created with a node for exactly the ids that
-- some report has; each is listed once and visible. The parents of a node are those ids among the parents
-- of the last report with its id that have a node; the children are the same edges in the other direction.
pub graph_of_lem :
    (rs : List Report)
    → HaveParents rs
    → (linked_graph rs ≡ some (graph_of rs))
      × IsLinked (graph_of rs)
      × IsStored (graph_of rs)
      × IsDistinct (graph_of rs).nodelist
      × ((a : String) → contains a (graph_of rs).nodelist ≡ has_report a rs)
      × ((a : String) → has (graph_of rs).nodes a ≡ has_report a rs)
      × ((a : String) → is_visible (graph_of rs) a ≡ has_report a rs)
      × ((a b : String)
          → contains b (parents_of (graph_of rs) a)
            ≡ (contains b (last_parents a rs []) && has_report b rs))
unfolding get parent_ids
graph_of_lem rs all = (
  linked_graph-returns rs all,
  graph-IsLinked rs,
  graph-IsStored rs,
  (graph-listed rs).0,
  (graph-listed rs).1,
  λ a. ground (arith, graph_nodes rs a, reports_by_id-has a rs []),
  λ a. ground (arith, (graph-Gains rs).sight a, get-bare rs a, reports_by_id-has a rs []),
  λ a b.
      ground (arith, graph_edges rs a b, reports_by_id-parents a rs [], reports_by_id-has b rs []),
)
