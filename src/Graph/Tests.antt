-- ===== src/Graph/Tests.antt =====
-- Runs on the graph a → h → b, in which `h` is hidden, and on a cycle of two hidden nodes.
use tracing_framework.Prelude.{
  ℕ, ◌≤◌, String, some, List, [], ◌∷◌, Bool, true, false, ◌≡◌, refl, ◌==◌, ◌↔◌, if◌then◌else◌,
  arith, eq_iff, ◌⊎◌,
}
use tracing_framework.Prelude.KeySet.{KeySet, contains, add, union}
use tracing_framework.Prelude.Dict.{get, has, put, keys}
use tracing_framework.Leads.{Leads}
use tracing_framework.Graph.Defs.{
  Node, Graph, is_visible, parents_of, children_of, get_visible_nodes,
}
use tracing_framework.Graph.Explore.{explore, explore_all, visit, visit_one}
use tracing_framework.Graph.Visible.{
  get_visible_parents, get_visible_children, IsLinked, IsAcyclic, get_visible_parents_lem,
}
use tracing_framework.Graph.Duality.{visible_duality}
use tracing_framework.Graph.Links.{
  Link, get_visible_links, has_link, links_of, links_to, IsStored, get_visible_links_lem,
}
use tracing_framework.Graph.Trail.{
  explore_path, path_visit, path_one, explore_both, links_out, links_from, get_entire_path_links,
  get_entire_path_nodes,
}
use tracing_framework.Graph.Covers.{Reaches}
use tracing_framework.Graph.EntirePath.{get_entire_path_nodes_lem, get_entire_path_links_lem}
use tracing_framework.Graph.Between.{get_nodes_between, look, any_parent, mark}
use tracing_framework.Graph.BetweenLem.{get_nodes_between_lem}

abbrev node : String → Bool → KeySet → KeySet → Node
node id hidden parents children = record {
  id = id;
  never_visible = false;
  hidden = hidden;
  child_nodes = children;
  parent_nodes = parents;
}

abbrev chain : Graph
chain = record {
  nodelist = "a" ∷ "h" ∷ "b" ∷ [];
  nodes =
      ("a", node "a" false [] ("h" ∷ []))
      ∷ ("h", node "h" true ("a" ∷ []) ("b" ∷ []))
      ∷ ("b", node "b" false ("h" ∷ []) [])
      ∷ [];
}

abbrev rank : String → ℕ
rank a = if a == "b" then 2 else if a == "h" then 1 else 0

chain-IsLinked : IsLinked chain
unfolding get contains
chain-IsLinked = record {
  parents_in = λ a b h. ground (
    arith,
    eq_iff "a" a,
    eq_iff "h" a,
    eq_iff "b" a,
    eq_iff "a" b,
    eq_iff "h" b,
    eq_iff "b" b,
    eq_iff "a" "h",
    eq_iff "a" "b",
    eq_iff "h" "b",
  );
  children_in = λ a b h. ground (
    arith,
    eq_iff "a" a,
    eq_iff "h" a,
    eq_iff "b" a,
    eq_iff "a" b,
    eq_iff "h" b,
    eq_iff "b" b,
    eq_iff "a" "h",
    eq_iff "a" "b",
    eq_iff "h" "b",
  );
  opposite = λ a b. ground (
    arith,
    eq_iff "a" a,
    eq_iff "h" a,
    eq_iff "b" a,
    eq_iff "a" b,
    eq_iff "h" b,
    eq_iff "b" b,
    eq_iff "a" "h",
    eq_iff "a" "b",
    eq_iff "h" "b",
  );
}

chain-IsAcyclic : IsAcyclic chain rank
unfolding get contains
chain-IsAcyclic = record {
  falls = λ a b h. ground (
    arith,
    eq_iff "a" a,
    eq_iff "h" a,
    eq_iff "b" a,
    eq_iff "a" b,
    eq_iff "h" b,
    eq_iff "b" b,
    eq_iff "a" "h",
    eq_iff "a" "b",
    eq_iff "h" "b",
    eq_iff a "b",
    eq_iff a "h",
    eq_iff b "b",
    eq_iff b "h",
  );
}

chain-IsStored : IsStored chain
unfolding get contains
chain-IsStored a h = ground (arith, eq_iff "a" a, eq_iff "h" a, eq_iff "b" a)

rank-le : (a : String) → rank a ≤ 2
rank-le a = ground arith

parents_run : get_visible_parents chain "b" ≡ some ("a" ∷ [])
unfolding get_visible_parents explore visit visit_one get put add union contains keys
parents_run = refl

children_run : get_visible_children chain "a" ≡ some ("b" ∷ [])
unfolding get_visible_children explore visit visit_one get put add union contains keys
children_run = refl

links_run : get_visible_links chain ≡ some (("a", "b") ∷ [])
unfolding get_visible_links get_visible_nodes explore_all explore visit visit_one get put add union
    contains keys links_of links_to
links_run = refl

chain-has_b : has chain.nodes "b" ≡ true
unfolding get
chain-has_b = refl

chain-shows :
    (is_visible chain "a" ≡ true)
    × (is_visible chain "b" ≡ true)
    × (contains "b" chain.nodelist ≡ true)
unfolding get contains
chain-shows = (refl, refl, refl)

chain-has_h : has chain.nodes "h" ≡ true
unfolding get
chain-has_h = refl

get_visible_parents_lem_example :
    (ps : KeySet) × (get_visible_parents chain "b" ≡ some ps)
    × ((p : String) → (contains p ps ≡ true) ↔ Leads (is_visible chain) (parents_of chain) "b" p)
get_visible_parents_lem_example =
    get_visible_parents_lem chain rank "b" chain-IsLinked chain-IsAcyclic chain-has_b

visible_duality_example : contains "a" ("a" ∷ []) ≡ contains "b" ("b" ∷ [])
visible_duality_example =
    visible_duality chain rank 2 "a" "b" ("a" ∷ []) ("b" ∷ []) chain-IsLinked chain-IsAcyclic
      rank-le chain-shows.0 chain-shows.1 parents_run children_run

get_visible_links_lem_example :
    (ls : List Link) × (get_visible_links chain ≡ some ls)
    × ((s t : String)
        → (has_link s t ls ≡ true) ↔ (
            (contains t chain.nodelist ≡ true)
            × (is_visible chain t ≡ true)
            × Leads (is_visible chain) (parents_of chain) t s))
get_visible_links_lem_example =
    get_visible_links_lem chain rank chain-IsLinked chain-IsAcyclic chain-IsStored

get_entire_path_links_lem_example :
    (ls : List Link) × (get_entire_path_links chain "h" ≡ some ls)
    × ((s t : String)
        → (has_link s t ls ≡ true) ↔ (
            (Reaches (parents_of chain) "h" t × Leads (is_visible chain) (parents_of chain) t s)
            ⊎ (Reaches (children_of chain) "h" s
                × Leads (is_visible chain) (children_of chain) s t)))
get_entire_path_links_lem_example =
    get_entire_path_links_lem chain rank 2 "h" chain-IsLinked chain-IsAcyclic rank-le chain-has_h

path_run : get_entire_path_links chain "b" ≡ some (("a", "b") ∷ ("a", "h") ∷ [])
unfolding get_entire_path_links explore_both explore_path path_visit path_one get put add union
    contains keys links_of links_to links_out links_from
path_run = refl

-- Two hidden nodes, each the parent of the other.
abbrev cycle : Graph
cycle = record {
  nodelist = "x" ∷ "y" ∷ [];
  nodes =
      ("x", node "x" true ("y" ∷ []) ("y" ∷ [])) ∷ ("y", node "y" true ("x" ∷ []) ("x" ∷ [])) ∷ [];
}

cycle-IsLinked : IsLinked cycle
unfolding get contains
cycle-IsLinked = record {
  parents_in = λ a b h. ground (arith, eq_iff "x" a, eq_iff "y" a, eq_iff "x" b, eq_iff "y" b);
  children_in = λ a b h. ground (arith, eq_iff "x" a, eq_iff "y" a, eq_iff "x" b, eq_iff "y" b);
  opposite = λ a b. ground (arith, eq_iff "x" a, eq_iff "y" a, eq_iff "x" b, eq_iff "y" b);
}

cycle-has_x : has cycle.nodes "x" ≡ true
unfolding get
cycle-has_x = refl

get_entire_path_nodes_lem_example :
    (ns : KeySet) × (get_entire_path_nodes cycle "x" ≡ some ns)
    × ((k : String)
        → (contains k ns ≡ true)
          ↔ (Reaches (parents_of cycle) "x" k ⊎ Reaches (children_of cycle) "x" k))
get_entire_path_nodes_lem_example = get_entire_path_nodes_lem cycle "x" cycle-IsLinked cycle-has_x

between_run : get_nodes_between 3 chain "b" "a" ≡ some ("b" ∷ "a" ∷ "a" ∷ "h" ∷ "b" ∷ [])
unfolding get_nodes_between look any_parent mark get put
between_run = refl

get_nodes_between_lem_example :
    (ns : List String) × (get_nodes_between 3 chain "b" "a" ≡ some ns)
    × ((k : String)
        → (contains k ns ≡ true) ↔ (
            ◌≡◌ {A = String} "b" k
            ⊎ (◌≡◌ {A = String} "a" k
                ⊎ (Reaches (parents_of chain) "b" k × Reaches (parents_of chain) k "a"))))
get_nodes_between_lem_example =
    get_nodes_between_lem 3 chain rank "b" "a" chain-IsAcyclic (omega arith)
