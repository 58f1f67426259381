-- ===== src/Graph/Visible.antt =====
-- `getVisibleParents` and `getVisibleChildren`.
use tracing_framework.Prelude.{
  ℕ, suc, ◌<◌, String, Option, some, List, [], ◌∷◌, ◌≡◌, refl, true, arith, length, ◌↔◌,
  Option-cases, inl, inr,
}
use mathlib.Core.Option
use tracing_framework.Prelude.KeySet.{KeySet, contains}
use tracing_framework.Prelude.Dict.{has, get, keys, set_at, contains-keys}
use tracing_framework.Graph.Defs.{Graph, parents_of, children_of, is_visible}
use tracing_framework.Leads.{Leads}
use tracing_framework.Graph.Explore.{explore}
use tracing_framework.Graph.Ends.{unseen, explore_ends}
use tracing_framework.Graph.Exact.{explore_exact}

-- One more than the number of nodes.
abbrev pub fuel_of : Graph → ℕ
fuel_of g = suc (length (keys g.nodes))

unfoldable pub get_visible_parents : Graph → String → Option KeySet
get_visible_parents g id =
    Option.map (λ m. set_at m id) (explore (is_visible g) (parents_of g) (fuel_of g) id [])

unfoldable pub get_visible_children : Graph → String → Option KeySet
get_visible_children g id =
    Option.map (λ m. set_at m id) (explore (is_visible g) (children_of g) (fuel_of g) id [])

-- The parents and children of the nodes are nodes of the graph, and the two maps hold the same edges.
pub record IsLinked (g : Graph) : Type 0 where
  pub parents_in : (a b : String) → contains b (parents_of g a) ≡ true → has g.nodes b ≡ true
  pub children_in : (a b : String) → contains b (children_of g a) ≡ true → has g.nodes b ≡ true
  pub opposite : (a b : String) → contains b (parents_of g a) ≡ contains a (children_of g b)

-- No cycle of edges: some number falls from a node to its parents.
pub record IsAcyclic (g : Graph) (rank : String → ℕ) : Type 0 where
  pub falls : (a b : String) → contains b (parents_of g a) ≡ true → rank b < rank a

pub unseen-empty : (ids : List String) → unseen ids [] ≡ length ids
unfolding get
unseen-empty [] = refl
unseen-empty (k ∷ ks) = omega (arith, unseen-empty ks)

-- Both searches return, on every linked graph, with cycles or without.
pub get_visible_parents_ends :
    (g : Graph) (id : String)
    → IsLinked g
    → has g.nodes id ≡ true
    → (ps : KeySet) × (get_visible_parents g id ≡ some ps)
unfolding get_visible_parents get
get_visible_parents_ends g id l i =
    let ids = keys g.nodes in
    let (m, e, grown) =
      explore_ends (is_visible g) (parents_of g) ids
        (λ a b h k v. ground (arith, contains-keys b g.nodes, l.parents_in a b k)) (fuel_of g) id []
        (ground (arith, contains-keys id g.nodes)) (omega (arith, unseen-empty ids)) in
    (set_at m id, ground arith)

pub get_visible_children_ends :
    (g : Graph) (id : String)
    → IsLinked g
    → has g.nodes id ≡ true
    → (cs : KeySet) × (get_visible_children g id ≡ some cs)
unfolding get_visible_children get
get_visible_children_ends g id l i =
    let ids = keys g.nodes in
    let (m, e, grown) =
      explore_ends (is_visible g) (children_of g) ids
        (λ a b h k v. ground (arith, contains-keys b g.nodes, l.children_in a b k)) (fuel_of g) id
        [] (ground (arith, contains-keys id g.nodes)) (omega (arith, unseen-empty ids)) in
    (set_at m id, ground arith)

-- On a graph without cycles what is returned is exactly what the hidden nodes lead to.
pub get_visible_parents_sound :
    (g : Graph) (rank : String → ℕ) (id p : String) (ps : KeySet)
    → IsAcyclic g rank
    → get_visible_parents g id ≡ some ps
    → (contains p ps ≡ true) ↔ Leads (is_visible g) (parents_of g) id p
unfolding get_visible_parents
get_visible_parents_sound g rank id p ps acyclic h =
    elim (Option-cases (explore (is_visible g) (parents_of g) (fuel_of g) id [])) [
      | inl e ↦ absurd (ground arith)
      | inr (m, e) ↦
          let x =
            explore_exact (is_visible g) (parents_of g) rank (λ a b k v. acyclic.falls a b k)
              (fuel_of g) id m p e in
          ground (arith, x)
    ]

-- In a linked graph without cycles `getVisibleParents` of a node returns, and returns exactly the
-- visible nodes from which a chain of hidden nodes, possibly empty, leads to the node.
pub get_visible_parents_lem :
    (g : Graph) (rank : String → ℕ) (id : String)
    → IsLinked g
    → IsAcyclic g rank
    → has g.nodes id ≡ true
    → (ps : KeySet) × (get_visible_parents g id ≡ some ps)
      × ((p : String) → (contains p ps ≡ true) ↔ Leads (is_visible g) (parents_of g) id p)
get_visible_parents_lem g rank id l acyclic i =
    let (ps, e) = get_visible_parents_ends g id l i in
    (ps, e, λ p. get_visible_parents_sound g rank id p ps acyclic e)
