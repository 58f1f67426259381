-- ===== src/Graph/Duality.antt =====
-- The visible parents and the visible children of the nodes of a graph belong together.
use tracing_framework.Prelude.{
  ℕ, ◌-◌, ◌≤◌, String, some, [], sym, ◌≡◌, true, arith, ◌↔◌, Option-cases, inl, inr, Bool_ext,
}
use tracing_framework.Prelude.KeySet.{KeySet, contains}
use tracing_framework.Graph.Defs.{Graph, parents_of, children_of, is_visible}
use tracing_framework.Leads.{Leads}
use tracing_framework.Graph.Explore.{explore}
use tracing_framework.Graph.Exact.{explore_exact}
use tracing_framework.Graph.Chain.{Leads-reverse}
use tracing_framework.Graph.Visible.{
  get_visible_parents, get_visible_children, get_visible_parents_sound, IsLinked, IsAcyclic,
  fuel_of,
}

-- Where the ranks have a bound, they can be counted from the other end.
pub get_visible_children_sound :
    (g : Graph) (rank : String → ℕ) (top : ℕ) (id c : String) (cs : KeySet)
    → IsLinked g
    → IsAcyclic g rank
    → ((a : String) → rank a ≤ top)
    → get_visible_children g id ≡ some cs
    → (contains c cs ≡ true) ↔ Leads (is_visible g) (children_of g) id c
unfolding get_visible_children
get_visible_children_sound g rank top id c cs l acyclic bound h =
    elim (Option-cases (explore (is_visible g) (children_of g) (fuel_of g) id [])) [
      | inl e ↦ absurd (ground arith)
      | inr (m, e) ↦
          let x =
            explore_exact (is_visible g) (children_of g) (λ a. top - rank a)
              (λ a b k v. ground (arith, l.opposite b a, acyclic.falls b a, bound b)) (fuel_of g) id
              m c e in
          ground (arith, x)
    ]

-- In a linked graph without cycles, a visible node is among the visible parents of a visible node
-- exactly when that node is among its visible children.
pub visible_duality :
    (g : Graph) (rank : String → ℕ) (top : ℕ) (p c : String) (ps cs : KeySet)
    → IsLinked g
    → IsAcyclic g rank
    → ((a : String) → rank a ≤ top)
    → is_visible g p ≡ true
    → is_visible g c ≡ true
    → get_visible_parents g c ≡ some ps
    → get_visible_children g p ≡ some cs
    → contains p ps ≡ contains c cs
visible_duality g rank top p c ps cs l acyclic bound vp vc hp hc =
    let up = get_visible_parents_sound g rank c p ps acyclic hp in
    let down = get_visible_children_sound g rank top p c cs l acyclic bound hc in
    Bool_ext (contains p ps) (contains c cs)
      (λ k.
        down.1
          (Leads-reverse (is_visible g) (parents_of g) (children_of g) l.opposite c p vc (up.0 k)))
      (λ k. up.1 (
        Leads-reverse (is_visible g) (children_of g) (parents_of g) (λ a b. sym (l.opposite b a)) p
          c vp (down.0 k)))
