-- ===== src/Graph/EntirePath.antt =====
-- The nodes and links that `getEntirePathNodes` and `getEntirePathLinks` return.
use tracing_framework.Prelude.{
  ℕ, suc, ◌≤◌, ◌-◌, String, some, List, [], ◌∷◌, ◌++◌, ◌≡◌, refl, true, arith, ◌↔◌, ◌⊎◌, inl, inr,
  length, ◌==◌, ◌&&◌, Bool, eq_iff,
}
use tracing_framework.Prelude.KeySet.{KeySet, contains}
use tracing_framework.Prelude.Dict.{Dict, has, get, keys, set_at, contains-keys}
use tracing_framework.Leads.{Leads}
use tracing_framework.Graph.Defs.{Graph, parents_of, children_of, is_visible}
use tracing_framework.Graph.Visible.{IsLinked, IsAcyclic, fuel_of, unseen-empty}
use tracing_framework.Graph.Links.{Link, has_link, links_of, has_link-links_of, has_link-append}
use tracing_framework.Graph.Trail.{
  Trail, explore_path, explore_both, get_entire_path_nodes, get_entire_path_links, links_from,
  links_out,
}
use tracing_framework.Graph.Covers.{Reaches, here, step, explore_path_lem}
use tracing_framework.Graph.PathExact.{explore_path_exact}

-- A search from an empty map, with the nodes `seen` noted before.
record IsSearch (next : String → KeySet) (center : String) (seen : KeySet) (t : Trail)
    : Type 0 where
  entries : (k : String) → (has t.ends k ≡ true) ↔ Reaches next center k
  noted :
      (k : String)
      → (contains k t.nodes ≡ true) ↔ ((contains k seen ≡ true) ⊎ Reaches next center k)

Reaches-closed :
    {next : String → KeySet} (t : Trail) {a k : String}
    → ((j : String)
        → has t.ends j ≡ true
        → (b : String) → contains b (next j) ≡ true
        → has t.ends b ≡ true)
    → Reaches next a k
    → has t.ends a ≡ true
    → has t.ends k ≡ true
Reaches-closed t c here i = i
Reaches-closed t c (step {a} {b} e r) i = Reaches-closed t c r (c a i b e)

search_lem :
    (vis : String → Bool) (next : String → KeySet) (ids : List String) (center : String)
    (seen : KeySet)
    → ((a b : String) → contains a ids ≡ true → contains b (next a) ≡ true → contains b ids ≡ true)
    → contains center ids ≡ true
    → (t : Trail) × (explore_path vis next
          (suc (length ids))
          center
          (record { ends = []; nodes = seen })
        ≡ some t)
      × IsSearch next center seen t
unfolding get
search_lem vis next ids center seen inside i =
    let s : Trail = record { ends = []; nodes = seen } in
    let (t, e, c, m) =
      explore_path_lem vis next ids inside (suc (length ids)) center s i
        (omega (arith, unseen-empty ids)) in
    let all : (k : String) → Reaches next center k → has t.ends k ≡ true = λ k r.
      Reaches-closed t (λ j h. elim (c.closed j h) [ inl old ↦ absurd (ground arith) | inr n ↦ n ])
        r m in
    (
      t,
      e,
      record {
        entries =
            λ k. (λ h. elim (c.met k h) [ inl old ↦ absurd (ground arith) | inr r ↦ r ], all k);
        noted = λ k. (
          c.sound k,
          λ h. elim h [
            | inl old ↦ c.kept k old
            | inr r ↦ elim (c.noted k (all k r)) [ inl old ↦ absurd (ground arith) | inr n ↦ n ]
          ],
        );
      },
    )

-- Both searches.
explore_both_lem :
    (g : Graph) (center : String)
    → IsLinked g
    → has g.nodes center ≡ true
    → (up : Trail) × (down : Trail) × (explore_both g center ≡ some (up, down))
      × (explore_path
            (is_visible g)
            (parents_of g)
            (fuel_of g)
            center
            (record { ends = []; nodes = [] })
          ≡ some up)
      × (explore_path
            (is_visible g)
            (children_of g)
            (fuel_of g)
            center
            (record { ends = []; nodes = up.nodes })
          ≡ some down)
      × IsSearch (parents_of g) center [] up
      × IsSearch (children_of g) center up.nodes down
unfolding explore_both
explore_both_lem g center l i =
    let ids = keys g.nodes in
    let c : contains center ids ≡ true = ground (arith, contains-keys center g.nodes) in
    let (up, e, s) =
      search_lem (is_visible g) (parents_of g) ids center []
        (λ a b h k. ground (arith, contains-keys b g.nodes, l.parents_in a b k)) c in
    let (down, e', s') =
      search_lem (is_visible g) (children_of g) ids center up.nodes
        (λ a b h k. ground (arith, contains-keys b g.nodes, l.children_in a b k)) c in
    (up, down, ground arith, e, e', s, s')

-- In a linked graph, with cycles or without, getEntirePathNodes of a stored node returns, and returns
-- exactly the node's ancestors and descendants, the node itself among them.
pub get_entire_path_nodes_lem :
    (g : Graph) (center : String)
    → IsLinked g
    → has g.nodes center ≡ true
    → (ns : KeySet) × (get_entire_path_nodes g center ≡ some ns)
      × ((k : String)
          → (contains k ns ≡ true)
            ↔ (Reaches (parents_of g) center k ⊎ Reaches (children_of g) center k))
unfolding get_entire_path_nodes contains
get_entire_path_nodes_lem g center l i =
    let (up, down, e, eu, ed, u, d) = explore_both_lem g center l i in
    (
      down.nodes,
      ground arith,
      λ k. (
        λ h. elim ((d.noted k).0 h) [
          | inr r ↦ inr r
          | inl o ↦ elim ((u.noted k).0 o) [ inl none' ↦ absurd (ground arith) | inr r ↦ inl r ]
        ],
        λ h. elim h [
          | inl r ↦ (d.noted k).1 (inl ((u.noted k).1 (inr r)))
          | inr r ↦ (d.noted k).1 (inr r)
        ],
      ),
    )

has_link-links_from :
    (s t u : String) (ts : KeySet) → has_link s t (links_from u ts) ≡ (u == s && contains t ts)
unfolding has_link links_from contains
has_link-links_from s t u [] = ground arith
has_link-links_from s t u (p ∷ ps) = ground (arith, has_link-links_from s t u ps)

has_link-links_out :
    (s t : String) (m : Dict KeySet) (ss : List String)
    → has_link s t (links_out m ss) ≡ (contains s ss && contains t (set_at m s))
unfolding has_link links_out contains
has_link-links_out s t m [] = refl
has_link-links_out s t m (u ∷ ss) = ground (
  arith,
  has_link-append s t (links_from u (set_at m u)) (links_out m ss),
  has_link-links_from s t u (set_at m u),
  has_link-links_out s t m ss,
  eq_iff u s,
)

-- In a linked graph without cycles and with bounded ranks getEntirePathLinks of a stored node returns. There is a link from s
-- to t exactly when t is the node or an ancestor of it and s one of the nearest visible ancestors of t,
-- or s is the node or a descendant of it and t one of the nearest visible descendants of s.
pub get_entire_path_links_lem :
    (g : Graph) (rank : String → ℕ) (top : ℕ) (center : String)
    → IsLinked g
    → IsAcyclic g rank
    → ((a : String) → rank a ≤ top)
    → has g.nodes center ≡ true
    → (ls : List Link) × (get_entire_path_links g center ≡ some ls)
      × ((s t : String)
          → (has_link s t ls ≡ true) ↔ (
              (Reaches (parents_of g) center t × Leads (is_visible g) (parents_of g) t s)
              ⊎ (Reaches (children_of g) center s × Leads (is_visible g) (children_of g) s t)))
unfolding get_entire_path_links
get_entire_path_links_lem g rank top center l acyclic bound i =
    let (up, down, e, eu, ed, u, d) = explore_both_lem g center l i in
    (
      links_of up.ends (keys up.ends) ++ links_out down.ends (keys down.ends),
      ground arith,
      λ s t. ground (
        arith,
        has_link-append s t (links_of up.ends (keys up.ends))
            (links_out down.ends (keys down.ends)),
        has_link-links_of s t up.ends (keys up.ends),
        has_link-links_out s t down.ends (keys down.ends),
        contains-keys t up.ends,
        contains-keys s down.ends,
        u.entries t,
        d.entries s,
        explore_path_exact (is_visible g) (parents_of g) rank acyclic.falls (fuel_of g) center t s
            (record { ends = []; nodes = [] }) up eu refl,
        explore_path_exact (is_visible g) (children_of g) (λ a. top - rank a)
            (λ a b k. ground (arith, l.opposite b a, acyclic.falls b a, bound b)) (fuel_of g) center
            s t (record { ends = []; nodes = up.nodes }) down ed refl,
      ),
    )
