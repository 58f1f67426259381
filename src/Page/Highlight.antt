-- ===== src/Page/Highlight.antt =====
-- `highlightPath`: what gets the classes hovered and immediate when the mouse is over a node.
use Prim.Native.String
use tracing_framework.Prelude.{
  ◌>>=◌, ℕ, ◌≤◌, String, Option, some, List, [], ◌∷◌, ◌++◌, Bool, true, ◌&&◌, ◌==◌, ◌≡◌, ◌↔◌, ◌⊎◌,
  sym, ap₂, subst, arith, eq_iff, eq_refl, Bool-cases, inl, inr, filter, map,
}
use tracing_framework.Prelude.KeySet.{KeySet, contains, contains-filter, contains-append}
use tracing_framework.Prelude.Dict.{has}
use tracing_framework.Leads.{Leads}
use tracing_framework.Graph.Covers.{Reaches}
use tracing_framework.Graph.Defs.{Graph, parents_of, children_of, is_visible}
use tracing_framework.Graph.Visible.{IsLinked, IsAcyclic, get_visible_parents, get_visible_children}
use tracing_framework.Graph.Visible.{get_visible_parents_lem, get_visible_children_ends}
use tracing_framework.Graph.Links.{Link, has_link, IsStored}
use tracing_framework.Graph.Trail.{get_entire_path_links}
use tracing_framework.Graph.EntirePath.{get_entire_path_links_lem}
use tracing_framework.Graph.Duality.{get_visible_children_sound}
use tracing_framework.Page.Defs.{Page, shown_graph}
use tracing_framework.Page.Drawn.{shown-IsLinked, shown-IsAcyclic, has-shown_graph, has_link-filter}
use tracing_framework.Page.Session.{IsCurrent}

pub record Highlight : Type 0 where
  pub hovered_nodes : List String
  pub hovered_edges : List Link
  pub immediate_nodes : List String
  pub immediate_edges : List Link

-- `pathnodes`
unfoldable pub ends_of : List Link → KeySet
ends_of [] = []
ends_of ((s, t) ∷ ls) = s ∷ t ∷ ends_of ls

-- `pathlinks[p.source.id+p.target.id]`
abbrev pub edge_key : Link → String
edge_key l = String.◌++◌ l.0 l.1

abbrev pub is_key_of : List Link → Link → Bool
is_key_of ls d = contains (edge_key d) (map edge_key ls)

abbrev pub highlight_of : Page → String → List Link → KeySet → KeySet → Highlight
highlight_of p center path parents children =
    let up : List Link = map (λ q. (q, center)) parents in
    let down : List Link = map (λ q. (center, q)) children in
    record {
      hovered_nodes = filter (λ d. contains d (ends_of path)) p.nodes;
      hovered_edges = filter (is_key_of path) p.edges;
      immediate_nodes = filter (λ d. contains d (center ∷ parents ++ children)) p.nodes;
      immediate_edges = filter (is_key_of (up ++ down)) p.edges;
    }

unfoldable pub highlight_path : Page → String → Option Highlight
highlight_path p center = do
  path ← get_entire_path_links (shown_graph p) center
  parents ← get_visible_parents (shown_graph p) center
  children ← get_visible_children (shown_graph p) center
  some (highlight_of p center path parents children)

-- A link of the list ends in `k` or starts in it.
abbrev pub Touches : List Link → String → Type 0
Touches ls k = ((s : String) × (has_link s k ls ≡ true)) ⊎ ((t : String) × (has_link k t ls ≡ true))

Touches-later : (l : Link) (ls : List Link) (k : String) → Touches ls k → Touches (l ∷ ls) k
unfolding has_link
Touches-later (a, b) ls k (inl (s, h)) = inl (s, ground (arith, h))
Touches-later (a, b) ls k (inr (t, h)) = inr (t, ground (arith, h))

ends_of-Touches : (k : String) (ls : List Link) → contains k (ends_of ls) ≡ true → Touches ls k
unfolding ends_of has_link contains
ends_of-Touches k [] h = absurd (ground (arith, h))
ends_of-Touches k ((a, b) ∷ ls) h = elim (Bool-cases (a == k)) [
  | inl e ↦ inr (b, ground (arith, e, eq_refl b))
  | inr e ↦ elim (Bool-cases (b == k)) [
    | inl f ↦ inl (a, ground (arith, f, eq_refl a))
    | inr f ↦ Touches-later (a, b) ls k (ends_of-Touches k ls (ground (arith, e, f, h)))
  ]
]

contains-ends_of :
    (s t : String) (ls : List Link)
    → has_link s t ls ≡ true
    → (contains s (ends_of ls) ≡ true) × (contains t (ends_of ls) ≡ true)
unfolding ends_of has_link contains
contains-ends_of s t [] h = absurd (ground (arith, h))
contains-ends_of s t ((a, b) ∷ ls) h =
    (ground (arith, h, contains-ends_of s t ls), ground (arith, h, contains-ends_of s t ls))

Touches-ends_of : (k : String) (ls : List Link) → Touches ls k → contains k (ends_of ls) ≡ true
Touches-ends_of k ls (inl (s, h)) = (contains-ends_of s k ls h).1
Touches-ends_of k ls (inr (t, h)) = (contains-ends_of k t ls h).0

is_key_of-link :
    (s t : String) (ls : List Link) → has_link s t ls ≡ true → is_key_of ls (s, t) ≡ true
unfolding has_link contains
is_key_of-link s t [] h = absurd (ground (arith, h))
is_key_of-link s t ((a, b) ∷ ls) h = elim (Bool-cases (a == s && (b == t))) [
  | inl e ↦
      let ea : a ≡ s = ground (arith, e, eq_iff a s) in
      let eb : b ≡ t = ground (arith, e, eq_iff b t) in
      let same : edge_key (a, b) ≡ edge_key (s, t) = ap₂ (λ x y. edge_key (x, y)) ea eb in
      ground (arith, same, eq_iff (edge_key (a, b)) (edge_key (s, t)))
  | inr e ↦ ground (arith, is_key_of-link s t ls (ground (arith, e, h)))
]

module _ (g : Graph) (rank : String → ℕ) (top : ℕ) (l : IsLinked g) (a : IsAcyclic g rank)
    (stored : IsStored g) (bound : (k : String) → rank k ≤ top) where
  -- The link lies on the path of `center`, up to its ancestors or down to its descendants.
  abbrev pub OnPath : Page → String → String → String → Type 0
  OnPath p center s t =
      (Reaches (parents_of (shown_graph p)) center t
        × Leads (is_visible (shown_graph p)) (parents_of (shown_graph p)) t s)
      ⊎ (Reaches (children_of (shown_graph p)) center s
          × Leads (is_visible (shown_graph p)) (children_of (shown_graph p)) s t)

  -- In a linked graph without cycles and with bounded ranks, whose listed nodes are stored, the mouse over a node that is drawn highlights
  -- a path. Exactly those drawn nodes are hovered that are an end of a link on the path: a link from a
  -- nearest visible ancestor to the node or an ancestor of it, or from the node or a descendant of it to a
  -- nearest visible descendant. All drawn edges that are such a link are hovered. Exactly the node itself
  -- and the nearest visible ancestors and descendants of it that are drawn are immediate.
  pub highlight_path_lem :
      (p : Page) (center : String)
      → IsCurrent g p
      → contains center p.nodes ≡ true
      → (h : Highlight) × (highlight_path p center ≡ some h)
        × ((k : String)
            → (contains k h.hovered_nodes ≡ true) ↔ (
                (contains k p.nodes ≡ true)
                × (((s : String) × OnPath p center s k) ⊎ ((t : String) × OnPath p center k t))))
        × ((s t : String)
            → has_link s t p.edges ≡ true
            → OnPath p center s t
            → has_link s t h.hovered_edges ≡ true)
        × ((k : String)
            → (contains k h.immediate_nodes ≡ true) ↔ (
                (contains k p.nodes ≡ true)
                × ((center ≡ k)
                    ⊎ Leads (is_visible (shown_graph p)) (parents_of (shown_graph p)) center k
                    ⊎ Leads (is_visible (shown_graph p)) (children_of (shown_graph p)) center k)))
  unfolding highlight_path contains
  highlight_path_lem p center c i =
      let lp = subst IsLinked (sym c.same) l in
      let ag = subst (λ z. IsAcyclic z rank) (sym c.same) a in
      let st = subst IsStored (sym c.same) stored in
      let ls = shown-IsLinked rank p lp ag st c.valid in
      let acyclic = shown-IsAcyclic rank p lp ag st c.valid in
      let here : has (shown_graph p).nodes center ≡ true =
        ground (arith, i, c.drawn.nodes_drawn center, has-shown_graph p center) in
      let (path, e, on) =
        get_entire_path_links_lem (shown_graph p) rank top center ls acyclic bound here in
      let (parents, f, up) = get_visible_parents_lem (shown_graph p) rank center ls acyclic here in
      let (children, d) = get_visible_children_ends (shown_graph p) center ls here in
      let down = λ (k : String).
        get_visible_children_sound (shown_graph p) rank top center k children ls acyclic bound d in
      (
        highlight_of p center path parents children,
        ground (arith, e, f, d),
        λ k. (
          λ h. (
            ground (arith, h, contains-filter (λ x. contains x (ends_of path)) k p.nodes),
            elim (ends_of-Touches k path
                (ground (arith, h, contains-filter (λ x. contains x (ends_of path)) k p.nodes))) [
                  | inl (s, m) ↦ inl (s, (on s k).0 m)
                  | inr (t, m) ↦ inr (t, (on k t).0 m)
                ],
          ),
          λ (drawn, ends).
              let touches : Touches path k = elim ends [
                | inl (s, m) ↦ inl (s, (on s k).1 m)
                | inr (t, m) ↦ inr (t, (on k t).1 m)
              ] in
              ground (
                arith,
                drawn,
                Touches-ends_of k path touches,
                contains-filter (λ x. contains x (ends_of path)) k p.nodes,
              ),
        ),
        λ s t drawn m. ground (
          arith,
          drawn,
          has_link-filter (is_key_of path) s t p.edges,
          is_key_of-link s t path ((on s t).1 m),
        ),
        λ k. ground (
          arith,
          contains-filter (λ x. contains x (center ∷ parents ++ children)) k p.nodes,
          contains-append k parents children,
          eq_iff center k,
          up k,
          down k,
        ),
      )
