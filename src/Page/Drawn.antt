-- ===== src/Page/Drawn.antt =====
-- What `draw` draws.
use tracing_framework.Prelude.{
  eq_refl, ◌>>=◌, String, Option, none, some, List, [], ◌∷◌, Bool, true, false, not, ◌&&◌, ◌==◌,
  ◌≡◌, ◌∙◌, ◌↔◌, refl, sym, ap, ap₂, some_inj, arith, eq_iff, Bool-cases, Option-cases, inl, inr,
  filter, ℕ,
}
use tracing_framework.Prelude.KeySet.{KeySet, contains, contains-filter}
use tracing_framework.Prelude.Dict.{Dict, get, has}
use tracing_framework.Leads.{Leads, visible_of_Leads}
use tracing_framework.Graph.Defs.{
  Node, Graph, parents_of, children_of, is_visible, get_visible_nodes,
}
use tracing_framework.Graph.Visible.{IsLinked, IsAcyclic}
use tracing_framework.Graph.Links.{Link, has_link, IsStored, get_visible_links_lem}
use tracing_framework.History.Defs.{Item}
use tracing_framework.History.Visibility.{is_hidden, selected, IsValid}
use tracing_framework.Menu.Defs.{never_visible}
use tracing_framework.Selectable.Within.{Within}
use tracing_framework.Page.Defs.{Page, flagged, shown_graph, with_edges, edge_id, keyed, draw}

get-flagged-none :
    (hidden : Dict Bool) (ns : Dict Node) (k : String)
    → get ns k ≡ none
    → get (flagged hidden ns) k ≡ none
unfolding get flagged
get-flagged-none hidden [] k h = refl
get-flagged-none hidden ((j, n) ∷ ns) k h = elim (Bool-cases (j == k)) [
  | inl e ↦ absurd (ground (arith, e))
  | inr e ↦ ground (arith, e, get-flagged-none hidden ns k)
]

get-flagged :
    (hidden : Dict Bool) (ns : Dict Node) (k : String) (n : Node)
    → get ns k ≡ some n
    → get (flagged hidden ns) k ≡ some (record n { hidden = is_hidden hidden k })
unfolding get flagged
get-flagged hidden [] k n h = absurd (ground arith)
get-flagged hidden ((j, m) ∷ ns) k n h = elim (Bool-cases (j == k)) [
  | inl e ↦
      let mn : m ≡ n = some_inj (rw e at h) in
      let jk : j ≡ k = (eq_iff j k).0 e in
      let flag : String → Node → Option Node =
        λ i z. some (record z { hidden = is_hidden hidden i }) in
      rw e (ap₂ flag jk mn)
  | inr e ↦ rw e (get-flagged hidden ns k n (rw e at h))
]

-- A node that the page shows: one that is never hidden by itself, nor by an item of the history.
abbrev pub shows : Graph → List Item → String → Bool
shows g items k = has g.nodes k && not (never_visible g k) && not (selected items k)

parents-shown_graph : (p : Page) (k : String) → parents_of (shown_graph p) k ≡ parents_of p.graph k
unfolding shown_graph
parents-shown_graph p k = elim (Option-cases (get p.graph.nodes k)) [
  | inl e ↦ ground (arith, e, get-flagged-none p.history.hidden p.graph.nodes k e)
  | inr (n, e) ↦ ground (arith, e, get-flagged p.history.hidden p.graph.nodes k n e)
]

children-shown_graph :
    (p : Page) (k : String) → children_of (shown_graph p) k ≡ children_of p.graph k
unfolding shown_graph
children-shown_graph p k = elim (Option-cases (get p.graph.nodes k)) [
  | inl e ↦ ground (arith, e, get-flagged-none p.history.hidden p.graph.nodes k e)
  | inr (n, e) ↦ ground (arith, e, get-flagged p.history.hidden p.graph.nodes k n e)
]

pub has-shown_graph : (p : Page) (k : String) → has (shown_graph p).nodes k ≡ has p.graph.nodes k
unfolding shown_graph
has-shown_graph p k = elim (Option-cases (get p.graph.nodes k)) [
  | inl e ↦ ground (arith, e, get-flagged-none p.history.hidden p.graph.nodes k e)
  | inr (n, e) ↦ ground (arith, e, get-flagged p.history.hidden p.graph.nodes k n e)
]

visible-shown_graph :
    (p : Page) (k : String)
    → IsValid p.history
    → is_visible (shown_graph p) k ≡ shows p.graph p.history.items k
unfolding shown_graph
visible-shown_graph p k v = elim (Option-cases (get p.graph.nodes k)) [
  | inl e ↦ ground (arith, e, get-flagged-none p.history.hidden p.graph.nodes k e)
  | inr (n, e) ↦ ground (arith, e, v.shown k, get-flagged p.history.hidden p.graph.nodes k n e)
]

-- A chain stays one where its nodes stay hidden and its end is visible.
pub Leads-map :
    (vis vis' : String → Bool) (next next' : String → KeySet) {a p : String}
    → ((x y : String) → contains y (next x) ≡ true → contains y (next' x) ≡ true)
    → ((q : String) → vis q ≡ false → vis' q ≡ false)
    → vis' p ≡ true
    → Leads vis next a p
    → Leads vis' next' a p
Leads-map vis vis' next next' n h v (Leads.direct c w) = Leads.direct (n _ _ c) v
Leads-map vis vis' next next' n h v (Leads.through c w l) =
    Leads.through (n _ _ c) (h _ w) (Leads-map vis vis' next next' n h v l)

pub has_link-filter :
    (f : Link → Bool) (s t : String) (ls : List Link)
    → has_link s t (filter f ls) ≡ (has_link s t ls && f (s, t))
unfolding has_link
has_link-filter f s t [] = refl
has_link-filter f s t ((a, b) ∷ ls) = elim (Bool-cases (a == s && (b == t))) [
  | inl e ↦
      let ea : a ≡ s = ground (arith, e, eq_iff a s) in
      let eb : b ≡ t = ground (arith, e, eq_iff b t) in
      let same : f (a, b) ≡ f (s, t) = ap₂ (λ x y. f (x, y)) ea eb in
      ground (arith, e, same, has_link-filter f s t ls)
  | inr e ↦ ground (arith, e, has_link-filter f s t ls)
]

-- The ids of the graph's edges tell them apart: no two pairs of nodes are the same text when they are
-- written one after the other.
abbrev pub KeysDiffer : Graph → Type 0
KeysDiffer g =
    (a b c d : String)
    → has g.nodes a ≡ true
    → has g.nodes b ≡ true
    → has g.nodes c ≡ true
    → has g.nodes d ≡ true
    → edge_id (a, b) ≡ edge_id (c, d)
    → (a ≡ c) × (b ≡ d)

keyed-has_link :
    (s t : String) (seen : KeySet) (ls : List Link)
    → has_link s t (keyed seen ls) ≡ true
    → has_link s t ls ≡ true
unfolding keyed has_link
keyed-has_link s t seen [] h = h
keyed-has_link s t seen ((a, b) ∷ ls) h =
    ground (arith, keyed-has_link s t (edge_id (a, b) ∷ seen) ls, h)

has_link-keyed :
    (g : Graph) (s t : String) (seen : KeySet) (ls : List Link)
    → KeysDiffer g
    → ((a b : String) → has_link a b ls ≡ true → (has g.nodes a ≡ true) × (has g.nodes b ≡ true))
    → contains (edge_id (s, t)) seen ≡ false
    → has_link s t ls ≡ true
    → has_link s t (keyed seen ls) ≡ true
unfolding keyed has_link contains
has_link-keyed g s t seen [] keys ends new h = h
has_link-keyed g s t seen ((a, b) ∷ ls) keys ends new h = elim (Bool-cases (a == s && (b == t))) [
  | inl e ↦
      let ea : a ≡ s = ground (arith, e, eq_iff a s) in
      let eb : b ≡ t = ground (arith, e, eq_iff b t) in
      let same : contains (edge_id (a, b)) seen ≡ contains (edge_id (s, t)) seen =
        ap₂ (λ x y. contains (edge_id (x, y)) seen) ea eb in
      ground (arith, e, new, same)
  | inr e ↦
      let later : has_link s t ls ≡ true = ground (arith, e, h) in
      let apart : (edge_id (a, b) == edge_id (s, t)) ≡ false =
        elim (Bool-cases (edge_id (a, b) == edge_id (s, t))) [
          | inl same ↦
              let (na, nb) = ends a b (ground (arith, eq_refl a, eq_refl b)) in
              let (ns, nt) = ends s t h in
              let (x, y) =
                keys a b s t na nb ns nt ((eq_iff (edge_id (a, b)) (edge_id (s, t))).0 same) in
              absurd (ground (arith, e, eq_iff a s, eq_iff b t, x, y))
          | inr other ↦ other
        ] in
      let rest =
        has_link-keyed g s t (edge_id (a, b) ∷ seen) ls keys (λ c d i. ends c d (ground (arith, i)))
          (ground (arith, apart, new)) later in
      ground (arith, e, rest)
]

-- What is drawn is what the graph and the history say.
pub record IsDrawn (p : Page) : Type 0 where
  pub nodes_drawn :
      (k : String)
      → contains k p.nodes ≡ (contains k p.graph.nodelist && shows p.graph p.history.items k)
  pub edges_drawn :
      (s t : String)
      → (has_link s t p.edges ≡ true) ↔ (
          (contains t p.nodes ≡ true)
          × Leads (shows p.graph p.history.items) (parents_of p.graph) t s)
  pub within : Within p.nodes p.selected

stored_of : (g : Graph) (k : String) → is_visible g k ≡ true → has g.nodes k ≡ true
stored_of g k h = elim (Option-cases (get g.nodes k)) [
  | inl e ↦ absurd (ground (arith, h, e))
  | inr (n, e) ↦ ground (arith, e)
]

module _ (rank : String → ℕ) (p : Page) (l : IsLinked p.graph) (a : IsAcyclic p.graph rank)
    (s : IsStored p.graph) (v : IsValid p.history) where
  pub shown-IsLinked : IsLinked (shown_graph p)
  shown-IsLinked = record {
    parents_in =
        λ x y c. ground (arith, parents-shown_graph p x, has-shown_graph p y, l.parents_in x y);
    children_in =
        λ x y c. ground (arith, children-shown_graph p x, has-shown_graph p y, l.children_in x y);
    opposite =
        λ x y. ground (arith, parents-shown_graph p x, children-shown_graph p y, l.opposite x y);
  }

  pub shown-IsAcyclic : IsAcyclic (shown_graph p) rank
  shown-IsAcyclic = record {
    falls = λ x y c. a.falls x y (ground (arith, parents-shown_graph p x));
  }

  shown-IsStored : IsStored (shown_graph p)
  unfolding shown_graph
  shown-IsStored x i = has-shown_graph p x ∙ s x i

  -- `draw` returns, where the ids of the edges tell them apart. It draws what the graph and the history say, and changes neither; what was selected
  -- and is still there stays selected, and there is no last selected node.
  pub draw_lem :
      KeysDiffer p.graph
      → (q : Page) × (draw p ≡ some q)
        × (q.graph ≡ p.graph)
        × (q.history ≡ p.history)
        × IsDrawn q
        × ((k : String) → contains k q.selected ≡ (contains k p.selected && contains k q.nodes))
        × ((x y : String)
            → has_link x y q.selected_edges
              ≡ (has_link x y p.selected_edges && has_link x y q.edges))
  unfolding draw shown_graph get_visible_nodes contains
  draw_lem keys =
      let (edges, e, exact) =
        get_visible_links_lem (shown_graph p) rank shown-IsLinked shown-IsAcyclic shown-IsStored in
      let drawn_edges = keyed [] edges in
      let q = with_edges drawn_edges p in
      let ends : (x y : String)
          → has_link x y edges ≡ true
          → (has p.graph.nodes x ≡ true) × (has p.graph.nodes y ≡ true) =
        λ x y h.
          let (i, w, chain) = (exact x y).0 h in
          let seen_x =
            visible_of_Leads (is_visible (shown_graph p)) (parents_of (shown_graph p)) y x chain in
          (
            sym (has-shown_graph p x) ∙ stored_of (shown_graph p) x seen_x,
            sym (has-shown_graph p y) ∙ shown-IsStored y i,
          ) in
      let vis = is_visible (shown_graph p) in
      let vis' = shows p.graph p.history.items in
      let same : (k : String) → vis k ≡ vis' k = λ k. visible-shown_graph p k v in
      let next = parents_of (shown_graph p) in
      let next' = parents_of p.graph in
      let parents : (k : String) → next k ≡ next' k = λ k. parents-shown_graph p k in
      let drawn : (k : String) → contains k q.nodes ≡ (contains k p.graph.nodelist && vis' k) = λ k.
        contains-filter vis k p.graph.nodelist
        ∙ ap (λ b. contains k p.graph.nodelist && b) (same k) in
      (
        q,
        ap (λ o. o >>= λ z. some (with_edges (keyed [] z) p)) e,
        refl,
        refl,
        record {
          nodes_drawn = drawn;
          edges_drawn = λ x y. (
            λ h.
                let (i, w, chain) = (exact x y).0 (keyed-has_link x y [] edges h) in
                (
                  ground (arith, i, w, contains-filter vis y p.graph.nodelist),
                  Leads-map vis vis' next next' (λ b c k. ground (arith, k, parents b))
                      (λ b k. sym (same b) ∙ k) (sym (same x) ∙ visible_of_Leads vis next y x chain)
                      chain,
                ),
            λ (i, chain). has_link-keyed p.graph x y [] edges keys ends refl (
                (exact x y).1 (
                  ground (arith, i, contains-filter vis y p.graph.nodelist),
                  ground (arith, i, contains-filter vis y p.graph.nodelist),
                  Leads-map vis' vis next' next (λ b c k. ground (arith, k, parents b))
                      (λ b k. same b ∙ k) (same x ∙ visible_of_Leads vis' next' y x chain) chain,
                )),
          );
          within = λ k c. ground (arith, contains-filter (λ id. contains id q.nodes) k p.selected);
        },
        λ k. contains-filter (λ id. contains id q.nodes) k p.selected,
        λ x y. has_link-filter (λ z. has_link z.0 z.1 drawn_edges) x y p.selected_edges,
      )
