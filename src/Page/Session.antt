-- ===== src/Page/Session.antt =====
-- What the page shows after any of its events.
use tracing_framework.Prelude.{
  ◌>>=◌, ℕ, ◌<◌, String, Option, none, some, List, [], ◌∷◌, ◌++◌, true, false, ◌&&◌, ◌||◌, ◌≡◌, ◌∙◌,
  refl, sym, ap, subst, arith, Bool-cases, inl, inr,
}
use tracing_framework.Prelude.KeySet.{contains, contains-filter}
use tracing_framework.Prelude.Dict.{get, has}
use tracing_framework.Leads.{Leads, visible_of_Leads}
use tracing_framework.Graph.Defs.{Graph, parents_of}
use tracing_framework.Graph.Visible.{IsLinked, IsAcyclic}
use tracing_framework.Graph.Links.{has_link, IsStored}
use tracing_framework.Graph.BetweenLem.{get_nodes_between_lem}
use tracing_framework.History.Defs.{Item, new_history, add_selection, erase, remove}
use tracing_framework.History.Visibility.{
  selected, Stored, IsValid, new_history-IsValid, add_selection-IsValid, remove-IsValid,
}
use tracing_framework.Selectable.Defs.{Selection, Keys, select_all}
use tracing_framework.Selectable.Within.{Within, click-Within, select_all-Within}
use tracing_framework.Page.Defs.{
  Page, joins, draw, open_page, refresh_edges, on_hide_nodes, on_select_nodes, get_range,
  selection_of, on_select, on_click, on_ctrl_a, on_item_click, Event, handle, handle_all,
}
use tracing_framework.Page.Drawn.{shows, KeysDiffer, IsDrawn, draw_lem, Leads-map, has_link-filter}

-- The page shows the graph `g` and its history, and the edges between selected nodes are the selected ones.
pub record IsCurrent (g : Graph) (p : Page) : Type 0 where
  pub same : p.graph ≡ g
  pub valid : IsValid p.history
  pub drawn : IsDrawn p
  pub highlighted :
      (s t : String)
      → has_link s t p.selected_edges ≡ (has_link s t p.edges && joins p.selected (s, t))

-- The events of a session: what is hidden is not nothing, what is clicked is there, and Ctrl is not held
-- where nodes are selected by a menu. The page also lets a menu hide nothing, which is a TypeError, and
-- select with Ctrl, after which edges between selected nodes need not be selected.
abbrev pub Offered : Event → Page → Type 0
Offered (Event.hide_nodes [] name) p = ⊥
Offered (Event.hide_nodes (n ∷ ns) name) p = Unit
Offered (Event.select_nodes ctrl_key ns) p = ctrl_key ≡ false
Offered (Event.node_click keys d) p = contains d p.nodes ≡ true
Offered Event.ctrl_a p = Unit
Offered (Event.item_click item) p = Stored item p.history.items

-- Each of the events is offered by the page that those before it leave.
abbrev pub AllOffered : ℕ → List Event → Option Page → Type 0
AllOffered fuel [] o = Unit
AllOffered fuel (e ∷ es) none = Unit
AllOffered fuel (e ∷ es) (some p) = Offered e p × AllOffered fuel es (handle fuel e p)

selected-erase_of :
    (item : Item) (is : List Item) (e : String)
    → selected is e ≡ false
    → selected (erase item is) e ≡ false
unfolding erase selected
selected-erase_of item [] e h = refl
selected-erase_of item (i ∷ is) e h = ground (arith, selected-erase_of item is e)

refresh_edges-highlighted :
    (p : Page) (s t : String)
    → has_link s t (refresh_edges p).selected_edges
      ≡ (has_link s t p.edges && joins p.selected (s, t))
refresh_edges-highlighted p s t = has_link-filter (joins p.selected) s t p.edges

module _ (g : Graph) (rank : String → ℕ) (fuel : ℕ) (l : IsLinked g) (a : IsAcyclic g rank)
    (stored : IsStored g)
    (listed : (k : String) → has g.nodes k ≡ true → contains k g.nodelist ≡ true)
    (bound : (k : String) → rank k < fuel) (keys : KeysDiffer g) where
  abbrev Redrawn : Page → Type 0
  Redrawn p =
      (q : Page) × (draw p ≡ some q)
      × (q.graph ≡ p.graph)
      × (q.history ≡ p.history)
      × IsDrawn q
      × ((k : String) → contains k q.selected ≡ (contains k p.selected && contains k q.nodes))
      × ((x y : String)
          → has_link x y q.selected_edges ≡ (has_link x y p.selected_edges && has_link x y q.edges))

  redraw : (p : Page) → p.graph ≡ g → IsValid p.history → Redrawn p
  redraw p same v =
      draw_lem rank p (subst IsLinked (sym same) l) (subst (λ z. IsAcyclic z rank) (sym same) a)
        (subst IsStored (sym same) stored) v (subst KeysDiffer (sym same) keys)

  -- An edge that is drawn joins nodes that are.
  ends-drawn :
      (p : Page)
      → p.graph ≡ g
      → IsDrawn p
      → (s t : String) → has_link s t p.edges ≡ true
      → (contains s p.nodes ≡ true) × (contains t p.nodes ≡ true)
  ends-drawn p same d s t h =
      let (i, chain) = (d.edges_drawn s t).0 h in
      let shown = visible_of_Leads (shows p.graph p.history.items) (parents_of p.graph) t s chain in
      let here : contains s p.graph.nodelist ≡ true =
        subst (λ z. contains s z.nodelist ≡ true) (sym same)
          (listed s (subst (λ z. has z.nodes s ≡ true) same (ground (arith, shown)))) in
      (ground (arith, d.nodes_drawn s, here, shown), i)

  open_page-IsCurrent : (q : Page) × (open_page g ≡ some q) × IsCurrent g q
  unfolding open_page has_link contains get
  open_page-IsCurrent =
      let p : Page = record {
        graph = g;
        history = new_history [];
        nodes = [];
        edges = [];
        selected = [];
        selected_edges = [];
        last_selected = none;
      } in
      let v = new_history-IsValid [] (λ e. refl) in
      let (q, e, same, kept, d, sel, edges) = redraw p refl v in
      (
        q,
        e,
        record {
          same = same;
          valid = subst IsValid (sym kept) v;
          drawn = d;
          highlighted = λ s t. ground (arith, edges s t, sel s);
        },
      )

  hide-IsCurrent :
      (n : String) (ns : List String) (name : String) (p : Page)
      → IsCurrent g p
      → (q : Page) × (on_hide_nodes (n ∷ ns) name p ≡ some q) × IsCurrent g q
  unfolding on_hide_nodes
  hide-IsCurrent n ns name p c =
      let v = add_selection-IsValid p.history (n ∷ ns) name c.valid in
      let (q, e, same, kept, d, sel, edges) =
        redraw (record p { history = add_selection p.history (n ∷ ns) name }) c.same v in
      (
        refresh_edges q,
        ap (λ o. o >>= λ z. some (refresh_edges z)) e,
        record {
          same = same ∙ c.same;
          valid = subst IsValid (sym kept) v;
          drawn = record {
            nodes_drawn = d.nodes_drawn;
            edges_drawn = d.edges_drawn;
            within = d.within;
          };
          highlighted = refresh_edges-highlighted q;
        },
      )

  select_nodes-IsCurrent :
      (ns : List String) (p : Page) → IsCurrent g p → IsCurrent g (on_select_nodes false ns p)
  unfolding on_select_nodes
  select_nodes-IsCurrent ns p c = record {
    same = c.same;
    valid = c.valid;
    drawn = record {
      nodes_drawn = c.drawn.nodes_drawn;
      edges_drawn = c.drawn.edges_drawn;
      within = λ k h. ground (arith, contains-filter (λ id. contains id ns || false) k p.nodes);
    };
    highlighted = λ s t. ground (
      arith,
      has_link-filter (λ z. joins ns z || false) s t p.edges,
      contains-filter (λ id. contains id ns || false) s p.nodes,
      contains-filter (λ id. contains id ns || false) t p.nodes,
      ends-drawn p c.same c.drawn s t,
    );
  }

  on_select-IsCurrent :
      (p : Page) (s : Selection)
      → IsCurrent g p
      → Within p.nodes s.selected
      → IsCurrent g (on_select p s)
  on_select-IsCurrent p s c w = record {
    same = c.same;
    valid = c.valid;
    drawn = record {
      nodes_drawn = c.drawn.nodes_drawn;
      edges_drawn = c.drawn.edges_drawn;
      within = w;
    };
    highlighted = λ x y. has_link-filter (joins s.selected) x y p.edges;
  }

  get_range-returns :
      (p : Page)
      → p.graph ≡ g
      → (x y : String) → (path : List String) × (get_range fuel p.graph x y ≡ some path)
  unfolding get_range
  get_range-returns p same x y =
      let a' = subst (λ z. IsAcyclic z rank) (sym same) a in
      let (down, e, m) = get_nodes_between_lem fuel p.graph rank x y a' (bound x) in
      let (up, f, n) = get_nodes_between_lem fuel p.graph rank y x a' (bound y) in
      (down ++ up, ground (arith, e, f))

  click-IsCurrent :
      (keys : Keys) (d : String) (p : Page)
      → contains d p.nodes ≡ true
      → IsCurrent g p
      → (q : Page) × (on_click fuel keys d p ≡ some q) × IsCurrent g q
  unfolding on_click
  click-IsCurrent keys d p i c =
      let (s, e, w) =
        click-Within p.nodes (get_range fuel p.graph) (get_range-returns p c.same) keys d
          (selection_of p) c.drawn.within i in
      (on_select p s, ap (λ o. o >>= λ z. some (on_select p z)) e, on_select-IsCurrent p s c w)

  -- A chain that is there when an item was taken away was there before, between nodes that were shown.
  chain-before :
      (p : Page) (item : Item) (s t : String)
      → IsCurrent g p
      → contains s p.selected ≡ true
      → contains t p.selected ≡ true
      → Leads (shows p.graph (erase item p.history.items)) (parents_of p.graph) t s
      → has_link s t p.edges ≡ true
  chain-before p item s t c ss st chain =
      let before = shows p.graph p.history.items in
      let after = shows p.graph (erase item p.history.items) in
      let s_drawn = c.drawn.within s ss in
      (c.drawn.edges_drawn s t).1 (
        c.drawn.within t st,
        Leads-map after before (parents_of p.graph) (parents_of p.graph) (λ x y h. h)
            (λ q h. ground (arith, h, selected-erase_of item p.history.items q))
            (ground (arith, c.drawn.nodes_drawn s, s_drawn)) chain,
      )

  chain_after :
      (p q : Page) (item : Item) (s t : String)
      → q.graph ≡ p.graph
      → q.history ≡ remove p.history item
      → Leads (shows q.graph q.history.items) (parents_of q.graph) t s
      → Leads (shows p.graph (erase item p.history.items)) (parents_of p.graph) t s
  unfolding remove
  chain_after p q item s t same kept chain =
      subst (λ h. Leads (shows p.graph h.items) (parents_of p.graph) t s) kept
        (subst (λ z. Leads (shows z q.history.items) (parents_of z) t s) same chain)

  item_click-IsCurrent :
      (item : Item) (p : Page)
      → Stored item p.history.items
      → IsCurrent g p
      → (q : Page) × (on_item_click item p ≡ some q) × IsCurrent g q
  unfolding on_item_click remove
  item_click-IsCurrent item p i c =
      let v = remove-IsValid p.history item c.valid i in
      let (q, e, same, kept, d, sel, edges) =
        redraw (record p { history = remove p.history item }) c.same v in
      (
        q,
        e,
        record {
          same = same ∙ c.same;
          valid = subst IsValid (sym kept) v;
          drawn = d;
          highlighted = λ s t. elim (Bool-cases (has_link s t q.edges && joins p.selected (s, t))) [
            | inl yes' ↦
                let (x, y) = ends-drawn q (same ∙ c.same) d s t (ground (arith, yes')) in
                let was = chain-before p item s t c (ground (arith, yes')) (ground (arith, yes')) (
                  chain_after p q item s t same kept
                    ((d.edges_drawn s t).0 (ground (arith, yes'))).1) in
                ground (arith, yes', x, y, was, edges s t, sel s, sel t, c.highlighted s t)
            | inr no' ↦ ground (arith, no', edges s t, sel s, sel t, c.highlighted s t)
          ];
        },
      )

  handle-IsCurrent :
      (e : Event) (p : Page)
      → Offered e p
      → IsCurrent g p
      → (q : Page) × (handle fuel e p ≡ some q) × IsCurrent g q
  unfolding handle on_ctrl_a
  handle-IsCurrent (Event.hide_nodes [] name) p h c = absurd h
  handle-IsCurrent (Event.hide_nodes (n ∷ ns) name) p h c = hide-IsCurrent n ns name p c
  handle-IsCurrent (Event.select_nodes ctrl_key ns) p h c = (
    on_select_nodes ctrl_key ns p,
    refl,
    subst (λ b. IsCurrent g (on_select_nodes b ns p)) (sym h) (select_nodes-IsCurrent ns p c),
  )
  handle-IsCurrent (Event.node_click keys d) p h c = click-IsCurrent keys d p h c
  handle-IsCurrent Event.ctrl_a p h c =
      let s = select_all p.nodes (get_range fuel p.graph) (selection_of p) in
      (
        on_select p s,
        refl,
        on_select-IsCurrent p s c
            (select_all-Within p.nodes (get_range fuel p.graph) (selection_of p)),
      )
  handle-IsCurrent (Event.item_click item) p h c = item_click-IsCurrent item p h c

  handle_all-IsCurrent :
      (es : List Event) (p : Page)
      → AllOffered fuel es (some p)
      → IsCurrent g p
      → (q : Page) × (handle_all fuel es p ≡ some q) × IsCurrent g q
  unfolding handle_all
  handle_all-IsCurrent [] p h c = (p, refl, c)
  handle_all-IsCurrent (e ∷ es) p h c =
      let (q, first, d) = handle-IsCurrent e p h.0 c in
      let (r, rest, f) = handle_all-IsCurrent es q (subst (AllOffered fuel es) first h.1) d in
      (r, ap (λ o. o >>= λ z. handle_all fuel es z) first ∙ rest, f)

  -- In a linked graph without cycles, whose nodes are exactly the listed ones, whose edges have different
  -- ids, and with fuel above the ranks, let the page be opened and let events come: nodes, but not none, are
  -- hidden, nodes are selected by a menu without Ctrl, drawn nodes are clicked, Ctrl-A is pressed, and items
  -- of the history are clicked. No step fails, and afterwards the
  -- nodes that are drawn are those that are neither never visible nor held by an item of the history, an
  -- edge is drawn to a node from each that a chain of hidden nodes leads up to, what is selected is drawn,
  -- and exactly the drawn edges that join selected nodes are selected.
  pub page_lem :
      (es : List Event)
      → AllOffered fuel es (open_page g)
      → (p : Page) × (q : Page) × (open_page g ≡ some p)
        × (handle_all fuel es p ≡ some q)
        × IsCurrent g q
  page_lem es h =
      let (p, e, c) = open_page-IsCurrent in
      let (q, f, d) = handle_all-IsCurrent es p (subst (AllOffered fuel es) e h) c in
      (p, q, e, f, d)
