-- ===== src/Page/Tests.antt =====
-- The page of the graph a → h → b, whose node h is hidden, shown again, and clicked.
use tracing_framework.Prelude.{
  ◌>>=◌, ℕ, ◌<◌, ◌≤◌, ◌↔◌, ◌⊎◌, ◌∙◌, sym, subst, some_inj, none, String, some, List, [], ◌∷◌, true,
  false, if◌then◌else◌, ◌==◌, ◌≡◌, refl, inl, inr, ap, Bool-cases, arith, eq_iff,
}
use tracing_framework.Prelude.KeySet.{KeySet, contains, add, remove, union}
use tracing_framework.Prelude.Dict.{get, has, put, keys}
use tracing_framework.Graph.Defs.{
  Node, Graph, get_visible_nodes, is_visible, parents_of, children_of,
}
use tracing_framework.Graph.Visible.{IsLinked, IsAcyclic}
use tracing_framework.Graph.Explore.{explore, explore_all, visit, visit_one}
use tracing_framework.Graph.Links.{IsStored, get_visible_links, links_of, links_to, has_link}
use tracing_framework.History.Defs.{
  Item, new_history, add_selection, hide_all, erase, apply_all, add as add_item,
  remove as take_item,
}
use tracing_framework.History.Visibility.{Stored}
use tracing_framework.Selectable.Defs.{click, click_alone}
use tracing_framework.Page.Defs.{
  Page, Event, edge_id, keyed, flagged, shown_graph, draw, open_page, on_hide_nodes,
  on_select_nodes, on_click, on_item_click, handle, handle_all,
}
use tracing_framework.Leads.{Leads}
use tracing_framework.Page.Highlight.{Highlight, highlight_path, OnPath, highlight_path_lem}
use tracing_framework.Page.Drawn.{KeysDiffer}
use tracing_framework.Page.Session.{AllOffered, IsCurrent, page_lem}

abbrev node : String → KeySet → KeySet → Node
node id parents children = record {
  id = id;
  never_visible = false;
  hidden = false;
  child_nodes = children;
  parent_nodes = parents;
}

abbrev chain : Graph
chain = record {
  nodelist = "a" ∷ "h" ∷ "b" ∷ [];
  nodes =
      ("a", node "a" [] ("h" ∷ []))
      ∷ ("h", node "h" ("a" ∷ []) ("b" ∷ []))
      ∷ ("b", node "b" ("h" ∷ []) [])
      ∷ [];
}

abbrev rank : String → ℕ
rank a = if a == "b" then 2 else if a == "h" then 1 else 0

abbrev item : Item
item = record { id = 0; name = "h"; selection = "h" ∷ [] }

abbrev events : List Event
events =
    Event.select_nodes false ("a" ∷ "b" ∷ [])
    ∷ Event.hide_nodes ("h" ∷ []) "h"
    ∷ Event.item_click item
    ∷ Event.node_click (record { ctrl_key = false; shift_key = false }) "h"
    ∷ []

abbrev take_two : List Event → List Event
take_two (e ∷ f ∷ es) = e ∷ f ∷ []
take_two es = es

chain-IsLinked : IsLinked chain
unfolding get contains
chain-IsLinked = record {
  parents_in = λ a b h. ground (
    arith,
    eq_iff "a" a,
    eq_iff "h" a,
    eq_iff "b" a,
    eq_iff "a" b,
    eq_iff "h" b,
    eq_iff "b" b,
    eq_iff "a" "h",
    eq_iff "a" "b",
    eq_iff "h" "b",
  );
  children_in = λ a b h. ground (
    arith,
    eq_iff "a" a,
    eq_iff "h" a,
    eq_iff "b" a,
    eq_iff "a" b,
    eq_iff "h" b,
    eq_iff "b" b,
    eq_iff "a" "h",
    eq_iff "a" "b",
    eq_iff "h" "b",
  );
  opposite = λ a b. ground (
    arith,
    eq_iff "a" a,
    eq_iff "h" a,
    eq_iff "b" a,
    eq_iff "a" b,
    eq_iff "h" b,
    eq_iff "b" b,
    eq_iff "a" "h",
    eq_iff "a" "b",
    eq_iff "h" "b",
  );
}

chain-IsAcyclic : IsAcyclic chain rank
unfolding get contains
chain-IsAcyclic = record {
  falls = λ a b h. ground (
    arith,
    eq_iff "a" a,
    eq_iff "h" a,
    eq_iff "b" a,
    eq_iff "a" b,
    eq_iff "h" b,
    eq_iff "b" b,
    eq_iff "a" "h",
    eq_iff "a" "b",
    eq_iff "h" "b",
    eq_iff a "b",
    eq_iff a "h",
    eq_iff b "b",
    eq_iff b "h",
  );
}

chain-IsStored : IsStored chain
unfolding get contains
chain-IsStored a h = ground (arith, eq_iff "a" a, eq_iff "h" a, eq_iff "b" a)

chain-listed : (k : String) → has chain.nodes k ≡ true → contains k chain.nodelist ≡ true
unfolding get contains
chain-listed k h = ground (arith, eq_iff "a" k, eq_iff "h" k, eq_iff "b" k)

rank-less : (a : String) → rank a < 3
rank-less a = ground arith

-- The nodes, and what their pairs are the text of.
chain-nodes : (k : String) → has chain.nodes k ≡ true → (k ≡ "a") ⊎ ((k ≡ "h") ⊎ (k ≡ "b"))
unfolding get
chain-nodes k h = elim (Bool-cases ("a" == k)) [
  | inl e ↦ inl (sym ((eq_iff "a" k).0 e))
  | inr e ↦ elim (Bool-cases ("h" == k)) [
    | inl f ↦ inr (inl (sym ((eq_iff "h" k).0 f)))
    | inr f ↦ elim (Bool-cases ("b" == k)) [
      | inl i ↦ inr (inr (sym ((eq_iff "b" k).0 i)))
      | inr i ↦ absurd (ground (arith, h, e, f, i))
    ]
  ]
]

abbrev first_of : String → String
first_of x =
    if x == "aa"
    then "a"
    else if x == "ah"
    then "a"
    else if x == "ab"
    then "a"
    else if x == "ha"
    then "h"
    else if x == "hh"
    then "h"
    else if x == "hb"
    then "h"
    else "b"

abbrev second_of : String → String
second_of x =
    if x == "aa"
    then "a"
    else if x == "ha"
    then "a"
    else if x == "ba"
    then "a"
    else if x == "ah"
    then "h"
    else if x == "hh"
    then "h"
    else if x == "bh"
    then "h"
    else "b"

IsPair : String → String → Type 0
IsPair a b = (first_of (edge_id (a, b)) ≡ a) × (second_of (edge_id (a, b)) ≡ b)

second-IsPair :
    (a b : String)
    → IsPair a "a"
    → IsPair a "h"
    → IsPair a "b"
    → has chain.nodes b ≡ true
    → IsPair a b
second-IsPair a b x y z h = elim (chain-nodes b h) [
  | inl e ↦ subst (IsPair a) (sym e) x
  | inr others ↦ elim others [
    | inl e ↦ subst (IsPair a) (sym e) y
    | inr e ↦ subst (IsPair a) (sym e) z
  ]
]

nodes-IsPair : (a b : String) → has chain.nodes a ≡ true → has chain.nodes b ≡ true → IsPair a b
unfolding IsPair
nodes-IsPair a b i h = elim (chain-nodes a i) [
  | inl e ↦
      subst (λ z. IsPair z b) (sym e) (second-IsPair "a" b (refl, refl) (refl, refl) (refl, refl) h)
  | inr others ↦ elim others [
    | inl e ↦
        subst (λ z. IsPair z b) (sym e)
          (second-IsPair "h" b (refl, refl) (refl, refl) (refl, refl) h)
    | inr e ↦
        subst (λ z. IsPair z b) (sym e)
          (second-IsPair "b" b (refl, refl) (refl, refl) (refl, refl) h)
  ]
]

chain-KeysDiffer : KeysDiffer chain
unfolding IsPair
chain-KeysDiffer a b c d ha hb hc hd same =
    let (x, y) = nodes-IsPair a b ha hb in
    let (z, w) = nodes-IsPair c d hc hd in
    (sym x ∙ ap first_of same ∙ z, sym y ∙ ap second_of same ∙ w)

events-offered : AllOffered 3 events (open_page chain)
unfolding open_page draw shown_graph flagged get_visible_links get_visible_nodes explore_all explore
    visit visit_one get put add remove union contains keys links_of links_to has_link keyed handle
    handle_all on_hide_nodes on_select_nodes on_click on_item_click add_selection click click_alone
    Stored hide_all erase apply_all add_item take_item
events-offered = (refl, (tt, (inl refl, (refl, tt))))

-- After the first two events the edge over the hidden node is selected.
hidden_run :
    (open_page chain >>= λ p. handle_all 3 (take_two events) p >>= λ q. some q.selected_edges)
    ≡ some (("a", "b") ∷ [])
unfolding open_page draw shown_graph flagged get_visible_links get_visible_nodes explore_all explore
    visit visit_one get put add remove union contains keys links_of links_to has_link keyed handle
    handle_all on_hide_nodes on_select_nodes on_click on_item_click add_selection click click_alone
    Stored hide_all erase apply_all add_item take_item
hidden_run = refl

page_lem_example :
    (p : Page) × (q : Page) × (open_page chain ≡ some p)
    × (handle_all 3 events p ≡ some q)
    × IsCurrent chain q
page_lem_example =
    page_lem chain rank 3 chain-IsLinked chain-IsAcyclic chain-IsStored chain-listed rank-less
      chain-KeysDiffer events events-offered

abbrev opened : Page
opened = record {
  graph = chain;
  history = new_history [];
  nodes = "a" ∷ "h" ∷ "b" ∷ [];
  edges = ("a", "h") ∷ ("h", "b") ∷ [];
  selected = [];
  selected_edges = [];
  last_selected = none;
}

opened_run : open_page chain ≡ some opened
unfolding open_page draw shown_graph flagged get_visible_links get_visible_nodes explore_all explore
    visit visit_one get put add union contains keys links_of links_to has_link keyed
opened_run = refl

opened-IsCurrent : IsCurrent chain opened
unfolding handle_all
opened-IsCurrent =
    let (p, q, e, f, c) =
      page_lem chain rank 3 chain-IsLinked chain-IsAcyclic chain-IsStored chain-listed rank-less
        chain-KeysDiffer [] tt in
    subst (IsCurrent chain) (some_inj (sym f ∙ sym e ∙ opened_run)) c

opened-has_h : contains "h" opened.nodes ≡ true
unfolding contains
opened-has_h = refl

rank-most : (k : String) → rank k ≤ 3
rank-most k = ground arith

abbrev PathOfH : String → String → Type 0
PathOfH s t =
    OnPath chain rank 3 chain-IsLinked chain-IsAcyclic chain-IsStored rank-most opened "h" s t

highlight_path_lem_example :
    (h : Highlight) × (highlight_path opened "h" ≡ some h)
    × ((k : String)
        → (contains k h.hovered_nodes ≡ true) ↔ (
            (contains k opened.nodes ≡ true)
            × (((s : String) × PathOfH s k) ⊎ ((t : String) × PathOfH k t))))
    × ((s t : String)
        → has_link s t opened.edges ≡ true
        → PathOfH s t
        → has_link s t h.hovered_edges ≡ true)
    × ((k : String)
        → (contains k h.immediate_nodes ≡ true) ↔ (
            (contains k opened.nodes ≡ true)
            × (("h" ≡ k)
                ⊎ Leads (is_visible (shown_graph opened)) (parents_of (shown_graph opened)) "h" k
                ⊎ Leads
                    (is_visible (shown_graph opened))
                    (children_of (shown_graph opened))
                    "h"
                    k)))
highlight_path_lem_example =
    highlight_path_lem chain rank 3 chain-IsLinked chain-IsAcyclic chain-IsStored rank-most opened
      "h" opened-IsCurrent opened-has_h
