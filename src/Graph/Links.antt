-- ===== src/Graph/Links.antt =====
-- `getVisibleLinks`.
use tracing_framework.Prelude.{
  ℕ, ◌<◌, String, Option, some, List, [], ◌∷◌, ◌++◌, ◌≡◌, refl, Bool, true, false, ◌==◌, ◌&&◌, ◌||◌,
  arith, ◌↔◌, eq_iff, eq_refl, Bool-cases, inl, inr, filter,
}
use mathlib.Core.Option
use tracing_framework.Prelude.KeySet.{KeySet, contains}
use tracing_framework.Prelude.Dict.{Dict, has, get, keys, set_at, contains-keys}
use tracing_framework.Graph.Defs.{Graph, parents_of, is_visible, get_visible_nodes}
use tracing_framework.Leads.{Leads}
use tracing_framework.Graph.Explore.{explore_all}
use tracing_framework.Graph.Ends.{unseen, unseen-le, explore_ends}
use tracing_framework.Graph.Exact.{explore_all_exact}
use tracing_framework.Graph.Visible.{
  IsLinked, IsAcyclic, fuel_of, unseen-empty, get_visible_parents, get_visible_parents_sound,
}

-- A link from `source` to `target`, as a pair of ids.
abbrev pub Link : Type 0
Link = String × String

-- `Object.keys(parentids).forEach(pid => ret.push({source: nodes[pid], target: node}))`
unfoldable pub links_to : String → KeySet → List Link
links_to t [] = []
links_to t (p ∷ ps) = (p, t) ∷ links_to t ps

-- The second loop, over the visible nodes.
unfoldable pub links_of : Dict KeySet → List String → List Link
links_of m [] = []
links_of m (t ∷ ts) = links_to t (set_at m t) ++ links_of m ts

unfoldable pub get_visible_links : Graph → Option (List Link)
get_visible_links g =
    Option.map (λ m. links_of m (get_visible_nodes g))
      (explore_all (is_visible g) (parents_of g) (fuel_of g) g.nodelist [])

unfoldable pub has_link : String → String → List Link → Bool
has_link s t [] = false
has_link s t ((a, b) ∷ ls) = a == s && (b == t) || has_link s t ls

pub has_link-append :
    (s t : String) (k l : List Link) → has_link s t (k ++ l) ≡ (has_link s t k || has_link s t l)
unfolding has_link
has_link-append s t [] l = refl
has_link-append s t ((a, b) ∷ k) l = ground (arith, has_link-append s t k l)

has_link-links_to :
    (s t u : String) (ps : KeySet) → has_link s t (links_to u ps) ≡ (u == t && contains s ps)
unfolding has_link links_to contains
has_link-links_to s t u [] = ground arith
has_link-links_to s t u (p ∷ ps) = ground (arith, has_link-links_to s t u ps)

pub has_link-links_of :
    (s t : String) (m : Dict KeySet) (ts : List String)
    → has_link s t (links_of m ts) ≡ (contains t ts && contains s (set_at m t))
unfolding has_link links_of contains
has_link-links_of s t m [] = refl
has_link-links_of s t m (u ∷ ts) = ground (
  arith,
  has_link-append s t (links_to u (set_at m u)) (links_of m ts),
  has_link-links_of s t m ts,
  has_link-links_to s t u (set_at m u),
  eq_iff u t,
)

pub contains-filter :
    (p : String → Bool) (k : String) (ks : List String)
    → contains k (filter p ks) ≡ (contains k ks && p k)
unfolding contains
contains-filter p k [] = refl
contains-filter p k (j ∷ ks) = elim (Bool-cases (j == k)) [
  | inl e ↦ rw ((eq_iff j k).0 e) (ground (arith, contains-filter p k ks, eq_refl k))
  | inr e ↦ ground (arith, contains-filter p k ks)
]

-- Each node of the list is in the store.
abbrev pub IsStored : Graph → Type 0
IsStored g = (a : String) → contains a g.nodelist ≡ true → has g.nodes a ≡ true

explore_all_ends :
    (g : Graph) (ids : List String) (m : Dict KeySet)
    → IsLinked g
    → ((a : String) → contains a ids ≡ true → has g.nodes a ≡ true)
    → unseen (keys g.nodes) m < fuel_of g
    → (m' : Dict KeySet) × (explore_all (is_visible g) (parents_of g) (fuel_of g) ids m ≡ some m')
unfolding explore_all contains
explore_all_ends g [] m l stored h = (m, refl)
explore_all_ends g (id ∷ ids) m l stored h =
    let (m0, e, grown) =
      explore_ends (is_visible g) (parents_of g) (keys g.nodes)
        (λ a b i k v. ground (arith, contains-keys b g.nodes, l.parents_in a b k)) (fuel_of g) id m
        (ground (arith, contains-keys id g.nodes, stored id, eq_refl id)) h in
    let (m', e') =
      explore_all_ends g ids m0 l (λ a k. stored a (ground arith))
        (omega (arith, unseen-le (keys g.nodes) m m0 grown)) in
    (m', ground arith)

-- In a linked graph without cycles `getVisibleLinks` returns, and there is a link from `s` to `t`
-- exactly when `t` is a visible node of the list to which a chain of hidden nodes leads from the
-- visible node `s`.
pub get_visible_links_lem :
    (g : Graph) (rank : String → ℕ)
    → IsLinked g
    → IsAcyclic g rank
    → IsStored g
    → (ls : List Link) × (get_visible_links g ≡ some ls)
      × ((s t : String)
          → (has_link s t ls ≡ true) ↔ (
              (contains t g.nodelist ≡ true)
              × (is_visible g t ≡ true)
              × Leads (is_visible g) (parents_of g) t s))
unfolding get_visible_links get_visible_nodes get
get_visible_links_lem g rank l acyclic stored =
    let ids = keys g.nodes in
    let (m, e) = explore_all_ends g g.nodelist [] l stored (omega (arith, unseen-empty ids)) in
    let (exact, full) =
      explore_all_exact (is_visible g) (parents_of g) rank (λ a b k v. acyclic.falls a b k)
        (fuel_of g) g.nodelist [] m e (λ a p i. absurd (ground arith)) in
    (
      links_of m (filter (is_visible g) g.nodelist),
      ground arith,
      λ s t. ground (
        arith,
        has_link-links_of s t m (filter (is_visible g) g.nodelist),
        contains-filter (is_visible g) t g.nodelist,
        full t,
        exact t s,
      ),
    )

-- The links into a visible node are those from its visible parents.
pub get_visible_links-get_visible_parents :
    (g : Graph) (rank : String → ℕ) (ls : List Link) (ps : KeySet) (s t : String)
    → IsLinked g
    → IsAcyclic g rank
    → IsStored g
    → contains t g.nodelist ≡ true
    → is_visible g t ≡ true
    → get_visible_links g ≡ some ls
    → get_visible_parents g t ≡ some ps
    → (has_link s t ls ≡ true) ↔ (contains s ps ≡ true)
get_visible_links-get_visible_parents g rank ls ps s t l acyclic stored i v h k =
    let (ls', e, exact) = get_visible_links_lem g rank l acyclic stored in
    ground (arith, exact s t, get_visible_parents_sound g rank t s ps acyclic k)
