-- ===== src/Graph/Trail.antt =====
-- `getEntirePathNodes` and `getEntirePathLinks`. Their `explore_node` goes on behind visible neighbours
-- too. It stands in the source four times, for parents and for children: `next` gives the neighbours.
use tracing_framework.Prelude.{
  ℕ, zero, suc, String, Option, none, some, List, [], ◌∷◌, ◌++◌, Bool, if◌then◌else◌,
}
use mathlib.Core.Option
use tracing_framework.Prelude.KeySet.{KeySet, add, union}
use tracing_framework.Prelude.Dict.{Dict, has, put, keys, set_at}
use tracing_framework.Graph.Defs.{Graph, parents_of, children_of, is_visible}
use tracing_framework.Graph.Visible.{fuel_of}
use tracing_framework.Graph.Links.{Link, links_of}

-- `visible_parent_map` or `visible_child_map`, and `nodes`.
pub record Trail : Type 0 where
  pub ends : Dict KeySet
  pub nodes : KeySet

abbrev pub put_ends : String → KeySet → Trail → Trail
put_ends id ids s = record s { ends = put id ids s.ends }

abbrev pub enter : String → Trail → Trail
enter id s = record { ends = put id [] s.ends; nodes = add id s.nodes }

module _ (vis : String → Bool) (next : String → KeySet) where
  -- The body of the loop over the neighbours; `rec` is the recursive call.
  unfoldable pub path_one : (String → Trail → Option Trail) → String → String → Trail → Option Trail
  path_one rec id p s =
      if vis p
      then rec p (put_ends id (add p (set_at s.ends id)) s)
      else Option.map (λ s'. put_ends id (union (set_at s'.ends id) (set_at s'.ends p)) s')
          (rec p s)

  unfoldable pub path_visit :
      (String → Trail → Option Trail) → String → KeySet → Trail → Option Trail
  path_visit rec id [] s = some s
  path_visit rec id (p ∷ ps) s = elim (path_one rec id p s) [
    | none ↦ none
    | some s' ↦ path_visit rec id ps s'
  ]

  unfoldable pub explore_path : ℕ → String → Trail → Option Trail
  explore_path zero id s = none
  explore_path (suc f) id s =
      if has s.ends id then some s else path_visit (explore_path f) id (next id) (enter id s)

-- `explore_parents(center); explore_children(center);`, the second with a map of its own
unfoldable pub explore_both : Graph → String → Option (Trail × Trail)
explore_both g center =
    elim (explore_path (is_visible g) (parents_of g) (fuel_of g) center
      (record { ends = []; nodes = [] })) [
        | none ↦ none
        | some up ↦
            Option.map (λ down. (up, down))
              (explore_path (is_visible g) (children_of g) (fuel_of g) center
                (record { ends = []; nodes = up.nodes }))
      ]

unfoldable pub get_entire_path_nodes : Graph → String → Option KeySet
get_entire_path_nodes g center = Option.map (λ (up, down). down.nodes) (explore_both g center)

-- The inner loop of the second loop: one source and its targets.
unfoldable pub links_from : String → KeySet → List Link
links_from s [] = []
links_from s (t ∷ ts) = (s, t) ∷ links_from s ts

unfoldable pub links_out : Dict KeySet → List String → List Link
links_out m [] = []
links_out m (s ∷ ss) = links_from s (set_at m s) ++ links_out m ss

unfoldable pub get_entire_path_links : Graph → String → Option (List Link)
get_entire_path_links g center =
    Option.map
      (λ (up, down). links_of up.ends (keys up.ends) ++ links_out down.ends (keys down.ends))
      (explore_both g center)
