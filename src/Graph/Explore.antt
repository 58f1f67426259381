-- ===== src/Graph/Explore.antt =====
-- `explore_node`: for each node that the search meets, the map gets the set of the nearest visible
-- nodes, looking through hidden ones. The source has this function three times, for parents in
-- `getVisibleParents` and `getVisibleLinks` and for children in `getVisibleChildren`: `next` gives the
-- neighbours and `vis` the visibility.
use tracing_framework.Prelude.{
  ℕ, zero, suc, String, Option, none, some, [], ◌∷◌, Bool, if◌then◌else◌, List,
}
use mathlib.Core.Option
use tracing_framework.Prelude.KeySet.{KeySet, add, union}
use tracing_framework.Prelude.Dict.{Dict, has, put, set_at}

module _ (vis : String → Bool) (next : String → KeySet) where
  -- The body of the loop over the neighbours; `rec` is the recursive call.
  unfoldable pub visit_one :
      (String → Dict KeySet → Option (Dict KeySet))
      → String
      → String
      → Dict KeySet
      → Option (Dict KeySet)
  visit_one rec id p m =
      if vis p
      then some (put id (add p (set_at m id)) m)
      else Option.map (λ m'. put id (union (set_at m' id) (set_at m' p)) m') (rec p m)

  unfoldable pub visit :
      (String → Dict KeySet → Option (Dict KeySet))
      → String
      → KeySet
      → Dict KeySet
      → Option (Dict KeySet)
  visit rec id [] m = some m
  visit rec id (p ∷ ps) m = elim (visit_one rec id p m) [
    | none ↦ none
    | some m' ↦ visit rec id ps m'
  ]

  unfoldable pub explore : ℕ → String → Dict KeySet → Option (Dict KeySet)
  explore zero id m = none
  explore (suc f) id m = if has m id then some m else visit (explore f) id (next id) (put id [] m)

  -- `explore_node` called on the nodes of a list in turn.
  unfoldable pub explore_all : ℕ → List String → Dict KeySet → Option (Dict KeySet)
  explore_all f [] m = some m
  explore_all f (id ∷ ids) m = elim (explore f id m) [
    | none ↦ none
    | some m' ↦ explore_all f ids m'
  ]
