-- ===== src/Graph/Between.antt =====
-- `getNodesBetween`. Its recursion has no guard against cycles, so it takes its fuel as an argument.
use tracing_framework.Prelude.{
  ℕ, zero, suc, String, Option, none, some, List, [], ◌∷◌, ◌++◌, Bool, true, false, ◌||◌, ◌==◌,
}
use mathlib.Core.Option
use tracing_framework.Prelude.Dict.{Dict, get, put}
use tracing_framework.Graph.Defs.{Graph, parents_of}

-- `between` and `nodesBetween`
pub record Between : Type 0 where
  pub between : Dict Bool
  pub found : List String

-- What `get` does to both when it has decided on `p`.
unfoldable pub mark : String → Bool → Between → Between
mark p true s = record { between = put p true s.between; found = s.found ++ p ∷ [] }
mark p false s = record s { between = put p false s.between }

-- `p.getParents().map(get).indexOf(true) != -1`, which calls `get` on all parents.
unfoldable pub any_parent :
    (String → Between → Option (Bool × Between)) → List String → Between → Option (Bool × Between)
any_parent rec [] s = some (false, s)
any_parent rec (p ∷ ps) s = elim (rec p s) [
  | none ↦ none
  | some (x, s1) ↦ elim (any_parent rec ps s1) [ none ↦ none | some (y, s2) ↦ some (x || y, s2) ]
]

module _ (next : String → List String) (b : String) where
  unfoldable pub look : ℕ → String → Between → Option (Bool × Between)
  look zero p s = none
  look (suc f) p s = elim (get s.between p) [
    | some x ↦ some (x, s)
    | none ↦ elim (p == b) [
      | true ↦ some (true, mark p true s)
      | false ↦ elim (any_parent (look f) (next p) s) [
        | none ↦ none
        | some (x, s') ↦ some (x, mark p x s')
      ]
    ]
  ]

unfoldable pub get_nodes_between : ℕ → Graph → String → String → Option (List String)
get_nodes_between fuel g a b =
    Option.map (λ (x, s). s.found)
      (look (parents_of g) b fuel a (record { between = []; found = a ∷ b ∷ [] }))
