-- ===== src/Cluster/Weights.antt =====
-- `draw`: the weights of the edges, by which the page places the traces, and what a click selects.
use tracing_framework.Prelude.{
  ◌+◌, ◌-◌, ◌*◌, String, List, [], ◌∷◌, Bool, ◌||◌, if◌then◌else◌, nat_eq, ◌≡◌, ◌⊎◌, map,
}
use tracing_framework.Prelude.KeySet.{KeySet, contains, add, remove}
use tracing_framework.Kernel.Defs.{Fraction}
use tracing_framework.Compare.Fractions.{Extremes, no_extremes, include_all, between, Finite}
use tracing_framework.Cluster.Defs.{Edge}

-- `minEdge.score` and `maxEdge.score`
abbrev pub edge_extremes : List Edge → Extremes
edge_extremes edges = include_all (map (λ e. e.score) edges) no_extremes

-- `1 - f`
abbrev pub complement : Fraction → Fraction
complement f = record { top = f.over - f.top; over = f.over }

abbrev pub equal : Fraction → Fraction → Bool
equal f g = nat_eq (f.top * g.over) (g.top * f.over)

unfoldable pub weight_of : Extremes → Edge → Fraction
weight_of e edge =
    if equal e.min e.max then record { top = 1; over = 2 } else complement (between e edge.score)

unfoldable pub weights : List Edge → List Fraction
weights edges = map (weight_of (edge_extremes edges)) edges

-- `node_click`, where `selected` are the nodes with the class
unfoldable pub node_click : Bool → String → KeySet → KeySet
node_click ctrl_key d selected =
    let others = if ctrl_key then selected else [] in
    if contains d selected then remove d others else add d others

-- The edges and labels of `draw` that are selected.
abbrev pub edge_selected : KeySet → Edge → Bool
edge_selected selected e = contains e.source selected || contains e.target selected

-- The weight and the place of the score between the extremes add up to 1, or all scores are the same and
-- the weight is a half.
abbrev pub IsWeight : Extremes → Edge → Fraction → Type 0
IsWeight e edge w =
    if equal e.min e.max
    then w ≡ record { top = 1; over = 2 }
    else ((w.over ≡ (between e edge.score).over) × (w.top + (between e edge.score).top ≡ w.over))

abbrev pub IsOneOf : Edge → List Edge → Type 0
IsOneOf x [] = ⊥
IsOneOf x (e ∷ es) = (e ≡ x) ⊎ IsOneOf x es

-- The score is no infinity.
abbrev pub HasScore : Edge → Type 0
HasScore e = Finite e.score
