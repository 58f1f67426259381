-- ===== src/Kernel/Rounds.antt =====
-- `WeisfeilerLehmanKernel` and `WLMultisetLabelGenerator` of kernels/WeisfeilerLehmanKernel.js.
use Prim.Native.String
use tracing_framework.Prelude.{
  ◌>>=◌, ℕ, zero, suc, ◌+◌, ◌*◌, String, Option, none, some, List, [], ◌∷◌, length, nat_eq,
  if◌then◌else◌,
}
use tracing_framework.Prelude.Dict.{Dict, get, put}
use tracing_framework.KernelGraph.Defs.{
  KernelNode, KernelGraph, get_nodes, get_parent_labels, get_child_labels, get_neighbour_labels,
  get_parent_ids, get_child_ids, relabel, remove_id, clone,
}
use tracing_framework.Kernel.Defs.{Fraction}

pub record Generator : Type 0 where
  pub labels : Dict ℕ
  pub seed : ℕ

abbrev pub new_generator : Generator
new_generator = record { labels = []; seed = 0 }

pub data Direction : Type 0 where
  both : Direction
  up : Direction
  down : Direction

abbrev pub join_commas : List String → String
join_commas [] = ""
join_commas (x ∷ []) = x
join_commas (x ∷ y ∷ xs) = String.◌++◌ x (String.◌++◌ "," (join_commas (y ∷ xs)))

-- A sum of quotients, 0 in the denominator for NaN.
abbrev pub add_fraction : Fraction → Fraction → Fraction
add_fraction a b = record { top = a.top * b.over + b.top * a.over; over = a.over * b.over }

abbrev pub labels_around : Direction → KernelGraph → KernelNode → List String
labels_around both g n = get_neighbour_labels g n
labels_around up g n = get_parent_labels g n
labels_around down g n = get_child_labels g n

-- `get_parent_ids(node)` and `get_child_ids(node)` with the node itself, whose text is the key.
unfoldable pub ids_around : Direction → KernelGraph → KernelNode → List String
ids_around both g n = []
ids_around up g n = get_parent_ids g "[object Object]"
ids_around down g n = get_child_ids g "[object Object]"

unfoldable pub remove_ends :
    Direction → KernelGraph → List KernelNode → KernelGraph → Option KernelGraph
remove_ends direction g [] next = some next
remove_ends both g (n ∷ ns) next = remove_ends both g ns next
remove_ends direction g (n ∷ ns) next = do
  next' ← if nat_eq (length (ids_around direction g n)) 0 then remove_id next n.id else some next
  remove_ends direction g ns next'

-- `Array.prototype.sort` on strings, and the text of a number.
module _ (sort : List String → List String) (text : ℕ → String) where
  unfoldable pub canonical_label : String → List String → String
  canonical_label label neighbours =
      String.◌++◌ label (String.◌++◌ ":" (join_commas (sort neighbours)))

  -- The generator's `relabel`.
  unfoldable pub number_of : String → List String → Generator → ℕ × Generator
  number_of label neighbours gen =
      let c = canonical_label label neighbours in
      elim (get gen.labels c) [
        | some m ↦ (m, gen)
        | none ↦ (gen.seed, record { labels = put c gen.seed gen.labels; seed = suc gen.seed })
      ]

  unfoldable pub relabel_nodes :
      Direction
      → KernelGraph
      → List KernelNode
      → KernelGraph
      → Generator
      → Option (KernelGraph × Generator)
  relabel_nodes direction g [] next gen = some (next, gen)
  relabel_nodes direction g (n ∷ ns) next gen = do
    let (m, gen') = number_of n.label (labels_around direction g n) gen
    next' ← relabel next n.id (text m)
    relabel_nodes direction g ns next' gen'

  unfoldable pub relabel_graph :
      Direction → KernelGraph → Generator → Option (KernelGraph × Generator)
  relabel_graph direction g gen = do
    done ← relabel_nodes direction g (get_nodes g) (clone g) gen
    next ← remove_ends direction g (get_nodes g) done.0
    some (next, done.1)

  module _ (kernel : KernelGraph → KernelGraph → Option Fraction) where
    -- The loop of `do_calculate`.
    unfoldable pub add_rounds :
        ℕ
        → Direction
        → KernelGraph
        → KernelGraph
        → Fraction
        → Generator
        → Option (Fraction × Generator)
    add_rounds zero direction a b score gen = some (score, gen)
    add_rounds (suc rounds) direction a b score gen = do
      a' ← relabel_graph direction a gen
      b' ← relabel_graph direction b a'.1
      more ← kernel a'.0 b'.0
      add_rounds rounds direction a'.0 b'.0 (add_fraction score more) b'.1

    -- `do_calculate` where `depth` is one more than `rounds`.
    unfoldable pub do_calculate :
        ℕ → Direction → KernelGraph → KernelGraph → Generator → Option (Fraction × Generator)
    do_calculate rounds direction a b gen = do
      score ← kernel a b
      total ← add_rounds rounds direction a b score gen
      some (record { top = total.0.top; over = total.0.over * suc rounds }, total.1)
