-- ===== src/Kernel/Defs.antt =====
-- `NodeCountKernel.prototype.calculate`.
use tracing_framework.Prelude.{ℕ, ◌+◌, ◌*◌, String, Option, none, some, List, [], ◌∷◌, length}
use mathlib.Core.Option
use tracing_framework.Prelude.KeySet.{KeySet, union}
use tracing_framework.KernelGraph.Defs.{KernelGraph, get_labels, get_label_count, get_nodes}

-- The quotient of two numbers, where `over` is 0 for the NaN of 0 / 0.
pub record Fraction : Type 0 where
  pub top : ℕ
  pub over : ℕ

-- `none` where `b` is too short: `b[i]` is then undefined, and the sum NaN.
unfoldable pub dot_product : List ℕ → List ℕ → Option ℕ
dot_product [] b = some 0
dot_product (x ∷ a) [] = none
dot_product (x ∷ a) (y ∷ b) = let rest = dot_product a b in Option.map (λ score. x * y + score) rest

-- The labels of both graphs, merged as the keys of an object.
unfoldable pub merged_labels : KernelGraph → KernelGraph → KeySet
merged_labels a b = union (union [] (get_labels a)) (get_labels b)

unfoldable pub feature_vector : KernelGraph → List String → List ℕ
feature_vector g [] = []
feature_vector g (label ∷ labels) = get_label_count g label ∷ feature_vector g labels

unfoldable pub calculate : KernelGraph → KernelGraph → Option Fraction
calculate a b =
    let labels = merged_labels a b in
    Option.map (λ score. record { top = score; over = length (get_nodes a) * length (get_nodes b) })
      (dot_product (feature_vector a labels) (feature_vector b labels))
