-- ===== src/Kernel/NodeCount.antt =====
-- What the score of `NodeCountKernel` counts.
use tracing_framework.Prelude.{
  ℕ, suc, ◌+◌, ◌*◌, ◌≤◌, String, some, List, [], ◌∷◌, map, length, true, false, ◌==◌, ◌≡◌, refl,
  arith, eq_iff, eq_refl, ◌∙◌, ap, ap₂, Bool-cases, inl, inr,
}
use tracing_framework.Prelude.KeySet.{contains, IsDistinct, union, contains-union, union-IsDistinct}
use tracing_framework.Prelude.Dict.{has, keys, contains-keys}
use tracing_framework.KernelGraph.Defs.{
  KernelGraph, get_labels, get_label_count, get_node_ids_for_label, get_nodes,
}
use tracing_framework.KernelGraph.IsWf.{IsWf}
use tracing_framework.Kernel.Defs.{Fraction, dot_product, merged_labels, feature_vector, calculate}
use tracing_framework.Kernel.Sets.{HasSets}
use tracing_framework.Kernel.Count.{occurrences, labels_of, get_label_count_lem}

-- The pairs of an element of the first list and an equal one of the second.
unfoldable pub same_pairs : List String → List String → ℕ
same_pairs [] ys = 0
same_pairs (x ∷ xs) ys = occurrences x ys + same_pairs xs ys

-- The products of the counts, added up over some labels.
weigh : List String → List String → List String → ℕ
weigh xs ys [] = 0
weigh xs ys (l ∷ ls) = occurrences l xs * occurrences l ys + weigh xs ys ls

weigh-nil : (ys ls : List String) → weigh [] ys ls ≡ 0
unfolding weigh occurrences
weigh-nil ys [] = refl
weigh-nil ys (l ∷ ls) = omega (arith, weigh-nil ys ls)

weigh-missing :
    (x : String) (xs ys ls : List String)
    → contains x ls ≡ false
    → weigh (x ∷ xs) ys ls ≡ weigh xs ys ls
unfolding weigh occurrences contains
weigh-missing x xs ys [] h = refl
weigh-missing x xs ys (l ∷ ls) h = ground (arith, weigh-missing x xs ys ls, eq_iff x l, eq_iff l x)

one_more : (a b r : ℕ) → suc a * b + r ≡ b + (a * b + r)
one_more a b r = omega arith

weigh-cons :
    (x : String) (xs ys ls : List String)
    → IsDistinct ls
    → contains x ls ≡ true
    → weigh (x ∷ xs) ys ls ≡ occurrences x ys + weigh xs ys ls
unfolding weigh occurrences contains
weigh-cons x xs ys [] d h = absurd (ground arith)
weigh-cons x xs ys (l ∷ ls) d h = elim (Bool-cases (x == l)) [
  | inl e ↦
      let same : x ≡ l = (eq_iff x l).0 e in
      ground (
        arith,
        same,
        ap (λ z. occurrences z ys) same,
        ap (λ z. contains z ls) same,
        weigh-missing x xs ys ls,
        one_more (occurrences l xs) (occurrences l ys) (weigh xs ys ls),
      )
  | inr e ↦ ground (arith, weigh-cons x xs ys ls d.1, eq_iff x l, eq_iff l x)
]

weigh_lem :
    (xs ys ls : List String)
    → IsDistinct ls
    → ((x : String) → contains x ls ≡ false → occurrences x xs ≡ 0)
    → weigh xs ys ls ≡ same_pairs xs ys
unfolding same_pairs occurrences
weigh_lem [] ys ls d h = weigh-nil ys ls
weigh_lem (x ∷ xs) ys ls d h = elim (Bool-cases (contains x ls)) [
  | inl i ↦
      ground (arith, weigh-cons x xs ys ls d i, weigh_lem xs ys ls d (λ y m. ground (arith, h y m)))
  | inr m ↦ absurd (ground (arith, h x m, eq_refl x))
]

dot_product_lem :
    (a b : KernelGraph) (ls : List String)
    → IsWf a
    → HasSets a
    → IsWf b
    → HasSets b
    → dot_product (feature_vector a ls) (feature_vector b ls)
      ≡ some (weigh (labels_of a) (labels_of b) ls)
unfolding dot_product feature_vector weigh
dot_product_lem a b [] wa sa wb sb = refl
dot_product_lem a b (l ∷ ls) wa sa wb sb = ground (
  arith,
  get_label_count_lem a l wa sa,
  get_label_count_lem b l wb sb,
  dot_product_lem a b ls wa sa wb sb,
)

get_label_count-missing :
    (g : KernelGraph) (l : String) → has g.labels l ≡ false → get_label_count g l ≡ 0
unfolding get_label_count get_node_ids_for_label
get_label_count-missing g l h = ground arith

merged_labels-IsDistinct : (a b : KernelGraph) → IsDistinct (merged_labels a b)
unfolding merged_labels
merged_labels-IsDistinct a b =
    union-IsDistinct (union [] (get_labels a)) (get_labels b)
      (union-IsDistinct [] (get_labels a) tt)

length-map : {A B : Type 0} (f : A → B) (xs : List A) → length (map f xs) ≡ length xs
length-map f [] = refl
length-map f (x ∷ xs) = omega (arith, length-map f xs)

-- A label that the merged ones do not have is not the label of a node of the first graph.
merged_labels_lem :
    (a b : KernelGraph) (x : String)
    → IsWf a
    → HasSets a
    → contains x (merged_labels a b) ≡ false
    → occurrences x (labels_of a) ≡ 0
unfolding merged_labels get_labels contains
merged_labels_lem a b x w s h = ground (
  arith,
  get_label_count_lem a x w s,
  get_label_count-missing a x,
  contains-union x (union [] (keys a.labels)) (keys b.labels),
  contains-union x [] (keys a.labels),
  contains-keys x a.labels,
)

-- For well-formed kernel graphs the score of NodeCountKernel is the number of pairs of a node of the
-- first graph and a node of the second with the same label, over the number of all pairs.
pub calculate_lem :
    (a b : KernelGraph)
    → IsWf a
    → HasSets a
    → IsWf b
    → HasSets b
    → calculate a b
      ≡ some (record {
        top = same_pairs (labels_of a) (labels_of b);
        over = length (labels_of a) * length (labels_of b);
      })
unfolding calculate
calculate_lem a b wa sa wb sb = ground (
  arith,
  dot_product_lem a b (merged_labels a b) wa sa wb sb,
  weigh_lem (labels_of a) (labels_of b) (merged_labels a b) (merged_labels-IsDistinct a b)
      (λ x h. merged_labels_lem a b x wa sa h),
  length-map (λ n. n.label) (get_nodes a),
  length-map (λ n. n.label) (get_nodes b),
)

same_pairs-nil : (xs : List String) → same_pairs xs [] ≡ 0
unfolding same_pairs occurrences
same_pairs-nil [] = refl
same_pairs-nil (x ∷ xs) = omega (arith, same_pairs-nil xs)

same_pairs-cons :
    (xs ys : List String) (y : String)
    → same_pairs xs (y ∷ ys) ≡ occurrences y xs + same_pairs xs ys
unfolding same_pairs occurrences
same_pairs-cons [] ys y = refl
same_pairs-cons (x ∷ xs) ys y = ground (arith, same_pairs-cons xs ys y, eq_iff x y, eq_iff y x)

same_pairs_comm : (xs ys : List String) → same_pairs xs ys ≡ same_pairs ys xs
unfolding same_pairs
same_pairs_comm xs [] = same_pairs-nil xs
same_pairs_comm xs (y ∷ ys) = omega (arith, same_pairs-cons xs ys y, same_pairs_comm xs ys)

occurrences-le : (x : String) (ys : List String) → occurrences x ys ≤ length ys
unfolding occurrences
occurrences-le x [] = omega arith
occurrences-le x (y ∷ ys) = ground (arith, occurrences-le x ys)

same_pairs-le : (xs ys : List String) → same_pairs xs ys ≤ length xs * length ys
unfolding same_pairs
same_pairs-le [] ys = omega arith
same_pairs-le (x ∷ xs) ys = omega (arith, occurrences-le x ys, same_pairs-le xs ys)

-- For well-formed kernel graphs the score of NodeCountKernel does not depend on the order of the two
-- graphs, and is a fraction that is at most 1 or the NaN of 0 / 0.
pub calculate_comm :
    (a b : KernelGraph)
    → IsWf a
    → HasSets a
    → IsWf b
    → HasSets b
    → (score : Fraction) × (calculate a b ≡ some score)
      × (calculate b a ≡ some score)
      × (score.top ≤ score.over)
calculate_comm a b wa sa wb sb =
    let xs = labels_of a in
    let ys = labels_of b in
    (
      record { top = same_pairs xs ys; over = length xs * length ys },
      calculate_lem a b wa sa wb sb,
      calculate_lem b a wb sb wa sa
          ∙ ap₂ (λ t o. some (record { top = t; over = o })) (same_pairs_comm ys xs) (omega arith),
      same_pairs-le xs ys,
    )
