-- ===== src/Kernel/Count.antt =====
-- The sizes of the sets of labels, counted on the list of nodes.
use tracing_framework.Prelude.{
  ℕ, suc, String, List, [], ◌∷◌, map, length, Bool, true, false, ◌==◌, ◌≡◌, refl, if◌then◌else◌,
  arith, eq_iff, eq_refl, ◌&&◌, Bool-cases, inl, inr,
}
use tracing_framework.Prelude.KeySet.{KeySet, contains, remove, contains-remove, IsDistinct}
use tracing_framework.Prelude.Dict.{Dict, get, keys, set_at, contains-keys}
use tracing_framework.KernelGraph.Defs.{
  KernelNode, KernelGraph, get_label_count, get_node_ids_for_label, get_nodes, get_node_ids,
  lookup_all,
}
use tracing_framework.KernelGraph.IsWf.{IsWf, label_is}
use tracing_framework.Kernel.Sets.{HasSets}

-- How many elements of a list are `l`.
unfoldable pub occurrences : String → List String → ℕ
occurrences l [] = 0
occurrences l (x ∷ xs) = if x == l then suc (occurrences l xs) else occurrences l xs

abbrev pub labels_of : KernelGraph → List String
labels_of g = map (λ n. n.label) (get_nodes g)

-- How many elements pass a test.
tally : (String → Bool) → List String → ℕ
tally p [] = 0
tally p (k ∷ ks) = if p k then suc (tally p ks) else tally p ks

remove-IsDistinct : (k : String) (s : KeySet) → IsDistinct s → IsDistinct (remove k s)
unfolding remove
remove-IsDistinct k [] d = tt
remove-IsDistinct k (j ∷ s) d = ground (arith, remove-IsDistinct k s, contains-remove j k s)

remove-missing : (k : String) (s : KeySet) → contains k s ≡ false → length (remove k s) ≡ length s
unfolding remove contains
remove-missing k [] h = refl
remove-missing k (j ∷ s) h = ground (arith, remove-missing k s, eq_iff j k, eq_iff k j)

length-remove :
    (k : String) (s : KeySet)
    → IsDistinct s
    → contains k s ≡ true
    → length s ≡ suc (length (remove k s))
unfolding remove contains
length-remove k [] d h = absurd (ground arith)
length-remove k (j ∷ s) d h =
    ground (arith, length-remove k s, remove-missing k s, eq_iff j k, eq_iff k j)

-- A set is as large as the part of a list that it holds.
length-tally :
    (p : String → Bool) (ks s : KeySet)
    → IsDistinct ks
    → IsDistinct s
    → ((j : String) → contains j s ≡ (contains j ks && p j))
    → length s ≡ tally p ks
unfolding tally contains
length-tally p [] [] d e h = refl
length-tally p [] (j ∷ s) d e h = absurd (ground (arith, h j, eq_refl j))
length-tally p (k ∷ ks) s d e h = elim (Bool-cases (p k)) [
  | inl y ↦ ground (
    arith,
    length-remove k s e (ground (arith, h k, eq_refl k)),
    length-tally p ks (remove k s) d.1 (remove-IsDistinct k s e)
        (λ j. ground (arith, h j, contains-remove j k s, eq_iff k j, eq_iff j k)),
  )
  | inr n ↦ ground (arith, length-tally p ks s d.1 e (λ j. ground (arith, h j, eq_iff k j)))
]

tally-lookup_all :
    (l : String) (d : Dict KernelNode) (ks : KeySet)
    → tally (λ k. label_is (get d k) l) ks ≡ occurrences l (map (λ n. n.label) (lookup_all d ks))
unfolding tally lookup_all occurrences
tally-lookup_all l d [] = refl
tally-lookup_all l d (k ∷ ks) = ground (arith, tally-lookup_all l d ks)

-- `get_label_count` counts the nodes of that label.
pub get_label_count_lem :
    (g : KernelGraph) (l : String)
    → IsWf g
    → HasSets g
    → get_label_count g l ≡ occurrences l (labels_of g)
unfolding get_label_count get_node_ids_for_label get_nodes get_node_ids
get_label_count_lem g l w s = ground (
  arith,
  length-tally (λ k. label_is (get g.nodes k) l) (keys g.nodes) (set_at g.labels l) w.distinct
      (s.label_sets l) (λ j. ground (arith, w.labelled j l, contains-keys j g.nodes)),
  tally-lookup_all l g.nodes (keys g.nodes),
)
