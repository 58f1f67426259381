-- ===== src/Kernel/Bounded.antt =====
-- The stability of a node is at most the number of its labels, so their quotient, which the page that
-- compares two traces draws, is at most 1.
use tracing_framework.Prelude.{
  ◌>>=◌, ℕ, zero, suc, ◌*◌, ◌≤◌, String, some, List, [], ◌∷◌, ◌++◌, Bool, true, false, ◌==◌, ◌||◌,
  ◌≡◌, ◌∙◌, refl, sym, ap, subst, arith, length, length-append, some_inj, eq_iff, eq_refl,
  Bool-cases, Option-cases, inl, inr,
}
use native.Mathlib.Nat.{mul-le-mul_left, mul-le-mul_right}
use tracing_framework.Prelude.KeySet.{contains}
use tracing_framework.Prelude.Dict.{Dict, get, has, put, get-put, keys, contains-keys}
use tracing_framework.KernelGraph.Defs.{
  KernelGraph, get_node_ids, get_labels, get_label_count, get_node_ids_for_label,
}
use tracing_framework.KernelGraph.IsWf.{IsWf}
use tracing_framework.Kernel.Defs.{Fraction}
use tracing_framework.Kernel.Rounds.{Generator, both, add_fraction}
use tracing_framework.Kernel.Numbers.{IsSound}
use tracing_framework.Kernel.Agree.{relabel_graph-Relabels}
use tracing_framework.Kernel.Stability.{
  Stability, init_stability, half_up, count_ratio, score_nodes, score_labels, stability_rounds,
  calculate_node_stability,
}

-- A quotient that is at most `n`.
abbrev pub AtMost : ℕ → Fraction → Type 0
AtMost n f = (f.top ≤ n * f.over) × (1 ≤ f.over)

-- The nodes have scores and labels, and each score is at most the number of the labels.
pub record IsBounded (nodes : String → Bool) (s : Stability) : Type 0 where
  pub labels_keys : (k : String) → has s.labels k ≡ nodes k
  pub scores_keys : (k : String) → has s.scores k ≡ nodes k
  pub bounded :
      (k : String) (ls : List String) (f : Fraction)
      → get s.labels k ≡ some ls
      → get s.scores k ≡ some f
      → AtMost (length ls) f

add_fraction-AtMost :
    (n : ℕ) (f g : Fraction) → AtMost n f → AtMost 1 g → AtMost (suc n) (add_fraction f g)
add_fraction-AtMost n f g (a, b) (c, d) = (
  omega (arith, mul-le-mul_right g.over a, mul-le-mul_right f.over c),
  omega (arith, b, mul-le-mul_left f.over d),
)

share-AtMost : (other own : ℕ) → AtMost 1 (half_up (count_ratio other own))
share-AtMost other own = ground arith

pub has-get : {A : Type 0} (d : Dict A) (k : String) → has d k ≡ true → (v : A) × (get d k ≡ some v)
has-get d k h = elim (Option-cases (get d k)) [
  | inl e ↦ absurd (ground (arith, e))
  | inr found ↦ found
]

put-at :
    {A : Type 0} (j k : String) (v : A) (d : Dict A) → (j == k) ≡ true → get (put j v d) k ≡ some v
put-at j k v d e = ground (arith, e, get-put j k v d)

-- One node gets a label and its share.
abbrev scored : String → Fraction → String → List String → Fraction → Stability → Stability
scored label share id ls f s = record {
  labels = put id (ls ++ label ∷ []) s.labels;
  scores = put id (add_fraction f share) s.scores;
}

scored-IsBounded :
    (nodes : String → Bool) (label : String) (share : Fraction) (id : String) (ls : List String)
    (f : Fraction) (s : Stability)
    → AtMost 1 share
    → nodes id ≡ true
    → get s.labels id ≡ some ls
    → get s.scores id ≡ some f
    → IsBounded nodes s
    → IsBounded nodes (scored label share id ls f s)
scored-IsBounded nodes label share id ls f s m i el ef b = record {
  labels_keys = λ k.
      ground (
        arith,
        get-put id k (ls ++ label ∷ []) s.labels,
        b.labels_keys k,
        i,
        ap nodes,
        eq_iff id k,
      );
  scores_keys = λ k. ground (
    arith,
    get-put id k (add_fraction f share) s.scores,
    b.scores_keys k,
    i,
    ap nodes,
    eq_iff id k,
  );
  bounded = λ k ks g hl hs. elim (Bool-cases (id == k)) [
    | inl e ↦
        let new_labels : ls ++ label ∷ [] ≡ ks =
          some_inj (sym (put-at id k (ls ++ label ∷ []) s.labels e) ∙ hl) in
        let new_score : add_fraction f share ≡ g =
          some_inj (sym (put-at id k (add_fraction f share) s.scores e) ∙ hs) in
        let longer : suc (length ls) ≡ length (ls ++ label ∷ []) =
          omega (arith, length-append ls (label ∷ [])) in
        let bound : AtMost (length (ls ++ label ∷ [])) (add_fraction f share) =
          subst (λ n. AtMost n (add_fraction f share)) longer
            (add_fraction-AtMost (length ls) f share (b.bounded id ls f el ef) m) in
        subst (λ z. AtMost (length z) g) new_labels
          (subst (AtMost (length (ls ++ label ∷ []))) new_score bound)
    | inr e ↦
        b.bounded k ks g (ground (arith, e, hl, get-put id k (ls ++ label ∷ []) s.labels))
          (ground (arith, e, hs, get-put id k (add_fraction f share) s.scores))
  ];
}

score_nodes-IsBounded :
    (nodes : String → Bool) (label : String) (share : Fraction) (ids : List String) (s : Stability)
    → AtMost 1 share
    → ((k : String) → contains k ids ≡ true → nodes k ≡ true)
    → IsBounded nodes s
    → (u : Stability) × (score_nodes label share ids s ≡ some u) × IsBounded nodes u
unfolding score_nodes contains
score_nodes-IsBounded nodes label share [] s m i b = (s, refl, b)
score_nodes-IsBounded nodes label share (id ∷ ids) s m i b =
    let here = i id (ground (arith, eq_refl id)) in
    let (ls, el) = has-get s.labels id (b.labels_keys id ∙ here) in
    let (f, ef) = has-get s.scores id (b.scores_keys id ∙ here) in
    let (u, e, c) =
      score_nodes-IsBounded nodes label share ids (scored label share id ls f s) m
        (λ k h. i k (ground (arith, h)))
        (scored-IsBounded nodes label share id ls f s m here el ef b) in
    (
      u,
      ap
            (λ o. o >>= λ x.
              get s.scores id >>= λ y. score_nodes label share ids (scored label share id x y s))
            el
          ∙ ap (λ o. o >>= λ y. score_nodes label share ids (scored label share id ls y s)) ef
          ∙ e,
      c,
    )

score_labels-IsBounded :
    (own other : KernelGraph) (nodes : String → Bool) (labels : List String) (s : Stability)
    → IsWf own
    → ((k : String) → has own.nodes k ≡ nodes k)
    → IsBounded nodes s
    → (u : Stability) × (score_labels own other labels s ≡ some u) × IsBounded nodes u
unfolding score_labels get_node_ids_for_label contains
score_labels-IsBounded own other nodes [] s w same b = (s, refl, b)
score_labels-IsBounded own other nodes (label ∷ labels) s w same b =
    let share = half_up (count_ratio (get_label_count other label) (get_label_count own label)) in
    let ids = get_node_ids_for_label own label in
    let (u, e, c) =
      score_nodes-IsBounded nodes label share ids s
        (share-AtMost (get_label_count other label) (get_label_count own label))
        (λ k h. elim (Option-cases (get own.nodes k)) [
          | inl e ↦ absurd (ground (arith, h, w.labelled k label, e))
          | inr (n, e) ↦ ground (arith, e, same k)
        ])
        b in
    let (v, f, d) = score_labels-IsBounded own other nodes labels u w same c in
    (v, ap (λ o. o >>= λ z. score_labels own other labels z) e ∙ f, d)

IsBounded-ext :
    (m n : String → Bool) (s : Stability)
    → ((k : String) → m k ≡ n k)
    → IsBounded m s
    → IsBounded n s
IsBounded-ext m n s e b = record {
  labels_keys = λ k. b.labels_keys k ∙ e k;
  scores_keys = λ k. b.scores_keys k ∙ e k;
  bounded = b.bounded;
}

init_stability-IsBounded :
    (ids : List String) (nodes : String → Bool) (s : Stability)
    → IsBounded nodes s
    → IsBounded (λ k. contains k ids || nodes k) (init_stability ids s)
unfolding init_stability contains
init_stability-IsBounded [] nodes s b = b
init_stability-IsBounded (id ∷ ids) nodes s b =
    let zero_score : Fraction = record { top = 0; over = 1 } in
    let s' : Stability = record {
      labels = put id [] s.labels;
      scores = put id zero_score s.scores;
    } in
    let more : IsBounded (λ k. id == k || nodes k) s' = record {
      labels_keys = λ k. ground (arith, get-put id k [] s.labels, b.labels_keys k);
      scores_keys = λ k. ground (arith, get-put id k zero_score s.scores, b.scores_keys k);
      bounded = λ k ks g hl hs. elim (Bool-cases (id == k)) [
        | inl e ↦
            let score : zero_score ≡ g = some_inj (sym (put-at id k zero_score s.scores e) ∙ hs) in
            subst (AtMost (length ks)) score (omega arith, omega arith)
        | inr e ↦
            b.bounded k ks g (ground (arith, e, hl, get-put id k [] s.labels))
              (ground (arith, e, hs, get-put id k zero_score s.scores))
      ];
    } in
    IsBounded-ext (λ k. contains k ids || (id == k || nodes k))
      (λ k. contains k (id ∷ ids) || nodes k) (init_stability ids s') (λ k. ground arith)
      (init_stability-IsBounded ids (λ k. id == k || nodes k) s' more)

start :
    (g : KernelGraph)
    → IsBounded
        (λ k. has g.nodes k)
        (init_stability (keys g.nodes) (record { labels = []; scores = [] }))
unfolding get
start g =
    IsBounded-ext (λ k. contains k (keys g.nodes) || false) (λ k. has g.nodes k)
      (init_stability (keys g.nodes) (record { labels = []; scores = [] }))
      (λ k. ground (arith, contains-keys k g.nodes))
      (init_stability-IsBounded (keys g.nodes) (λ k. false) (record { labels = []; scores = [] })
        record {
          labels_keys = λ k. refl;
          scores_keys = λ k. refl;
          bounded = λ k ls f hl hs. absurd (ground (arith, hl));
        })

module _ (sort : List String → List String) (text : ℕ → String) where
  stability_rounds-IsBounded :
      (rounds : ℕ) (a b : KernelGraph) (m n : String → Bool) (sa sb : Stability) (gen : Generator)
      → IsWf a
      → IsWf b
      → IsSound gen
      → ((k : String) → has a.nodes k ≡ m k)
      → ((k : String) → has b.nodes k ≡ n k)
      → IsBounded m sa
      → IsBounded n sb
      → (ua : Stability) × (ub : Stability) × (gen' : Generator) × (stability_rounds sort text
            rounds both a b sa sb gen
          ≡ some (ua, ub, gen'))
        × IsBounded m ua
        × IsBounded n ub
  unfolding stability_rounds
  stability_rounds-IsBounded zero a b m n sa sb gen wa wb s ha hb ba bb =
      (sa, sb, gen, refl, ba, bb)
  stability_rounds-IsBounded (suc rounds) a b m n sa sb gen wa wb s ha hb ba bb =
      let (sa', ea, ba') = score_labels-IsBounded a b m (get_labels a) sa wa ha ba in
      let (sb', eb, bb') = score_labels-IsBounded b a n (get_labels b) sb wb hb bb in
      let (x, ex, rx) = relabel_graph-Relabels sort text a gen wa s in
      let (y, ey, ry) = relabel_graph-Relabels sort text b x.1 wb rx.sound in
      let (ua, ub, gen', rest, ca, cb) =
        stability_rounds-IsBounded rounds x.0 y.0 m n sa' sb' y.1 rx.wf ry.wf ry.sound
          (λ k. rx.ids k ∙ ha k) (λ k. ry.ids k ∙ hb k) ba' bb' in
      (ua, ub, gen', ground (arith, ea, eb, ex, ey, rest), ca, cb)

  -- For two well-formed graphs, along both directions and for any depth, calculate_node_stability
  -- returns. The nodes of each graph, and no others, have a list of labels and a score, and no score is
  -- more than the number of the node's labels.
  pub calculate_node_stability_lem :
      (depth : ℕ) (a b : KernelGraph) (gen : Generator)
      → IsWf a
      → IsWf b
      → IsSound gen
      → (ua : Stability) × (ub : Stability) × (gen' : Generator) × (calculate_node_stability sort
            text depth both a b gen
          ≡ some (ua, ub, gen'))
        × IsBounded (λ k. has a.nodes k) ua
        × IsBounded (λ k. has b.nodes k) ub
  unfolding calculate_node_stability get_node_ids
  calculate_node_stability_lem depth a b gen wa wb s =
      stability_rounds-IsBounded depth a b (λ k. has a.nodes k) (λ k. has b.nodes k)
        (init_stability (keys a.nodes) record { labels = []; scores = [] })
        (init_stability (keys b.nodes) record { labels = []; scores = [] }) gen wa wb s (λ k. refl)
        (λ k. refl) (start a) (start b)
