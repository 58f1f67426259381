-- ===== src/Kernel/Agree.antt =====
-- When relabelled nodes get the same label, and that the rounds of the kernel end with a score.
use tracing_framework.Prelude.{
  ◌>>=◌, ◌*◌, ◌+◌, ℕ, zero, suc, String, Option, none, some, List, [], ◌∷◌, ◌≡◌, ◌∙◌, refl, sym, ap,
  subst, arith, ◌==◌, Bool-cases, Option-cases, true, false, eq_iff, inl, inr, some_inj, ◌↔◌,
  length, map, ◌++◌, ap₂, if◌then◌else◌,
}
use Prim.Native.String
use tracing_framework.Prelude.KeySet.{KeySet, contains}
use tracing_framework.Prelude.Dict.{Dict, set_at, get, has, keys, contains-keys}
use tracing_framework.KernelGraph.Defs.{
  KernelNode, KernelGraph, get_nodes, get_node_ids, lookup_all, clone, get_label_count,
  get_neighbour_labels, get_child_labels, get_parent_labels, get_child_ids, get_parent_ids,
}
use tracing_framework.KernelGraph.IsWf.{IsWf, edge}
use tracing_framework.KernelGraph.Construct.{ids_of}
use tracing_framework.KernelGraph.Clone.{
  AllFrom, lookup_all-AllFrom, contains-ids_of-lookup_all, ids_of-lookup_all-IsDistinct, clone_lem,
}
use tracing_framework.Kernel.Defs.{Fraction, calculate, dot_product, feature_vector, merged_labels}
use tracing_framework.Kernel.Rounds.{
  Generator, new_generator, Direction, both, labels_around, canonical_label, relabel_graph,
  join_commas, remove_ends, add_rounds, do_calculate, add_fraction,
}
use tracing_framework.Kernel.Numbers.{IsSound, Keeps, IsNamed, AllNamed, relabel_nodes_lem}

pub new_generator-IsSound : IsSound new_generator
unfolding get
new_generator-IsSound = record { below = λ c m h. cc; injective = λ c d m h k. cc }

remove_ends-both :
    (g : KernelGraph) (ns : List KernelNode) (next : KernelGraph)
    → remove_ends both g ns next ≡ some next
unfolding remove_ends
remove_ends-both g [] next = refl
remove_ends-both g (n ∷ ns) next = remove_ends-both g ns next

-- `AllFrom` is a matter of what the dictionary has.
AllFrom-ext :
    (d d' : Dict KernelNode) (ns : List KernelNode)
    → ((k : String) → get d' k ≡ get d k)
    → AllFrom d ns
    → AllFrom d' ns
AllFrom-ext d d' [] h a = tt
AllFrom-ext d d' (n ∷ ns) h a = (h n.id ∙ a.0, AllFrom-ext d d' ns h a.1)

dot_product-returns :
    (a b : KernelGraph) (ls : List String)
    → (score : ℕ) × (dot_product (feature_vector a ls) (feature_vector b ls) ≡ some score)
unfolding dot_product feature_vector
dot_product-returns a b [] = (0, refl)
dot_product-returns a b (l ∷ ls) =
    let (score, e) = dot_product-returns a b ls in
    (get_label_count a l * get_label_count b l + score, ground (arith, e))

-- `NodeCountKernel` has a score for any two graphs.
pub calculate-returns : (a b : KernelGraph) → (score : Fraction) × (calculate a b ≡ some score)
unfolding calculate
calculate-returns a b =
    let (score, e) = dot_product-returns a b (merged_labels a b) in
    (record { top = score; over = length (get_nodes a) * length (get_nodes b) }, ground (arith, e))

abbrev label_of : Option KernelNode → Option String
label_of none = none
label_of (some n) = some n.label

abbrev pub label_in : KernelGraph → String → Option String
label_in g k = label_of (get g.nodes k)

module _ (sort : List String → List String) (text : ℕ → String) where
  AllNamed-get :
      (direction : Direction) (g : KernelGraph) (gen : Generator) (next : KernelGraph)
      (ns : List KernelNode) (k : String) (n : KernelNode)
      → AllFrom g.nodes ns
      → AllNamed sort text direction g gen next ns
      → contains k (ids_of ns) ≡ true
      → get g.nodes k ≡ some n
      → IsNamed sort text direction g gen next n
  unfolding contains
  AllNamed-get direction g gen next [] k n a s c e = absurd (ground arith)
  AllNamed-get direction g gen next (m ∷ ns) k n a s c e = elim (Bool-cases (m.id == k)) [
    | inl h ↦
        let same : m ≡ n =
          some_inj (sym a.0 ∙ ap (get g.nodes) (ground (arith, eq_iff m.id k)) ∙ e) in
        subst (IsNamed sort text direction g gen next) same s.0
    | inr h ↦ AllNamed-get direction g gen next ns k n a.1 s.1 (ground arith) e
  ]

  -- One relabelling along both directions.
  pub record Relabels (g : KernelGraph) (gen : Generator) (done : KernelGraph × Generator)
      : Type 0 where
    pub wf : IsWf done.0
    pub sound : IsSound done.1
    pub keeps : Keeps gen done.1
    pub named :
        (k : String) (n : KernelNode)
        → get g.nodes k ≡ some n
        → IsNamed sort text both g done.1 done.0 n
    pub edges : (p c : String) → edge done.0 p c ≡ edge g p c
    pub ids : (k : String) → has done.0.nodes k ≡ has g.nodes k

  pub relabel_graph-Relabels :
      (g : KernelGraph) (gen : Generator)
      → IsWf g
      → IsSound gen
      → (done : KernelGraph × Generator) × (relabel_graph sort text both g gen ≡ some done)
        × Relabels g gen done
  unfolding relabel_graph get_nodes get_node_ids
  relabel_graph-Relabels g gen w s =
      let ks = keys g.nodes in
      let ns = lookup_all g.nodes ks in
      let (w0, nodes0, edges0) = clone_lem g w in
      let from = lookup_all-AllFrom g.nodes w.node_ids ks in
      let (done, e, w', s', keeps, named, others, edges) =
        relabel_nodes_lem sort text both g ns (clone g) gen w0 s
          (ids_of-lookup_all-IsDistinct g.nodes w.node_ids ks w.distinct)
          (AllFrom-ext g.nodes (clone g).nodes ns nodes0 from) in
      let found : (k : String) (n : KernelNode)
          → get g.nodes k ≡ some n
          → IsNamed sort text both g done.1 done.0 n =
        λ k n h.
          AllNamed-get both g done.1 done.0 ns k n from named
            (ground
              (arith, contains-ids_of-lookup_all g.nodes w.node_ids ks k, contains-keys k g.nodes))
            h in
      (
        done,
        ap (λ o. o >>= λ z. remove_ends both g ns z.0 >>= λ next. some (next, z.1)) e
            ∙ ap (λ o. o >>= λ next. some (next, done.1)) (remove_ends-both g ns done.0),
        record {
          wf = w';
          sound = s';
          keeps = keeps;
          named = found;
          edges = λ p c. edges p c ∙ edges0 p c;
          ids = λ k. elim (Option-cases (get g.nodes k)) [
            | inl e ↦
                let unlisted : contains k (ids_of ns) ≡ false = ground (
                  arith,
                  e,
                  contains-ids_of-lookup_all g.nodes w.node_ids ks k,
                  contains-keys k g.nodes,
                ) in
                ground (arith, e, others k unlisted, nodes0 k)
            | inr (n, e) ↦
                let (u, eu, there) = found k n e in
                let same : get done.0.nodes n.id ≡ get done.0.nodes k =
                  ap (get done.0.nodes) (w.node_ids k n e) in
                ground (arith, e, there, same)
          ];
        },
      )

  -- What decides over the new label of a node: its label, and those of its children and parents.
  abbrev pub view : KernelGraph → KernelNode → String
  view g n =
      let around =
        map (λ m. m.label) (lookup_all g.nodes (set_at g.children n.id))
        ++ map (λ m. m.label) (lookup_all g.nodes (set_at g.parents n.id)) in
      String.◌++◌ n.label (String.◌++◌ ":" (join_commas (sort around)))

  view-canonical :
      (g : KernelGraph) (n : KernelNode)
      → canonical_label sort text n.label (labels_around both g n) ≡ view g n
  unfolding canonical_label get_neighbour_labels get_child_labels get_parent_labels get_child_ids
      get_parent_ids
  view-canonical g n =
      let own : (d : Dict KeySet) → (if has d n.id then set_at d n.id else []) ≡ set_at d n.id =
        λ d. elim (Option-cases (get d n.id)) [
          | inl e ↦ ground (arith, e)
          | inr (s, e) ↦ ground (arith, e)
        ] in
      ap₂
        (λ cs ps. String.◌++◌ n.label (
          String.◌++◌ ":" (
            join_commas (
              sort (
                map (λ m. m.label) (lookup_all g.nodes cs)
                ++ map (λ m. m.label) (lookup_all g.nodes ps))))))
        (own g.children) (own g.parents)

  -- The labels of two nodes are the texts of the numbers of `c` and `d`.
  agree :
      (labels : Dict ℕ) {p q : Option String} {u v : ℕ} {c d : String}
      → p ≡ some (text u)
      → q ≡ some (text v)
      → ((m n : ℕ) → text m ≡ text n → m ≡ n)
      → get labels c ≡ some u
      → get labels d ≡ some v
      → (get labels c ≡ some v → get labels d ≡ some v → c ≡ d)
      → (p ≡ q) ↔ (c ≡ d)
  agree labels {p} {q} {u} {v} {c} {d} hp hq inj hc hd same = (
    (λ e. same (hc ∙ ap (λ z. some z) (inj u v (some_inj (sym hp ∙ e ∙ hq)))) hd),
    (λ e. hp ∙ ap (λ z. some (text z)) (some_inj (sym hc ∙ ap (get labels) e ∙ hd)) ∙ sym hq),
  )

  -- A round relabels the two graphs of a comparison, of which the generator has numbered labels before.
  -- Where the texts of different numbers differ, and both graphs are well formed, it succeeds and keeps
  -- their edges, and a node of one and a node of the other have the same new label exactly when their
  -- old labels, each followed by a colon and the sorted labels of the node's children and parents, joined
  -- by commas, are the same text.
  pub labels_agree_lem :
      (a b : KernelGraph) (gen : Generator)
      → ((m n : ℕ) → text m ≡ text n → m ≡ n)
      → IsWf a
      → IsWf b
      → IsSound gen
      → (x : KernelGraph × Generator) × (y : KernelGraph × Generator) × (relabel_graph sort text
            both a gen
          ≡ some x)
        × (relabel_graph sort text both b x.1 ≡ some y)
        × ((p c : String) → (edge x.0 p c ≡ edge a p c) × (edge y.0 p c ≡ edge b p c))
        × ((k j : String) (n m : KernelNode)
            → get a.nodes k ≡ some n
            → get b.nodes j ≡ some m
            → (label_in x.0 k ≡ label_in y.0 j) ↔ (view a n ≡ view b m))
  labels_agree_lem a b gen inj wa wb s =
      let (x, ex, rx) = relabel_graph-Relabels a gen wa s in
      let (y, ey, ry) = relabel_graph-Relabels b x.1 wb rx.sound in
      (
        x,
        y,
        ex,
        ey,
        λ p c. (rx.edges p c, ry.edges p c),
        λ k j n m hn hm.
            let (u, eu, lu) = rx.named k n hn in
            let (v, ev, lv) = ry.named j m hm in
            let ca : get x.1.labels (view a n) ≡ some u =
              ap (get x.1.labels) (sym (view-canonical a n)) ∙ eu in
            let cb : get y.1.labels (view b m) ≡ some v =
              ap (get y.1.labels) (sym (view-canonical b m)) ∙ ev in
            agree y.1.labels (ap (label_in x.0) (sym (wa.node_ids k n hn)) ∙ ap label_of lu)
              (ap (label_in y.0) (sym (wb.node_ids j m hm)) ∙ ap label_of lv) inj
              (ry.keeps (view a n) u ca) cb (ry.sound.injective (view a n) (view b m) v),
      )

  module _ (kernel : KernelGraph → KernelGraph → Option Fraction)
      (returns : (a b : KernelGraph) → (score : Fraction) × (kernel a b ≡ some score)) where
    add_rounds-returns :
        (rounds : ℕ) (a b : KernelGraph) (score : Fraction) (gen : Generator)
        → IsWf a
        → IsWf b
        → IsSound gen
        → (total : Fraction) × (gen' : Generator) × (add_rounds sort text kernel rounds both a b
              score gen
            ≡ some (total, gen'))
          × IsSound gen'
    unfolding add_rounds
    add_rounds-returns zero a b score gen wa wb s = (score, gen, refl, s)
    add_rounds-returns (suc rounds) a b score gen wa wb s =
        let (x, ex, rx) = relabel_graph-Relabels a gen wa s in
        let (y, ey, ry) = relabel_graph-Relabels b x.1 wb rx.sound in
        let (more, em) = returns x.0 y.0 in
        let (total, gen', e, s') =
          add_rounds-returns rounds x.0 y.0 (add_fraction score more) y.1 rx.wf ry.wf ry.sound in
        (
          total,
          gen',
          ap
                (λ o. o >>= λ z. relabel_graph sort text both b z.1 >>= λ w. kernel z.0 w.0 >>= λ f.
                  add_rounds sort text kernel rounds both z.0 w.0 (add_fraction score f) w.1)
                ex
              ∙ ap
                  (λ o. o >>= λ w. kernel x.0 w.0 >>= λ f.
                    add_rounds sort text kernel rounds both x.0 w.0 (add_fraction score f) w.1)
                  ey
              ∙ ap
                  (λ o. o >>= λ f.
                    add_rounds sort text kernel rounds both x.0 y.0 (add_fraction score f) y.1)
                  em
              ∙ e,
          s',
        )

    -- The comparison along both directions of two well-formed graphs ends with a score, whatever the
    -- number of rounds, where `kernel` has a score for any two graphs.
    pub do_calculate-returns :
        (rounds : ℕ) (a b : KernelGraph) (gen : Generator)
        → IsWf a
        → IsWf b
        → IsSound gen
        → (score : Fraction) × (gen' : Generator) × (do_calculate sort text kernel rounds both a b
              gen
            ≡ some (score, gen'))
          × IsSound gen'
    unfolding do_calculate
    do_calculate-returns rounds a b gen wa wb s =
        let (first, e0) = returns a b in
        let (total, gen', e, s') = add_rounds-returns rounds a b first gen wa wb s in
        (
          record { top = total.top; over = total.over * suc rounds },
          gen',
          ap
                (λ o. o >>= λ f. add_rounds sort text kernel rounds both a b f gen >>= λ t.
                  some (record { top = t.0.top; over = t.0.over * suc rounds }, t.1))
                e0
              ∙ ap
                  (λ o.
                    o >>= λ t. some (record { top = t.0.top; over = t.0.over * suc rounds }, t.1))
                  e,
          s',
        )
