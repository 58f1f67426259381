-- ===== src/Kernel/Numbers.antt =====
-- The new labels of a relabelled graph.
use tracing_framework.Prelude.{
  ◌>>=◌, ℕ, suc, ◌<◌, String, some, List, [], ◌∷◌, ◌≡◌, ◌∙◌, refl, ap, subst, arith, ◌==◌, false,
  eq_iff, eq_refl, Option-cases, inl, inr,
}
use tracing_framework.Prelude.KeySet.{contains, IsDistinct}
use tracing_framework.Prelude.Dict.{Dict, get, put, get-put}
use tracing_framework.KernelGraph.Defs.{KernelNode, KernelGraph}
use tracing_framework.KernelGraph.IsWf.{IsWf, edge}
use tracing_framework.KernelGraph.Construct.{ids_of}
use tracing_framework.KernelGraph.Clone.{AllFrom}
use tracing_framework.KernelGraph.Relabel.{relabel_lem}
use tracing_framework.Kernel.Rounds.{
  Generator, Direction, labels_around, canonical_label, number_of, relabel_nodes,
}

-- The numbers that have been given are below the next one, and no two labels have the same.
pub record IsSound (gen : Generator) : Type 0 where
  pub below : (c : String) (m : ℕ) → get gen.labels c ≡ some m → m < gen.seed
  pub injective :
      (c d : String) (m : ℕ) → get gen.labels c ≡ some m → get gen.labels d ≡ some m → c ≡ d

-- What has been given stays.
abbrev pub Keeps : Generator → Generator → Type 0
Keeps gen gen' = (c : String) (m : ℕ) → get gen.labels c ≡ some m → get gen'.labels c ≡ some m

-- The label `c` has its number, and what was given before stays.
abbrev pub Gives : String → Generator → ℕ × Generator → Type 0
Gives c gen (m, gen') = IsSound gen' × (get gen'.labels c ≡ some m) × Keeps gen gen'

module _ (sort : List String → List String) (text : ℕ → String) where
  pub number_of_lem :
      (label : String) (around : List String) (gen : Generator)
      → IsSound gen
      → Gives (canonical_label sort text label around) gen (number_of sort text label around gen)
  unfolding number_of
  number_of_lem label around gen s =
      let c = canonical_label sort text label around in
      let next : Generator = record { labels = put c gen.seed gen.labels; seed = suc gen.seed } in
      elim (Option-cases (get gen.labels c)) [
        | inr (m, e) ↦
            let old : (m, gen) ≡ number_of sort text label around gen = ground (arith, e) in
            subst (Gives c gen) old (s, e, λ d k h. h)
        | inl e ↦
            let new : (gen.seed, next) ≡ number_of sort text label around gen = ground (arith, e) in
            subst (Gives c gen) new (
              record {
                below = λ d m h. ground (arith, get-put c d gen.seed gen.labels, s.below d m);
                injective = λ d d' m h h'. ground (
                  arith,
                  get-put c d gen.seed gen.labels,
                  get-put c d' gen.seed gen.labels,
                  s.below d m,
                  s.below d' m,
                  s.injective d d' m,
                  eq_iff c d,
                  eq_iff c d',
                );
              },
              ground (arith, get-put c c gen.seed gen.labels, eq_refl c),
              λ d m h. ground (arith, get-put c d gen.seed gen.labels, eq_iff c d, e),
            )
      ]

  -- The node `n` of `g` has in `next` the text of the number of its canonical label.
  abbrev pub IsNamed : Direction → KernelGraph → Generator → KernelGraph → KernelNode → Type 0
  IsNamed direction g gen next n =
      (m : ℕ) × (get gen.labels (canonical_label sort text n.label (labels_around direction g n))
        ≡ some m)
      × (get next.nodes n.id ≡ some (record n { label = text m }))

  abbrev pub AllNamed : Direction → KernelGraph → Generator → KernelGraph → List KernelNode → Type 0
  AllNamed direction g gen next [] = Unit
  AllNamed direction g gen next (n ∷ ns) =
      IsNamed direction g gen next n × AllNamed direction g gen next ns

  AllFrom-but :
      (k : String) (d d' : Dict KernelNode) (ns : List KernelNode)
      → ((j : String) → (k == j) ≡ false → get d' j ≡ get d j)
      → contains k (ids_of ns) ≡ false
      → AllFrom d ns
      → AllFrom d' ns
  unfolding contains
  AllFrom-but k d d' [] h c a = tt
  AllFrom-but k d d' (n ∷ ns) h c a = (
    h n.id (ground (arith, eq_iff k n.id, eq_iff n.id k)) ∙ a.0,
    AllFrom-but k d d' ns h (ground arith) a.1,
  )

  pub relabel_nodes_lem :
      (direction : Direction) (g : KernelGraph) (ns : List KernelNode) (next : KernelGraph)
      (gen : Generator)
      → IsWf next
      → IsSound gen
      → IsDistinct (ids_of ns)
      → AllFrom next.nodes ns
      → (done : KernelGraph × Generator) × (relabel_nodes sort text direction g ns next gen
          ≡ some done)
        × IsWf done.0
        × IsSound done.1
        × Keeps gen done.1
        × AllNamed direction g done.1 done.0 ns
        × ((k : String) → contains k (ids_of ns) ≡ false → get done.0.nodes k ≡ get next.nodes k)
        × ((p c : String) → edge done.0 p c ≡ edge next p c)
  unfolding relabel_nodes contains
  relabel_nodes_lem direction g [] next gen w s d a =
      ((next, gen), refl, w, s, λ c m h. h, tt, λ k h. refl, λ p c. refl)
  relabel_nodes_lem direction g (n ∷ ns) next gen w s d a =
      let around = labels_around direction g n in
      let m = (number_of sort text n.label around gen).0 in
      let gen1 = (number_of sort text n.label around gen).1 in
      let (s1, given, keeps) = number_of_lem n.label around gen s in
      let (next1, e1, w1, nodes1, edges1) = relabel_lem next n.id (text m) n w a.0 in
      let (done, e2, w2, s2, keeps2, named, others, edges2) =
        relabel_nodes_lem direction g ns next1 gen1 w1 s1 d.1
          (AllFrom-but n.id next.nodes next1.nodes ns (λ j h. ground (arith, nodes1 j)) d.0 a.1) in
      (
        done,
        ap (λ o. o >>= λ z. relabel_nodes sort text direction g ns z gen1) e1 ∙ e2,
        w2,
        s2,
        λ c k h. keeps2 c k (keeps c k h),
        (
          (
            m,
            keeps2 (canonical_label sort text n.label around) m given,
            others n.id d.0 ∙ ground (arith, nodes1 n.id, eq_refl n.id),
          ),
          named,
        ),
        λ k h. ground (arith, others k, nodes1 k),
        λ p c. edges2 p c ∙ edges1 p c,
      )
