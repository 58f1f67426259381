-- ===== src/Compare/Scores.antt =====
-- What the reports get.
use tracing_framework.Prelude.{
  eq_refl, subst, some_inj, ℕ, ◌≤◌, String, Option, none, some, List, [], ◌∷◌, Bool, true, false,
  ◌==◌, ◌≡◌, ◌∙◌, refl, sym, arith, length, map, Bool-cases, Option-cases, inl, inr,
}
use tracing_framework.Prelude.KeySet.{contains}
use tracing_framework.Prelude.Dict.{Dict, get, has, keys, contains-keys}
use tracing_framework.Workload.Total.{All}
use tracing_framework.KernelGraph.Defs.{KernelGraph}
use tracing_framework.KernelGraph.IsWf.{IsWf}
use tracing_framework.Kernel.Defs.{Fraction}
use tracing_framework.Kernel.Rounds.{new_generator}
use tracing_framework.Kernel.Agree.{new_generator-IsSound}
use tracing_framework.Kernel.Stability.{Stability}
use tracing_framework.Kernel.Bounded.{IsBounded, AtMost, has-get, calculate_node_stability_lem}
use tracing_framework.Compare.Fractions.{
  Extremes, no_extremes, include_all, between, Finite, Covers, between-NotMore, include_all_lem,
  no_extremes-IsProper,
}
use tracing_framework.Compare.Defs.{
  ScoredReport, mean, mean_scores, values, score_report, score_all, compare_page,
}

mean-Finite : (ls : List String) (f : Fraction) → AtMost (length ls) f → Finite (mean ls f)
mean-Finite ls f h z = omega (arith, h, z)

mean_scores-Finite :
    (nodes : String → Bool) (s : Stability) (ids : List String)
    → IsBounded nodes s
    → All (λ id. nodes id ≡ true) ids
    → (d : Dict Fraction) × (mean_scores s.labels s.scores ids ≡ some d)
      × All Finite (values d)
      × ((k : String) → has d k ≡ contains k ids)
unfolding mean_scores get contains
mean_scores-Finite nodes s [] b a = ([], refl, tt, λ k. refl)
mean_scores-Finite nodes s (id ∷ ids) b a =
    let (ls, el) = has-get s.labels id (b.labels_keys id ∙ a.0) in
    let (f, ef) = has-get s.scores id (b.scores_keys id ∙ a.0) in
    let (d, e, fin, ks) = mean_scores-Finite nodes s ids b a.1 in
    (
      (id, mean ls f) ∷ d,
      ground (arith, el, ef, e),
      (mean-Finite ls f (b.bounded id ls f el ef), fin),
      λ k. ground (arith, ks k),
    )

-- What holds of all values holds of the one of a key.
get-values :
    (P : Fraction → Type 0) (d : Dict Fraction) (k : String) (f : Fraction)
    → All P (values d)
    → get d k ≡ some f
    → P f
unfolding get
get-values P [] k f a e = absurd (ground (arith, e))
get-values P ((j, g) ∷ d) k f a e = elim (Bool-cases (j == k)) [
  | inl h ↦ subst P (some_inj (rw h at e)) a.0
  | inr h ↦ get-values P d k f a.1 (ground (arith, h, e))
]

-- A report of a node gets labels, and a score that is at most 1 or NaN; any other stays as it is.
abbrev pub IsScoredIf : Bool → ScoredReport → ScoredReport → Type 0
IsScoredIf false r q = q ≡ r
IsScoredIf true r q =
    (q.event_id ≡ r.event_id)
    × ((ls : List String) × (q.kernel_labels ≡ some ls))
    × ((f : Fraction) × (q.kernel_score ≡ some f) × (f.top ≤ f.over))

abbrev pub IsScoredAt : KernelGraph → Option String → ScoredReport → ScoredReport → Type 0
IsScoredAt g none r q = q ≡ r
IsScoredAt g (some id) r q = IsScoredIf (has g.nodes id) r q

abbrev pub AllScored : KernelGraph → List ScoredReport → List ScoredReport → Type 0
AllScored g [] [] = Unit
AllScored g (r ∷ rs) (q ∷ qs) = IsScoredAt g r.event_id r q × AllScored g rs qs
AllScored g _ _ = ⊥

module _ (g : KernelGraph) (labels : Dict (List String)) (scores : Dict Fraction) (e : Extremes)
    (labels_keys : (k : String) → has labels k ≡ has g.nodes k)
    (scores_keys : (k : String) → has scores k ≡ has g.nodes k)
    (covered : All (Covers e) (values scores)) where
  score_report-IsScored :
      (r : ScoredReport) → IsScoredAt g r.event_id r (score_report labels scores e r)
  unfolding score_report
  score_report-IsScored r = elim (Option-cases r.event_id) [
    | inl n ↦
        let same : r ≡ score_report labels scores e r = ground (arith, n) in
        subst (λ o. IsScoredAt g o r (score_report labels scores e r)) (sym n) (sym same)
    | inr (id, i) ↦ elim (Bool-cases (has g.nodes id)) [
      | inl h ↦
          let (ls, el) = has-get labels id (labels_keys id ∙ h) in
          let (f, ef) = has-get scores id (scores_keys id ∙ h) in
          let q : ScoredReport = record r {
            kernel_labels = some ls;
            kernel_score = some (between e f);
          } in
          let same : q ≡ score_report labels scores e r = ground (arith, i, el, ef) in
          let scored : IsScoredIf true r q = (
            refl,
            (ls, refl),
            (between e f, refl, between-NotMore e f (get-values (Covers e) scores id f covered ef)),
          ) in
          subst (λ o. IsScoredAt g o r (score_report labels scores e r)) (sym i)
            (subst (λ b. IsScoredIf b r (score_report labels scores e r)) (sym h)
              (subst (IsScoredIf true r) same scored))
      | inr h ↦
          let none_labels : has labels id ≡ false = labels_keys id ∙ h in
          let none_scores : has scores id ≡ false = scores_keys id ∙ h in
          let same : r ≡ score_report labels scores e r =
            ground (arith, i, none_labels, none_scores) in
          subst (λ o. IsScoredAt g o r (score_report labels scores e r)) (sym i)
            (subst (λ b. IsScoredIf b r (score_report labels scores e r)) (sym h) (sym same))
    ]
  ]

  map-AllScored : (rs : List ScoredReport) → AllScored g rs (map (score_report labels scores e) rs)
  map-AllScored [] = tt
  map-AllScored (r ∷ rs) = (score_report-IsScored r, map-AllScored rs)

covered_of :
    (fs : List Fraction) (e e' : Extremes)
    → ((h : Fraction) → Finite h → Covers e h → Covers e' h)
    → All Finite fs
    → All (Covers e) fs
    → All (Covers e') fs
covered_of [] e e' more fin a = tt
covered_of (f ∷ fs) e e' more fin a = (more f fin.0 a.0, covered_of fs e e' more fin.1 a.1)

listed :
    (g : KernelGraph) (ids : List String)
    → ((k : String) → contains k ids ≡ true → has g.nodes k ≡ true)
    → All (λ id. has g.nodes id ≡ true) ids
unfolding contains
listed g [] h = tt
listed g (id ∷ ids) h =
    (h id (ground (arith, eq_refl id)), listed g ids (λ k i. h k (ground (arith, i))))

all_listed :
    (g : KernelGraph) (s : Stability)
    → IsBounded (λ k. has g.nodes k) s
    → All (λ id. has g.nodes id ≡ true) (keys s.scores)
all_listed g s b =
    listed g (keys s.scores) (λ k i. ground (arith, i, contains-keys k s.scores, b.scores_keys k))

-- For the well-formed kernel graphs of two traces the page gives scores. A report that is a node of its
-- graph gets labels, and a score that is at most 1 or NaN; the other reports stay as they are.
pub compare_page_lem :
    (sort : List String → List String) (text : ℕ → String) (a b : KernelGraph)
    (reports_a reports_b : List ScoredReport)
    → IsWf a
    → IsWf b
    → (qs : List ScoredReport × List ScoredReport) × (compare_page sort text a b reports_a reports_b
        ≡ some qs)
      × AllScored a reports_a qs.0
      × AllScored b reports_b qs.1
unfolding compare_page score_all
compare_page_lem sort text a b reports_a reports_b wa wb =
    let (sa, sb, gen, e, ba, bb) =
      calculate_node_stability_lem sort text 5 a b new_generator wa wb new_generator-IsSound in
    let (da, ea, fa, ka) =
      mean_scores-Finite (λ k. has a.nodes k) sa (keys sa.scores) ba (all_listed a sa ba) in
    let (db, eb, fb, kb) =
      mean_scores-Finite (λ k. has b.nodes k) sb (keys sb.scores) bb (all_listed b sb bb) in
    let first = include_all (values da) no_extremes in
    let last = include_all (values db) first in
    let (pa, ca, oa) = include_all_lem (values da) no_extremes fa no_extremes-IsProper in
    let (pb, cb, ob) = include_all_lem (values db) first fb pa in
    (
      (
        map (score_report sa.labels da last) reports_a,
        map (score_report sb.labels db last) reports_b,
      ),
      ground (arith, e, ea, eb),
      map-AllScored a sa.labels da last ba.labels_keys
          (λ k. ka k ∙ contains-keys k sa.scores ∙ ba.scores_keys k)
          (covered_of (values da) first last ob fa ca) reports_a,
      map-AllScored b sb.labels db last bb.labels_keys
          (λ k. kb k ∙ contains-keys k sb.scores ∙ bb.scores_keys k) cb reports_b,
    )
