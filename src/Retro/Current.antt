-- ===== src/Retro/Current.antt =====
-- When the charts show the reports that are kept.
use tracing_framework.Prelude.{
  append-one, append-empty, append-append, ◌>>=◌, String, Option, some, List, [], ◌∷◌, ◌++◌, map,
  ◌≡◌, ◌∙◌, refl, sym, ap, arith,
}
use tracing_framework.Retro.Amount.{Amount}
use tracing_framework.Retro.Reports.{TenantReport}
use tracing_framework.Retro.DataSet.{DataSet, new_data_set, collect, collect_all}
use tracing_framework.Retro.Recent.{
  Recent, charts, chart_config, collect_in, collect_tenants, collect_reports, refresh,
}

abbrev pub in_all : List (List TenantReport) → List TenantReport
in_all [] = []
in_all (rs ∷ rss) = rs ++ in_all rss

module _ (u : Amount) (sort : List String → List String) where
  -- Every data set is there and has collected `rs`.
  abbrev pub all_collect : List TenantReport → List (DataSet u) → List (Option (DataSet u))
  all_collect rs ds = map (λ d. some (collect_all u sort rs d)) ds

  collect_all-append :
      (rs qs : List TenantReport) (d : DataSet u)
      → collect_all u sort (rs ++ qs) d ≡ collect_all u sort qs (collect_all u sort rs d)
  unfolding collect_all
  collect_all-append [] qs d = refl
  collect_all-append (r ∷ rs) qs d = collect_all-append rs qs (collect u sort r d).0

  pub collect_in_lem :
      (r : TenantReport) (rs : List TenantReport) (ds : List (DataSet u))
      → collect_in u sort r (all_collect rs ds) ≡ some (all_collect (rs ++ r ∷ []) ds)
  unfolding collect_in collect_all
  collect_in_lem r rs [] = refl
  collect_in_lem r rs (d ∷ ds) =
      ground (arith, collect_in_lem r rs ds, collect_all-append rs (r ∷ []) d)

  collect_tenants_lem :
      (qs rs : List TenantReport) (ds : List (DataSet u))
      → collect_tenants u sort qs (all_collect rs ds) ≡ some (all_collect (rs ++ qs) ds)
  unfolding collect_tenants
  collect_tenants_lem [] rs ds = ap (λ z. some (all_collect z ds)) (sym (append-empty rs))
  collect_tenants_lem (q ∷ qs) rs ds =
      ap (λ o. o >>= collect_tenants u sort qs) (collect_in_lem q rs ds)
      ∙ collect_tenants_lem qs (rs ++ q ∷ []) ds
      ∙ ap (λ z. some (all_collect z ds)) (append-one rs q qs)

  collect_reports_lem :
      (rss : List (List TenantReport)) (rs : List TenantReport) (ds : List (DataSet u))
      → collect_reports u sort (map (λ qs. some qs) rss) (all_collect rs ds)
        ≡ some (all_collect (rs ++ in_all rss) ds)
  unfolding collect_reports
  collect_reports_lem [] rs ds = ap (λ z. some (all_collect z ds)) (sym (append-empty rs))
  collect_reports_lem (qs ∷ rss) rs ds =
      ap (λ o. o >>= collect_reports u sort (map (λ qs. some qs) rss))
        (collect_tenants_lem qs rs ds)
      ∙ collect_reports_lem rss (rs ++ qs) ds
      ∙ ap (λ z. some (all_collect z ds)) (append-append rs qs (in_all rss))

  -- The data sets of the charts, before they collect anything.
  abbrev pub fresh_sets : Recent u → List (DataSet u)
  fresh_sets s = map (λ y. new_data_set u (chart_config u s y)) (charts u)

  -- The reports `rss` are kept, and the data sets of the charts have collected all of them.
  pub record IsCurrent (rss : List (List TenantReport)) (s : Recent u) : Type 0 where
    pub kept : s.reports ≡ map (λ qs. some qs) rss
    pub collected : s.datasets ≡ all_collect (in_all rss) (fresh_sets s)

  -- What a redraw leaves as it is.
  pub record Keeps (s t : Recent u) : Type 0 where
    pub groupby : t.groupby ≡ s.groupby
    pub filters : t.filters ≡ s.filters
    pub properties : t.properties ≡ s.properties

  pub refresh-IsCurrent :
      (rss : List (List TenantReport)) (s : Recent u)
      → s.reports ≡ map (λ qs. some qs) rss
      → (t : Recent u) × (refresh u sort s ≡ some t) × IsCurrent rss t × Keeps s t
  unfolding refresh collect_all chart_config
  refresh-IsCurrent rss s h =
      let sets = fresh_sets s in
      (
        record s { datasets = all_collect (in_all rss) sets },
        ap (λ o. do ds ← o; some (record s { datasets = ds }))
            (ap (λ z. collect_reports u sort z (all_collect [] sets)) h
              ∙ collect_reports_lem rss [] sets),
        record { kept = h; collected = refl },
        record { groupby = refl; filters = refl; properties = refl },
      )
