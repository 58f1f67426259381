-- ===== src/Retro/Session.antt =====
-- Sessions with `FilterDataSet`: reports arrive, and the user chooses groups and filters.
use tracing_framework.Prelude.{
  ap₂, false, append-one, append-empty, append-append, ◌>>=◌, ℕ, suc, ◌+◌, ◌≤◌, ◌<◌, String, Option,
  some, List, [], ◌∷◌, ◌++◌, true, length, length-append, map, ◌≡◌, ◌∙◌, refl, sym, ap, subst,
  arith,
}
use tracing_framework.Prelude.KeySet.{contains}
use tracing_framework.Retro.Amount.{Amount}
use tracing_framework.Retro.Reports.{TenantReport}
use tracing_framework.Retro.DataSet.{Config, DataSet, new_data_set, collect_all}
use tracing_framework.Retro.Collect.{usage_of, series_sum_at}
use tracing_framework.Retro.Sums.{EachLasts, IsListed, collect_all_lem}
use tracing_framework.Retro.Recent.{
  values, Recent, new_recent, charts, chart_config, collect_in, refresh, group, filter_by,
  take_tenants, keep_last, receive, observe, save, set_group, set_filter,
}
use tracing_framework.Retro.Current.{
  in_all, IsCurrent, all_collect, collect_in_lem, fresh_sets, refresh-IsCurrent,
}
pub use tracing_framework.Retro.Chosen.{Event, report_arrives, group_chosen, filter_chosen, choice}
use tracing_framework.Retro.Chosen.{
  Choice, no_choice, choose, reports_of, chosen_after, observe_all, Follows, new_recent-Follows,
  arrive-Follows, set_group-Follows, set_filter-Follows,
}

abbrev pub arrives : Event → List (List TenantReport)
arrives (report_arrives rs) = rs ∷ []
arrives (group_chosen p) = []
arrives (filter_chosen p v) = []

abbrev pub arrived : List Event → List (List TenantReport)
arrived [] = []
arrived (e ∷ es) = arrives e ++ arrived es

in_all-append :
    (rss : List (List TenantReport)) (rs : List TenantReport)
    → in_all (rss ++ rs ∷ []) ≡ in_all rss ++ rs
in_all-append [] rs = append-empty rs
in_all-append (qs ∷ rss) rs =
    ap (λ z. qs ++ z) (in_all-append rss rs) ∙ sym (append-append qs (in_all rss) rs)

map-append-some :
    (rss : List (List TenantReport)) (rs : List TenantReport)
    → map (λ qs. some qs) rss ++ some rs ∷ [] ≡ map (λ qs. some qs) (rss ++ rs ∷ [])
map-append-some [] rs = refl
map-append-some (qs ∷ rss) rs = ap (λ z. some qs ∷ z) (map-append-some rss rs)

length-map-some : (rss : List (List TenantReport)) → length (map (λ qs. some qs) rss) ≡ length rss
length-map-some [] = refl
length-map-some (rs ∷ rss) = ap suc (length-map-some rss)

abbrev pub EachTakesTime : List TenantReport → Type 0
EachTakesTime [] = Unit
EachTakesTime (r ∷ rs) = (r.start < r.end) × EachTakesTime rs

module _ (u : Amount) where
  -- The settings of a chart for a choice.
  abbrev pub config_for : Choice → (TenantReport → u.Carrier) → Config u
  config_for c y = record {
    accepts = values c.filters;
    seriesid = c.group_of;
    seriesname = c.group_of;
    y = y;
    showtotal = false;
    showbackground = true;
    reportextent = λ r. (r.start, r.end);
  }

module _ (u : Amount) (sort : List String → List String) where
  -- The data set of each chart lists the series that it has, and shows, as each of them, the sum of the
  -- values of its reports among `rs`.
  abbrev pub EachShows :
      Choice
      → List TenantReport
      → List (TenantReport → u.Carrier)
      → List (Option (DataSet u))
      → Type 0
  EachShows c rs [] [] = Unit
  EachShows c rs (y ∷ ys) (some d ∷ ds) =
      IsListed u sort d
      × ((k : String) (x : ℕ)
          → usage_of u d k x ≡ series_sum_at u (config_for u c y) k u.nothing rs x)
      × EachShows c rs ys ds
  EachShows c rs _ _ = ⊥

  abbrev pub on_event : ℕ → Event → Recent u → Option (Recent u)
  on_event n (report_arrives rs) s = receive u sort n (some rs) s
  on_event n (group_chosen p) s = group u sort p s
  on_event n (filter_chosen p v) s = filter_by u sort p v s

  abbrev pub run : ℕ → List Event → Recent u → Option (Recent u)
  run n [] s = some s
  run n (e ∷ es) s = on_event n e s >>= run n es

  take_tenants_lem :
      (rs qs : List TenantReport) (ds : List (DataSet u)) (s : Recent u)
      → s.datasets ≡ all_collect u sort qs ds
      → take_tenants u sort rs s
        ≡ some (record s {
          properties = observe_all u rs s.properties;
          datasets = all_collect u sort (qs ++ rs) ds;
        })
  unfolding take_tenants
  take_tenants_lem [] qs ds s h =
      ap (λ z. some (record s { datasets = z }))
        (h ∙ ap (λ z. all_collect u sort z ds) (sym (append-empty qs)))
  take_tenants_lem (r ∷ rs) qs ds s h =
      ap
        (λ o. do
          z ← o
          take_tenants u sort rs (record s { properties = observe r s.properties; datasets = z }))
        (ap (collect_in u sort r) h ∙ collect_in_lem u sort r qs ds)
      ∙ take_tenants_lem rs (qs ++ r ∷ []) ds
          (record s {
            properties = observe r s.properties;
            datasets = all_collect u sort (qs ++ r ∷ []) ds;
          })
          refl
      ∙ ap
          (λ z. some (record s {
            properties = observe_all u rs (observe r s.properties);
            datasets = all_collect u sort z ds;
          }))
          (append-one qs r rs)

  keep_last-all :
      (n : ℕ) (rss : List (Option (List TenantReport))) → length rss ≤ n → keep_last n rss ≡ rss
  unfolding keep_last
  keep_last-all n rss h = ground arith

  receive-IsCurrent :
      (n : ℕ) (rs : List TenantReport) (rss : List (List TenantReport)) (c0 : Choice) (s : Recent u)
      → IsCurrent u sort rss s
      → Follows u (in_all rss) c0 s
      → length rss < n
      → (t : Recent u) × (receive u sort n (some rs) s ≡ some t)
        × IsCurrent u sort (rss ++ rs ∷ []) t
        × Follows u (in_all rss ++ rs) c0 t
  unfolding receive chart_config
  receive-IsCurrent n rs rss c0 s c f l =
      let all = s.reports ++ some rs ∷ [] in
      let whole : all ≡ map (λ qs. some qs) (rss ++ rs ∷ []) =
        ap (λ z. z ++ some rs ∷ []) c.kept ∙ map-append-some rss rs in
      let short : length all ≤ n =
        ground
          (arith, ap length whole, length-map-some (rss ++ rs ∷ []), length-append rss (rs ∷ [])) in
      let taken : Recent u = record s {
        properties = observe_all u rs s.properties;
        datasets = all_collect u sort (in_all rss ++ rs) (fresh_sets u sort s);
      } in
      (
        save u n (some rs) taken,
        ap (λ o. o >>= λ z. some (save u n (some rs) z))
            (take_tenants_lem rs (in_all rss) (fresh_sets u sort s) s c.collected),
        record {
          kept = keep_last-all n all short ∙ whole;
          collected =
              ap (λ z. all_collect u sort z (fresh_sets u sort s)) (sym (in_all-append rss rs));
        },
        arrive-Follows u (in_all rss) rs c0 s (save u n (some rs) taken) f refl refl refl,
      )

  -- What holds after an event on a page with the reports `rss`.
  abbrev After : ℕ → Event → List (List TenantReport) → Choice → Recent u → Type 0
  After n e rss c0 s =
      (t : Recent u) × (on_event n e s ≡ some t)
      × IsCurrent u sort (rss ++ arrives e) t
      × Follows u (in_all rss ++ reports_of e) (choose e (in_all rss) c0) t

  -- A choice draws the page again.
  redraw_lem :
      (rss : List (List TenantReport)) (c0 : Choice) (s : Recent u)
      → s.reports ≡ map (λ qs. some qs) rss
      → Follows u (in_all rss) c0 s
      → (t : Recent u) × (refresh u sort s ≡ some t)
        × IsCurrent u sort (rss ++ []) t
        × Follows u (in_all rss ++ []) c0 t
  redraw_lem rss c0 s kept f =
      let (t, e, c, same) = refresh-IsCurrent u sort rss s kept in
      (
        t,
        e,
        subst (λ z. IsCurrent u sort z t) (sym (append-empty rss)) c,
        arrive-Follows u (in_all rss) [] c0 s t f same.groupby same.filters same.properties,
      )

  event-IsCurrent :
      (n : ℕ) (e : Event) (rss : List (List TenantReport)) (c0 : Choice) (s : Recent u)
      → IsCurrent u sort rss s
      → Follows u (in_all rss) c0 s
      → length rss + length (arrives e) ≤ n
      → After n e rss c0 s
  unfolding group filter_by
  event-IsCurrent n (report_arrives rs) rss c0 s c f l =
      receive-IsCurrent n rs rss c0 s c f (omega (arith, l))
  event-IsCurrent n (group_chosen p) rss c0 s c f l =
      redraw_lem rss (choose (group_chosen p) (in_all rss) c0) (set_group u p s) c.kept
        (set_group-Follows u (in_all rss) p c0 s f)
  event-IsCurrent n (filter_chosen p v) rss c0 s c f l =
      redraw_lem rss (choose (filter_chosen p v) (in_all rss) c0) (set_filter u p v s) c.kept
        (set_filter-Follows u (in_all rss) p v c0 s f)

  in_all-arrives :
      (rss : List (List TenantReport)) (e : Event)
      → in_all rss ++ reports_of e ≡ in_all (rss ++ arrives e)
  in_all-arrives rss (report_arrives rs) = sym (in_all-append rss rs)
  in_all-arrives rss (group_chosen p) =
      append-empty (in_all rss) ∙ ap in_all (sym (append-empty rss))
  in_all-arrives rss (filter_chosen p v) =
      append-empty (in_all rss) ∙ ap in_all (sym (append-empty rss))

  run-IsCurrent :
      (n : ℕ) (es : List Event) (rss : List (List TenantReport)) (c0 : Choice) (s : Recent u)
      → IsCurrent u sort rss s
      → Follows u (in_all rss) c0 s
      → length rss + length (arrived es) ≤ n
      → (t : Recent u) × (run n es s ≡ some t)
        × IsCurrent u sort (rss ++ arrived es) t
        × (t.groupby ≡ (chosen_after es (in_all rss) c0).group_of)
        × (t.filters ≡ (chosen_after es (in_all rss) c0).filters)
  run-IsCurrent n [] rss c0 s c f l =
      (s, refl, subst (λ z. IsCurrent u sort z s) (sym (append-empty rss)) c, f.groups, f.filtered)
  run-IsCurrent n (e ∷ es) rss c0 s c f l =
      let (s1, e1, c1, f1) =
        event-IsCurrent n e rss c0 s c f (ground (arith, length-append (arrives e) (arrived es))) in
      let next = choose e (in_all rss) c0 in
      let same = in_all-arrives rss e in
      let (t, e2, c2, g2, h2) =
        run-IsCurrent n es (rss ++ arrives e) next s1 c1 (subst (λ z. Follows u z next s1) same f1)
          (ground (arith, length-append rss (arrives e), length-append (arrives e) (arrived es))) in
      (
        t,
        ap (λ o. o >>= run n es) e1 ∙ e2,
        subst (λ z. IsCurrent u sort z t) (append-append rss (arrives e) (arrived es)) c2,
        g2 ∙ ap (λ z. (chosen_after es z next).group_of) (sym same),
        h2 ∙ ap (λ z. (chosen_after es z next).filters) (sym same),
      )

  EachLasts-chart :
      (c : Choice) (y : TenantReport → u.Carrier) (rs : List TenantReport)
      → EachTakesTime rs
      → EachLasts u (config_for u c y) rs
  EachLasts-chart c y [] l = tt
  EachLasts-chart c y (r ∷ rs) l = (l.0, EachLasts-chart c y rs l.1)

  -- The settings that the page makes are those of the choice.
  chart_config-choice :
      (c : Choice) (t : Recent u) (y : TenantReport → u.Carrier)
      → t.groupby ≡ c.group_of
      → t.filters ≡ c.filters
      → chart_config u t y ≡ config_for u c y
  unfolding chart_config
  chart_config-choice c t y g f =
      ap₂ (λ group filters. config_for u (record { group_of = group; filters = filters }) y) g f

  module _ (keeps : (k : String) (ids : List String) → contains k (sort ids) ≡ contains k ids) where
    EachShows-all :
        (c : Choice) (t : Recent u) (rs : List TenantReport) (ys : List (TenantReport → u.Carrier))
        → t.groupby ≡ c.group_of
        → t.filters ≡ c.filters
        → EachTakesTime rs
        → EachShows c rs ys
            (all_collect u sort rs (map (λ y. new_data_set u (chart_config u t y)) ys))
    EachShows-all c t rs [] g f l = tt
    EachShows-all c t rs (y ∷ ys) g f l =
        let rest = all_collect u sort rs (map (λ z. new_data_set u (chart_config u t z)) ys) in
        subst
          (λ z. EachShows c rs (y ∷ ys) (some (collect_all u sort rs (new_data_set u z)) ∷ rest))
          (sym (chart_config-choice c t y g f))
          (let (sound, listed, totals, sums) =
              collect_all_lem u sort rs (config_for u c y) refl (EachLasts-chart c y rs l) keeps in
            (listed, sums, EachShows-all c t rs ys g f l))

  -- After the page has been refreshed at first, let reports arrive, each with a list of tenant reports
  -- that begin before they end, not more than are kept, and let groups and filters be chosen in between,
  -- where sorting keeps what it sorts. No step fails, all reports are kept, and every chart lists the series
  -- that it has, and shows, as each of them and at each time, the sum of the values of the reports of that
  -- group and time that pass the filters: the group is by the property that was chosen last, if there is
  -- such a property, and there is a filter for each property for which the value that was chosen last was
  -- one of the reports that had arrived by then.
  pub session_lem :
      (n : ℕ) (es : List Event)
      → length (arrived es) ≤ n
      → EachTakesTime (in_all (arrived es))
      → ((k : String) (ids : List String) → contains k (sort ids) ≡ contains k ids)
      → (t : Recent u) × ((refresh u sort (new_recent u) >>= run n es) ≡ some t)
        × (t.reports ≡ map (λ rs. some rs) (arrived es))
        × EachShows (choice es) (in_all (arrived es)) (charts u) t.datasets
  session_lem n es l b keeps =
      let (s, e, c, same) = refresh-IsCurrent u sort [] (new_recent u) refl in
      let follows =
        arrive-Follows u [] [] no_choice (new_recent u) s (new_recent-Follows u) same.groupby
          same.filters same.properties in
      let (t, f, d, g, h) = run-IsCurrent n es [] no_choice s c follows (omega (arith, l)) in
      (
        t,
        ap (λ o. o >>= run n es) e ∙ f,
        d.kept,
        subst (EachShows (choice es) (in_all (arrived es)) (charts u)) (sym d.collected)
            (EachShows-all keeps (choice es) t (in_all (arrived es)) (charts u) g h b),
      )
