-- ===== src/Retro/Sums.antt =====
-- `collect` adds up what the reports have.
use tracing_framework.Prelude.{
  ℕ, ◌<◌, String, none, List, [], ◌∷◌, ◌++◌, true, false, ◌&&◌, ◌==◌, if◌then◌else◌, ltb, leb, ◌≡◌,
  ◌∙◌, refl, arith, eq_iff, eq_refl, Bool-cases, Option-cases, inl, inr, subst, ap, sym,
}
use tracing_framework.Prelude.KeySet.{contains, contains-append}
use tracing_framework.Prelude.Dict.{has, get, put, get-put}
use tracing_framework.Retro.Amount.{Amount}
use tracing_framework.Retro.Series.{new_series, add_data}
use tracing_framework.Retro.Steps.{usage_at, usage_from, IsSound}
use tracing_framework.Retro.Reports.{TenantReport}
use tracing_framework.Retro.DataSet.{
  Config, DataSet, new_data_set, accepts_all, add_report, collect_new, collect, collect_all,
}
use tracing_framework.Retro.Collect.{
  accepts_all-passes, usage_of, counts_at, sum_at, series_sum_at, AllSound, new_series-IsSound,
  Adds, add_report-Adds,
}

module _ (u : Amount) where
  -- A step of `collect`: it adds the report when it is accepted with a value.
  record Steps (d e : DataSet u) (r : TenantReport) : Type 0 where
    config : e.config ≡ d.config
    sound : AllSound u e
    total :
        (x : ℕ)
        → usage_at u x e.total ≡ (
            if counts_at u d.config r x
            then u.plus (usage_at u x d.total) (d.config.y r)
            else usage_at u x d.total)
    each :
        (k : String) (x : ℕ)
        → usage_of u e k x ≡ (
            if counts_at u d.config r x && d.config.seriesid r == k
            then u.plus (usage_of u d k x) (d.config.y r)
            else usage_of u d k x)

  Adds-Steps :
      (d d1 e e' : DataSet u) (r : TenantReport)
      → d1.config ≡ d.config
      → d1.total ≡ d.total
      → ((k : String) (x : ℕ) → usage_of u d1 k x ≡ usage_of u d k x)
      → accepts_all u d.config.accepts r ≡ true
      → u.is_zero (d.config.y r) ≡ false
      → Adds u d1 e
          (λ x. leb (d.config.reportextent r).0 x && ltb x (d.config.reportextent r).1)
          (d.config.seriesid r)
          (d.config.y r)
      → e ≡ e'
      → Steps d e' r
  unfolding counts_at
  Adds-Steps d d1 e e' r c t same h z a p =
      subst (λ e. Steps d e r) p
        record {
          config = ground (arith, a.config, c);
          sound = a.sound;
          total = λ x.
              ground
                (arith, a.total x, ap (usage_at u x) t, accepts_all-passes u d.config.accepts r);
          each =
              λ k x. ground (arith, a.each k x, same k x, accepts_all-passes u d.config.accepts r);
        }

  idle-Steps :
      (d e : DataSet u) (r : TenantReport)
      → AllSound u d
      → ((x : ℕ) → counts_at u d.config r x ≡ false)
      → d ≡ e
      → Steps d e r
  idle-Steps d e r v h p =
      subst (λ e. Steps d e r) p
        record {
          config = refl;
          sound = v;
          total = λ x. ground (arith, h x);
          each = λ k x. ground (arith, h x);
        }

  -- The data set with a new series.
  abbrev fresh : String → List String → DataSet u → DataSet u
  fresh id list d = record d { serieslist = list; seriesmap = put id (new_series u) d.seriesmap }

  fresh-AllSound :
      (id : String) (list : List String) (d : DataSet u)
      → AllSound u d
      → AllSound u (fresh id list d)
  fresh-AllSound id list d v = record {
    total = v.total;
    each = λ k z e. elim (Bool-cases (id == k)) [
      | inl h ↦
          subst (IsSound u) (ground (arith, get-put id k (new_series u) d.seriesmap))
            (new_series-IsSound u)
      | inr h ↦ v.each k z (ground (arith, get-put id k (new_series u) d.seriesmap))
    ];
  }

  fresh-usage :
      (id : String) (list : List String) (d : DataSet u)
      → get d.seriesmap id ≡ none
      → (k : String) (x : ℕ) → usage_of u (fresh id list d) k x ≡ usage_of u d k x
  unfolding usage_of usage_at usage_from
  fresh-usage id list d e k x =
      ground (arith, get-put id k (new_series u) d.seriesmap, eq_iff id k, e)

  -- Every report that is collected lasts for some time.
  abbrev pub EachLasts : Config u → List TenantReport → Type 0
  EachLasts c [] = Unit
  EachLasts c (r ∷ rs) = ((c.reportextent r).0 < (c.reportextent r).1) × EachLasts c rs

  module _ (sort : List String → List String) where
    collect-Steps :
        (r : TenantReport) (d : DataSet u)
        → AllSound u d
        → d.config.showbackground ≡ true
        → (d.config.reportextent r).0 < (d.config.reportextent r).1
        → Steps d (collect u sort r d).0 r
    unfolding collect collect_new counts_at usage_of usage_at usage_from
    collect-Steps r d v b l = elim (Bool-cases (accepts_all u d.config.accepts r)) [
      | inr n ↦
          idle-Steps d (collect u sort r d).0 r v
            (λ x. ground (arith, accepts_all-passes u d.config.accepts r)) (ground arith)
      | inl h ↦ elim (Bool-cases (u.is_zero (d.config.y r))) [
        | inl z ↦
            idle-Steps d (collect u sort r d).0 r v
              (λ x. ground (arith, accepts_all-passes u d.config.accepts r)) (ground arith)
        | inr z ↦ elim (Option-cases (get d.seriesmap (d.config.seriesid r))) [
          | inr (s, e) ↦
              Adds-Steps d d (add_report u r (d.config.seriesid r) s d) (collect u sort r d).0 r
                refl refl (λ k x. refl) h z
                (add_report-Adds u r (d.config.seriesid r) s d v (v.each (d.config.seriesid r) s e)
                  (λ x. ground (arith, e)) l)
                (ground arith)
          | inl e ↦
              (let id = d.config.seriesid r in
                let list =
                  if d.config.seriesname r == "Background"
                  then sort (d.serieslist ++ id ∷ [])
                  else sort (id ∷ d.serieslist) in
                let d1 = fresh id list d in
                Adds-Steps d d1 (add_report u r id (new_series u) d1) (collect u sort r d).0 r refl
                  refl (λ k x. fresh-usage id list d e k x) h z
                  (add_report-Adds u r id (new_series u) d1 (fresh-AllSound id list d v)
                    (new_series-IsSound u)
                    (λ x. ground (arith, get-put id id (new_series u) d.seriesmap, eq_refl id)) l)
                  (ground (arith, e, b)))
        ]
      ]
    ]

    -- The series that are listed, and so drawn, are those in the map.
    abbrev pub IsListed : DataSet u → Type 0
    IsListed d = (k : String) → contains k d.serieslist ≡ has d.seriesmap k

    module _
        (keeps : (k : String) (ids : List String) → contains k (sort ids) ≡ contains k ids) where
      collect-IsListed :
          (r : TenantReport) (d : DataSet u)
          → d.config.showbackground ≡ true
          → IsListed d
          → IsListed (collect u sort r d).0
      unfolding collect collect_new add_report contains
      collect-IsListed r d b l k =
          let id = d.config.seriesid r in
          let from = (d.config.reportextent r).0 in
          let to = (d.config.reportextent r).1 in
          let made = put id (new_series u) d.seriesmap in
          elim (Option-cases (get d.seriesmap id)) [
            | inr (s, e) ↦ ground (
              arith,
              e,
              l k,
              get-put id k (add_data u from to (d.config.y r) s) d.seriesmap,
              eq_iff id k,
            )
            | inl e ↦ ground (
              arith,
              e,
              b,
              l k,
              keeps k (d.serieslist ++ id ∷ []),
              keeps k (id ∷ d.serieslist),
              contains-append k d.serieslist (id ∷ []),
              get-put id k (new_series u) d.seriesmap,
              get-put id k (add_data u from to (d.config.y r) (new_series u)) made,
              eq_iff id k,
            )
          ]

      collect-showbackground :
          (r : TenantReport) (d : DataSet u) → (collect u sort r d).0.config ≡ d.config
      unfolding collect collect_new add_report
      collect-showbackground r d = elim (Option-cases (get d.seriesmap (d.config.seriesid r))) [
        | inr (s, e) ↦ ground (arith, e)
        | inl e ↦ ground (arith, e)
      ]

      collect_all-IsListed :
          (rs : List TenantReport) (d : DataSet u)
          → d.config.showbackground ≡ true
          → IsListed d
          → IsListed (collect_all u sort rs d)
      unfolding collect_all
      collect_all-IsListed [] d b l = l
      collect_all-IsListed (r ∷ rs) d b l =
          collect_all-IsListed rs (collect u sort r d).0
            (ap (λ c. c.showbackground) (collect-showbackground r d) ∙ b) (collect-IsListed r d b l)

    collect_all-sums :
        (rs : List TenantReport) (d : DataSet u)
        → AllSound u d
        → d.config.showbackground ≡ true
        → EachLasts d.config rs
        → AllSound u (collect_all u sort rs d)
          × ((x : ℕ)
              → usage_at u x (collect_all u sort rs d).total
                ≡ sum_at u d.config (usage_at u x d.total) rs x)
          × ((k : String) (x : ℕ)
              → usage_of u (collect_all u sort rs d) k x
                ≡ series_sum_at u d.config k (usage_of u d k x) rs x)
    unfolding collect_all sum_at series_sum_at
    collect_all-sums [] d v b l = (v, λ x. refl, λ k x. refl)
    collect_all-sums (r ∷ rs) d v b l =
        let s = collect-Steps r d v b l.0 in
        let e = (collect u sort r d).0 in
        let (v', t, k) =
          collect_all-sums rs e s.sound (ap (λ c. c.showbackground) s.config ∙ b)
            (subst (λ c. EachLasts c rs) (sym s.config) l.1) in
        (
          v',
          λ x.
              t x
              ∙ ap (λ c. sum_at u c (usage_at u x e.total) rs x) s.config
              ∙ ap (λ z. sum_at u d.config z rs x) (s.total x),
          λ j x.
              k j x
              ∙ ap (λ c. series_sum_at u c j (usage_of u e j x) rs x) s.config
              ∙ ap (λ z. series_sum_at u d.config j z rs x) (s.each j x),
        )

    -- Where the background is shown, every report lasts for some time and sorting keeps what it sorts: a
    -- data set that has collected reports shows at each time, as the total and as each series, the sum of
    -- the values of the reports of that time, and of that series, that pass all filters. It lists exactly the
    -- series that it has, and every series has its times in order.
    pub collect_all_lem :
        (rs : List TenantReport) (c : Config u)
        → c.showbackground ≡ true
        → EachLasts c rs
        → ((k : String) (ids : List String) → contains k (sort ids) ≡ contains k ids)
        → AllSound u (collect_all u sort rs (new_data_set u c))
          × IsListed (collect_all u sort rs (new_data_set u c))
          × ((x : ℕ)
              → usage_at u x (collect_all u sort rs (new_data_set u c)).total
                ≡ sum_at u c u.nothing rs x)
          × ((k : String) (x : ℕ)
              → usage_of u (collect_all u sort rs (new_data_set u c)) k x
                ≡ series_sum_at u c k u.nothing rs x)
    unfolding usage_at usage_of usage_from get contains
    collect_all_lem rs c b l keeps =
        let (sound, totals, sums) =
          collect_all-sums rs (new_data_set u c)
            record { total = (new_series-IsSound u); each = λ k s e. absurd (ground arith) } b l in
        (sound, collect_all-IsListed keeps rs (new_data_set u c) b (λ k. refl), totals, sums)
