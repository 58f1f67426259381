-- ===== src/Retro/Collect.antt =====
-- What a data set has collected.
use tracing_framework.Prelude.{
  true, ℕ, ◌<◌, String, none, some, List, [], ◌∷◌, Bool, not, ◌&&◌, ◌==◌, if◌then◌else◌, ltb, leb,
  ◌≡◌, refl, arith, eq_iff, Bool-cases, inl, inr, subst,
}
use tracing_framework.Prelude.Dict.{get, get-put}
use tracing_framework.Retro.Amount.{Amount}
use tracing_framework.Retro.Series.{Series, new_series, add_data}
use tracing_framework.Retro.Steps.{usage_at, IsSound, add_data_lem}
use tracing_framework.Retro.Reports.{TenantReport}
use tracing_framework.Retro.DataSet.{Config, DataSet, accepts_all, add_report}

module _ (u : Amount) where
  -- The usage of one series at a time, nothing where there is no such series.
  unfoldable pub usage_of : DataSet u → String → ℕ → u.Carrier
  usage_of d id x = elim (get d.seriesmap id) [ none ↦ u.nothing | some s ↦ usage_at u x s ]

  -- Whether a report passes all filters.
  abbrev pub passes : List (TenantReport → Bool) → TenantReport → Bool
  passes [] r = true
  passes (f ∷ fs) r = f r && passes fs r

  pub accepts_all-passes :
      (fs : List (TenantReport → Bool)) (r : TenantReport) → accepts_all u fs r ≡ passes fs r
  unfolding accepts_all
  accepts_all-passes [] r = refl
  accepts_all-passes (f ∷ fs) r = ground (arith, accepts_all-passes fs r)

  -- Whether a report counts at a time: it is accepted, its value is not 0, and its extent has the time.
  unfoldable pub counts_at : Config u → TenantReport → ℕ → Bool
  counts_at c r x =
      passes c.accepts r
      && not (u.is_zero (c.y r))
      && leb (c.reportextent r).0 x
      && ltb x (c.reportextent r).1

  -- The sum of the values of the reports that count, from the first on.
  unfoldable pub sum_at : Config u → u.Carrier → List TenantReport → ℕ → u.Carrier
  sum_at c acc [] x = acc
  sum_at c acc (r ∷ rs) x = sum_at c (if counts_at c r x then u.plus acc (c.y r) else acc) rs x

  -- The sum of those of one series.
  unfoldable pub series_sum_at : Config u → String → u.Carrier → List TenantReport → ℕ → u.Carrier
  series_sum_at c id acc [] x = acc
  series_sum_at c id acc (r ∷ rs) x =
      series_sum_at c id (if counts_at c r x && c.seriesid r == id then u.plus acc (c.y r) else acc)
        rs x

  pub record AllSound (d : DataSet u) : Type 0 where
    pub total : IsSound u d.total
    pub each : (id : String) (s : Series u) → get d.seriesmap id ≡ some s → IsSound u s

  pub new_series-IsSound : IsSound u (new_series u)
  new_series-IsSound = record { ascends = tt; mapped = λ t. refl }

  -- The report `r` has been added to the series `id` at the times for which `b` holds.
  pub record Adds (d e : DataSet u) (b : ℕ → Bool) (id : String) (c : u.Carrier) : Type 0 where
    pub config : e.config ≡ d.config
    pub sound : AllSound e
    pub total :
        (x : ℕ)
        → usage_at u x e.total
          ≡ (if b x then u.plus (usage_at u x d.total) c else usage_at u x d.total)
    pub each :
        (k : String) (x : ℕ)
        → usage_of e k x ≡ (if b x && id == k then u.plus (usage_of d k x) c else usage_of d k x)

  pub add_report-Adds :
      (r : TenantReport) (id : String) (s : Series u) (d : DataSet u)
      → AllSound d
      → IsSound u s
      → ((x : ℕ) → usage_of d id x ≡ usage_at u x s)
      → (d.config.reportextent r).0 < (d.config.reportextent r).1
      → Adds d
          (add_report u r id s d)
          (λ x. leb (d.config.reportextent r).0 x && ltb x (d.config.reportextent r).1)
          id
          (d.config.y r)
  unfolding add_report usage_of
  add_report-Adds r id s d v i same l =
      let from = (d.config.reportextent r).0 in
      let to = (d.config.reportextent r).1 in
      let c = d.config.y r in
      let (vt, at) = add_data_lem u from to c d.total v.total l in
      let (vs, as') = add_data_lem u from to c s i l in
      record {
        config = refl;
        sound = record {
          total = vt;
          each = λ k z e. elim (Bool-cases (id == k)) [
            | inl h ↦
                subst (IsSound u)
                  (ground (arith, get-put id k (add_data u from to c s) d.seriesmap)) vs
            | inr h ↦ v.each k z (ground (arith, get-put id k (add_data u from to c s) d.seriesmap))
          ];
        };
        total = at;
        each = λ k x.
            ground (
              arith,
              get-put id k (add_data u from to c s) d.seriesmap,
              as' x,
              same x,
              eq_iff id k,
            );
      }
