-- ===== src/Retro/DataSet.antt =====
-- `DataSet`: series by their ids, and their total. The list of series holds their ids, and the map is
-- the store of the series objects.
use tracing_framework.Prelude.{
  ℕ, String, Option, none, some, List, [], ◌∷◌, ◌++◌, Bool, true, false, ◌==◌, if◌then◌else◌,
}
use tracing_framework.Prelude.Dict.{Dict, get, put, del}
use tracing_framework.Retro.Amount.{Amount}
use tracing_framework.Retro.Series.{Series, new_series, add_data, prune}
use tracing_framework.Retro.Reports.{TenantReport}

module _ (u : Amount) where
  -- What the setters of a data set set.
  pub record Config : Type 0 where
    pub accepts : List (TenantReport → Bool)
    pub seriesid : TenantReport → String
    pub seriesname : TenantReport → String
    pub y : TenantReport → u.Carrier
    pub showtotal : Bool
    pub showbackground : Bool
    pub reportextent : TenantReport → ℕ × ℕ

  pub record DataSet : Type 0 where
    pub config : Config
    pub total : Series u
    pub serieslist : List String
    pub seriesmap : Dict (Series u)

  abbrev pub new_data_set : Config → DataSet
  new_data_set config = record {
    config = config;
    total = new_series u;
    serieslist = [];
    seriesmap = [];
  }

  unfoldable pub accepts_all : List (TenantReport → Bool) → TenantReport → Bool
  accepts_all [] r = true
  accepts_all (f ∷ fs) r = let rest = accepts_all fs r in if f r then rest else false

  -- `series.addData(...); total.addData(...)`
  unfoldable pub add_report : TenantReport → String → Series u → DataSet → DataSet
  add_report r id s d =
      let (from, to) = d.config.reportextent r in
      let c = d.config.y r in
      record d {
        total = add_data u from to c d.total;
        seriesmap = put id (add_data u from to c s) d.seriesmap;
      }

  -- `serieslist.sort(...)` orders by the numbers that the ids are the texts of; JavaScript leaves the
  -- order open where an id is no number.
  module _ (sort : List String → List String) where
    -- A report of a series that is not there yet.
    unfoldable pub collect_new : TenantReport → String → DataSet → DataSet × Option Bool
    collect_new r id d =
        let d1 = record d { seriesmap = put id (new_series u) d.seriesmap } in
        if d.config.seriesname r == "Background"
        then (if d.config.showbackground
            then (
              add_report r id (new_series u)
                  (record d1 { serieslist = sort (d.serieslist ++ id ∷ []) }),
              some true,
            )
            else (d1, some false))
        else (
          add_report r id (new_series u) (record d1 { serieslist = sort (id ∷ d.serieslist) }),
          some true,
        )

    -- `collect`, and what it returns: `none` for `undefined`.
    unfoldable pub collect : TenantReport → DataSet → DataSet × Option Bool
    collect r d =
        if accepts_all d.config.accepts r
        then (if u.is_zero (d.config.y r)
            then (d, none)
            else (let id = d.config.seriesid r in
                elim (get d.seriesmap id) [
                  | none ↦ collect_new r id d
                  | some s ↦ (add_report r id s d, some true)
                ]))
        else (d, some false)

    unfoldable pub collect_all : List TenantReport → DataSet → DataSet
    collect_all [] d = d
    collect_all (r ∷ rs) d = collect_all rs (collect r d).0

  -- The loop of `prune` over the list of series.
  unfoldable pub prune_list : ℕ → List String → Dict (Series u) → List String × Dict (Series u)
  prune_list m [] map = ([], map)
  prune_list m (id ∷ ids) map = elim (get map id) [
    | none ↦ (let rest = prune_list m ids map in (id ∷ rest.0, rest.1))
    | some s ↦ elim (prune u m s).1 [
      | true ↦ prune_list m ids (del id map)
      | false ↦ (let rest = prune_list m ids (put id (prune u m s).0 map) in (id ∷ rest.0, rest.1))
    ]
  ]

  unfoldable pub prune_data_set : ℕ → DataSet → DataSet
  prune_data_set m d =
      let left = prune_list m d.serieslist d.seriesmap in
      record d { serieslist = left.0; seriesmap = left.1; total = (prune u m d.total).0 }
