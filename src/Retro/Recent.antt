-- ===== src/Retro/Recent.antt =====
-- `FilterDataSet` of FilterDataSet.js. A report without `tenantreports` is `none`. The callbacks
-- `refresh` and `property` draw the page.
use tracing_framework.Prelude.{
  ◌>>=◌, ℕ, zero, suc, ◌-◌, String, Option, none, some, List, [], ◌∷◌, ◌++◌, Bool, true, false,
  if◌then◌else◌, ◌==◌, length, ltb, map, get_or, ◌&&◌,
}
use tracing_framework.Prelude.KeySet.{KeySet, contains, add}
use tracing_framework.Prelude.Dict.{Dict, put, del, has, set_at}
use tracing_framework.Retro.Amount.{Amount}
use tracing_framework.Retro.Reports.{TenantReport}
use tracing_framework.Retro.DataSet.{Config, DataSet, new_data_set, collect}

-- `report[property]` for the fields that are texts, `undefined` for other names
unfoldable pub field : TenantReport → String → Option String
field r p =
    if p == "host"
    then some r.host
    else if p == "process"
    then some r.process
    else if p == "type"
    then some r.type
    else if p == "resourcetype"
    then some r.resourcetype
    else if p == "operation"
    then some r.operation
    else if p == "tenant"
    then some r.tenant
    else none

-- `"undefined"` where the text of a missing field is the key
abbrev pub field_text : String → TenantReport → String
field_text p r = get_or (field r p) "undefined"

unfoldable pub field_is : String → String → TenantReport → Bool
field_is p v r = elim (field r p) [ none ↦ false | some w ↦ w == v ]

-- `all`, the groups where no property is chosen
abbrev pub one_group : TenantReport → String
one_group r = "all"

-- What a new report adds to the observed values, property by property.
unfoldable pub observe : TenantReport → Dict KeySet → Dict KeySet
observe r [] = []
observe r ((p, vs) ∷ ps) = (p, add (field_text p r) vs) ∷ observe r ps

unfoldable pub drop_first : {A : Type 0} → ℕ → List A → List A
drop_first zero xs = xs
drop_first (suc k) [] = []
drop_first (suc k) (x ∷ xs) = drop_first k xs

-- `reports.splice(reports.length-n, n)`
unfoldable pub keep_last : ℕ → List (Option (List TenantReport)) → List (Option (List TenantReport))
keep_last n reports =
    if ltb n (length reports) then drop_first (length reports - n) reports else reports

-- `Object.values(d)`
unfoldable pub values : {A : Type 0} → Dict A → List A
values [] = []
values ((k, v) ∷ d) = v ∷ values d

module _ (u : Amount) where
  -- The lengths of the reports are in milliseconds.
  unfoldable pub per_second : ℕ → TenantReport → u.Carrier
  per_second n r =
      u.divide (u.of_count n) (u.divide (u.of_count (r.end - r.start)) (u.of_count 1000))

  -- `OPS`, `WPS`, `LPO` and `WPO`
  abbrev pub charts : List (TenantReport → u.Carrier)
  charts =
      (λ r. per_second r.count r)
      ∷ (λ r. per_second r.consumption r)
      ∷ (λ r. u.divide (u.divide (u.of_count r.duration) (u.of_count r.count)) (u.of_count 1000000))
      ∷ (λ r. u.divide (u.of_count r.consumption) (u.of_count r.count))
      ∷ []

  pub record Recent : Type 0 where
    pub properties : Dict KeySet
    pub reports : List (Option (List TenantReport))
    pub groupby : TenantReport → String
    pub filters : Dict (TenantReport → Bool)
    pub datasets : List (Option (DataSet u))

  abbrev pub new_recent : Recent
  new_recent = record {
    properties =
        ("host", [])
        ∷ ("process", [])
        ∷ ("type", [])
        ∷ ("resourcetype", [])
        ∷ ("operation", [])
        ∷ ("tenant", [])
        ∷ [];
    reports = [];
    groupby = one_group;
    filters = ("default", λ r. true) ∷ [];
    datasets = none ∷ none ∷ none ∷ none ∷ [];
  }

  -- The settings of the data set of a chart.
  unfoldable pub chart_config : Recent → (TenantReport → u.Carrier) → Config u
  chart_config s y = record {
    accepts = values s.filters;
    seriesid = s.groupby;
    seriesname = s.groupby;
    y = y;
    showtotal = false;
    showbackground = true;
    reportextent = λ r. (r.start, r.end);
  }

  abbrev pub set_group : String → Recent → Recent
  set_group property s = record s {
    groupby = if has s.properties property then field_text property else one_group;
  }

  abbrev pub set_filter : String → String → Recent → Recent
  set_filter property value s =
      let cleared = del property s.filters in
      record s {
        filters =
            if has s.properties property && contains value (set_at s.properties property)
            then put property (field_is property value) cleared
            else cleared;
      }

  -- The report is saved, and only the `n` last ones are kept.
  abbrev pub save : ℕ → Option (List TenantReport) → Recent → Recent
  save n report s = record s { reports = keep_last n (s.reports ++ report ∷ []) }

  module _ (sort : List String → List String) where
    -- `datasets[k].collect(report)` for every k; `none` is the TypeError of a data set that is not there
    unfoldable pub collect_in :
        TenantReport → List (Option (DataSet u)) → Option (List (Option (DataSet u)))
    collect_in r [] = some []
    collect_in r (none ∷ ds) = none
    collect_in r (some d ∷ ds) = do
      rest ← collect_in r ds
      some (some (collect u sort r d).0 ∷ rest)

    unfoldable pub collect_tenants :
        List TenantReport → List (Option (DataSet u)) → Option (List (Option (DataSet u)))
    collect_tenants [] ds = some ds
    collect_tenants (r ∷ rs) ds = do ds' ← collect_in r ds; collect_tenants rs ds'

    -- The loop of `refresh`, which reads the length of `tenantreports`.
    unfoldable pub collect_reports :
        List (Option (List TenantReport))
        → List (Option (DataSet u))
        → Option (List (Option (DataSet u)))
    collect_reports [] ds = some ds
    collect_reports (none ∷ reports) ds = none
    collect_reports (some rs ∷ reports) ds = do
      ds' ← collect_tenants rs ds
      collect_reports reports ds'

    unfoldable pub refresh : Recent → Option Recent
    refresh s = do
      ds ← collect_reports s.reports (map (λ y. some (new_data_set u (chart_config s y))) charts)
      some (record s { datasets = ds })

    unfoldable pub group : String → Recent → Option Recent
    group property s = refresh (set_group property s)

    unfoldable pub filter_by : String → String → Recent → Option Recent
    filter_by property value s = refresh (set_filter property value s)

    -- The loop of `collect` over the reports of the tenants.
    unfoldable pub take_tenants : List TenantReport → Recent → Option Recent
    take_tenants [] s = some s
    take_tenants (r ∷ rs) s = do
      ds ← collect_in r s.datasets
      take_tenants rs (record s { properties = observe r s.properties; datasets = ds })

    unfoldable pub receive : ℕ → Option (List TenantReport) → Recent → Option Recent
    receive n report s = do
      s' ← elim report [ none ↦ some s | some rs ↦ take_tenants rs s ]
      some (save n report s')
