-- ===== src/Retro/Tests.antt =====
-- Concrete series and data sets.
use tracing_framework.Prelude.{
  ◌>>=◌, ◌≤◌, ℕ, ◌+◌, List, [], ◌∷◌, true, ◌≡◌, refl, arith, if◌then◌else◌, ltb, leb, ◌&&◌, String,
  some,
}
use tracing_framework.Prelude.Dict.{get, put}
use tracing_framework.Retro.Recent.{Recent, new_recent, refresh, charts}
use tracing_framework.Retro.Current.{in_all}
use tracing_framework.Retro.Session.{
  Event, report_arrives, group_chosen, filter_chosen, arrived, choice, run, EachShows, session_lem,
}
use tracing_framework.Retro.Amount.{counts}
use tracing_framework.Retro.Series.{
  Series, add_data, prune, has_time, add_point, insert, place, add_between, add_until,
}
use tracing_framework.Retro.Steps.{IsSound, usage_at, add_data_lem, usage_from}
use tracing_framework.Retro.Prune.{prune_lem}
use tracing_framework.Retro.Reports.{
  TenantReport, resource_report, tenant_report, tenant_reports_of,
}
use tracing_framework.Retro.DataSet.{
  Config, new_data_set, collect_all, collect, collect_new, accepts_all, add_report,
}
use tracing_framework.Retro.Collect.{AllSound, usage_of, sum_at, series_sum_at}
use tracing_framework.Retro.Sums.{IsListed, collect_all_lem}

abbrev busy : Series counts
busy = record {
  elements = record { time = 2; usage = 5 } ∷ record { time = 6; usage = 0 } ∷ [];
  elementsmap = 2 ∷ 6 ∷ [];
}

busy-IsSound : IsSound counts busy
busy-IsSound = record { ascends = (omega arith, (omega arith, tt)); mapped = λ t. refl }

add_data_lem_example :
    IsSound counts (add_data counts 4 8 3 busy)
    × ((x : ℕ)
        → usage_at counts x (add_data counts 4 8 3 busy)
          ≡ (if leb 4 x && ltb x 8 then usage_at counts x busy + 3 else usage_at counts x busy))
add_data_lem_example = add_data_lem counts 4 8 3 busy busy-IsSound (omega arith)

busier : usage_at counts 5 (add_data counts 4 8 3 busy) ≡ 8
unfolding usage_at usage_from add_data add_point insert place add_between add_until has_time
busier = refl

prune_lem_example :
    IsSound counts (prune counts 7 busy).0
    × ((x : ℕ) → 7 ≤ x → usage_at counts x (prune counts 7 busy).0 ≡ usage_at counts x busy)
prune_lem_example = prune_lem counts 7 busy busy-IsSound

-- Two operations of the first tenant, and one of the second.
abbrev reports : List TenantReport
reports = resource_report record {
  start = 1;
  end = 3;
  resource = "disk";
  resource_id = "";
  machine = "host";
  process_name = "DataNode";
  process_id = "7";
  tenant_reports =
      record {
        tenant_class = "1";
        operation = "read";
        num_finished = 2;
        total_latency = 9;
        total_work = 40;
      }
      ∷ record {
        tenant_class = "2";
        operation = "read";
        num_finished = 1;
        total_latency = 4;
        total_work = 30;
      }
      ∷ record {
        tenant_class = "1";
        operation = "write";
        num_finished = 1;
        total_latency = 4;
        total_work = 2;
      }
      ∷ [];
}

-- The series of the tenants, of all operations.
abbrev work : Config counts
work = record {
  accepts = [];
  seriesid = λ r. r.tenant;
  seriesname = λ r. r.tenant;
  y = λ r. r.consumption;
  showtotal = true;
  showbackground = true;
  reportextent = λ r. (r.start, r.end);
}

collected :
    usage_of counts (collect_all counts (λ ids. ids) reports (new_data_set counts work)) "1" 2 ≡ 42
unfolding collect_all collect collect_new accepts_all add_report usage_of resource_report
    tenant_report tenant_reports_of usage_at usage_from add_data add_point insert place add_between
    add_until has_time get put
collected = refl

collect_all_lem_example :
    AllSound counts (collect_all counts (λ ids. ids) reports (new_data_set counts work))
    × IsListed counts
        (λ ids. ids)
        (collect_all counts (λ ids. ids) reports (new_data_set counts work))
    × ((x : ℕ)
        → usage_at counts x
            (collect_all counts (λ ids. ids) reports (new_data_set counts work)).total
          ≡ sum_at counts work 0 reports x)
    × ((k : String) (x : ℕ)
        → usage_of counts (collect_all counts (λ ids. ids) reports (new_data_set counts work)) k x
          ≡ series_sum_at counts work k 0 reports x)
unfolding resource_report tenant_report tenant_reports_of
collect_all_lem_example =
    collect_all_lem counts (λ ids. ids) reports work refl
      (omega arith, (omega arith, (omega arith, tt))) (λ k ids. refl)

-- The reports arrive, the operations are taken as groups, and those of the first tenant are filtered.
abbrev session : List Event
session = report_arrives reports ∷ group_chosen "operation" ∷ filter_chosen "tenant" "1" ∷ []

session_lem_example :
    (t : Recent counts) × ((refresh counts (λ ids. ids) (new_recent counts)
        >>= run counts (λ ids. ids) 1000 session)
      ≡ some t)
    × (t.reports ≡ some reports ∷ [])
    × EachShows counts
        (λ ids. ids)
        (choice session)
        (in_all (arrived session))
        (charts counts)
        t.datasets
unfolding resource_report tenant_report tenant_reports_of
session_lem_example =
    session_lem counts (λ ids. ids) 1000 session (omega arith)
      (omega arith, (omega arith, (omega arith, tt))) (λ k ids. refl)
