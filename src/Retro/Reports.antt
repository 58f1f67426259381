-- ===== src/Retro/Reports.antt =====
-- The reports of resource usage, `ResourceReport` and `TenantReport`. The times stay in milliseconds:
-- what the code divides by 1000 here it multiplies by 1000 in `reportextent`.
use Prim.Native.String
use tracing_framework.Prelude.{ℕ, String, List, [], ◌∷◌, ◌==◌, if◌then◌else◌}

pub record TenantJson : Type 0 where
  pub tenant_class : String
  pub operation : String
  pub num_finished : ℕ
  pub total_latency : ℕ
  pub total_work : ℕ

pub record ResourceJson : Type 0 where
  pub start : ℕ
  pub end : ℕ
  pub resource : String
  pub resource_id : String
  pub machine : String
  pub process_name : String
  pub process_id : String
  pub tenant_reports : List TenantJson

pub record TenantReport : Type 0 where
  pub start : ℕ
  pub end : ℕ
  pub type : String
  pub host : String
  pub resourcetype : String
  pub resourceid : String
  pub process : String
  pub processid : String
  pub processname : String
  pub tenant : String
  pub operation : String
  pub count : ℕ
  pub duration : ℕ
  pub consumption : ℕ

-- `a+" ("+b+")"`
abbrev pub with_brackets : String → String → String
with_brackets a b = String.◌++◌ a (String.◌++◌ " (" (String.◌++◌ b ")"))

unfoldable pub tenant_report : ResourceJson → TenantJson → TenantReport
tenant_report resource json = record {
  start = resource.start;
  end = resource.end;
  type = resource.resource;
  host = resource.machine;
  resourcetype =
      if resource.resource_id == ""
      then resource.resource
      else with_brackets resource.resource resource.resource_id;
  resourceid = resource.resource_id;
  process = with_brackets resource.process_name resource.process_id;
  processid = resource.process_id;
  processname = resource.process_name;
  tenant = json.tenant_class;
  operation = json.operation;
  count = json.num_finished;
  duration = json.total_latency;
  consumption = json.total_work;
}

unfoldable pub tenant_reports_of : ResourceJson → List TenantJson → List TenantReport
tenant_reports_of resource [] = []
tenant_reports_of resource (json ∷ jsons) =
    tenant_report resource json ∷ tenant_reports_of resource jsons

-- `new ResourceReport(json).tenantreports`
unfoldable pub resource_report : ResourceJson → List TenantReport
resource_report json = tenant_reports_of json json.tenant_reports
