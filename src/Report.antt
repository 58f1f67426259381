-- ===== src/Report.antt =====
-- X-Trace reports: the JSON objects that the server sends and that the web pages work on. A field is
-- `none` where the object lacks it; the fields that no modelled code reads are left out.
use tracing_framework.Prelude.{String, Option, none, some, List, ◌==◌, Bool, false, ℕ}

pub record Report : Type 0 where
  pub event_id : Option String
  pub parent_event_id : Option (List String)
  pub operation : Option String
  pub agent : Option String
  pub process_id : Option String
  pub source : Option String
  pub timestamp : ℕ

-- An absent field used as a property name is the text of `undefined`.
abbrev pub as_key : Option String → String
as_key none = "undefined"
as_key (some k) = k

-- `report[field] && report[field] == value`, for a text `value` that is not empty
abbrev pub field_is : Option String → String → Bool
field_is none v = false
field_is (some w) v = w == v

abbrev pub is_merge : Report → Bool
is_merge r = field_is r.operation "merge"
