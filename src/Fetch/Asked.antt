-- ===== src/Fetch/Asked.antt =====
-- What was requested, and what the answers held.
use tracing_framework.Prelude.{
  String, Option, none, some, List, [], ◌∷◌, ◌++◌, Bool, not, filter, has_text,
}
use tracing_framework.Fetch.Defs.{
  Trace, named, Fetch, get_reports, batch_answer, json_answer, Run, stop, next,
}

abbrev pub is_json : String → Bool
is_json id = has_text id ".json"

-- `getReports` from its loop over the ids on
unfoldable pub fetch_reports : {A : Type 0} → List String → Fetch A
fetch_reports ids = get_reports (filter is_json ids) (filter (λ id. not (is_json id)) ids)

-- The ids that a chain has requested and waits for, and those that it will request; a chain that waits
-- for nothing requests nothing more.
abbrev pub pending_batch : Option (List String) → List String → List String
pending_batch none ids = []
pending_batch (some asked) ids = asked ++ ids

abbrev pub pending_json : Option String → List String → List String
pending_json none ids = []
pending_json (some asked) ids = asked ∷ ids

module _ {A : Type 0} where
  -- The ids that the answers of a run are for, and what they hold, in the order of the answers. The id of a
  -- file is written into a single trace of its answer.
  unfoldable pub batch_ids : {s t : Fetch A} → Run s t → List String
  batch_ids stop = []
  batch_ids (next r (batch_answer ids json e)) = batch_ids r ++ ids
  batch_ids (next r (json_answer id json e)) = batch_ids r

  unfoldable pub file_ids : {s t : Fetch A} → Run s t → List String
  file_ids stop = []
  file_ids (next r (batch_answer ids json e)) = file_ids r
  file_ids (next r (json_answer id json e)) = file_ids r ++ id ∷ []

  unfoldable pub answers : {s t : Fetch A} → Run s t → List (Trace A)
  answers stop = []
  answers (next r (batch_answer ids json e)) = answers r ++ json
  answers (next r (json_answer id json e)) = answers r ++ named (some id) json

  abbrev pub batches : Fetch A → List String
  batches s = pending_batch s.batch_request s.regular_ids

  abbrev pub files : Fetch A → List String
  files s = pending_json s.json_request s.json_ids
