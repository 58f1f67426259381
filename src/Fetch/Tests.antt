-- ===== src/Fetch/Tests.antt =====
-- Runs on one file and one id, the answer to the id first.
use tracing_framework.Prelude.{some, none, String, [], ◌∷◌, ◌≡◌, refl, List}
use tracing_framework.Fetch.Defs.{
  Trace, named, Fetch, take, drop, batch_callback, json_batch_callback, call_if, get_reports,
}
use tracing_framework.Fetch.Live.{Inevitable, IsFinished, get_reports-Inevitable}

abbrev trace : String → Trace String
trace body = record { trace_id = none; body = body }

abbrev start : Fetch String
start = get_reports ("a.json" ∷ []) ("t" ∷ [])

abbrev halfway : Fetch String
halfway = batch_callback (trace "t" ∷ []) start

abbrev end : Fetch String
end = json_batch_callback (trace "a" ∷ []) halfway

end_run : end.calls ≡ (trace "t" ∷ record { trace_id = some "a.json"; body = "a" } ∷ []) ∷ []
unfolding get_reports batch_callback json_batch_callback call_if take drop named
end_run = refl

abbrev two : List String
two = "t" ∷ "a.json" ∷ []

get_reports-Inevitable_example : Inevitable IsFinished start
get_reports-Inevitable_example = get_reports-Inevitable ("a.json" ∷ []) ("t" ∷ [])
