-- ===== src/Fetch/Once.antt =====
-- `callback` is called once, when both chains are done.
use tracing_framework.Prelude.{
  String, List, [], ◌∷◌, false, if◌then◌else◌, ◌≡◌, refl, arith, ◌&&◌, is_some, not, inl, inr,
  List-cases,
}
use tracing_framework.Fetch.Defs.{
  Trace, Fetch, call_if, batch_callback, json_batch_callback, no_request, get_reports, Step,
  batch_answer, json_answer, Run, stop, next,
}

module _ {A : Type 0} where
  -- A chain waits for an answer until it is done.
  pub record IsSound (s : Fetch A) : Type 0 where
    pub batch : s.batchdone ≡ not (is_some s.batch_request)
    pub json : s.jsondone ≡ not (is_some s.json_request)
    pub calls : s.calls ≡ (if s.batchdone && s.jsondone then s.results ∷ [] else [])

  batch_callback-IsSound :
      (s : Fetch A) (json : List (Trace A))
      → s.batchdone ≡ false
      → s.jsondone ≡ not (is_some s.json_request)
      → s.calls ≡ []
      → IsSound (batch_callback json s)
  unfolding batch_callback call_if
  batch_callback-IsSound s json b j c = elim (List-cases s.regular_ids) [
    | inl e ↦ record { batch = ground arith; json = ground arith; calls = ground arith }
    | inr (id, ids, e) ↦ record { batch = ground arith; json = ground arith; calls = ground arith }
  ]

  json_batch_callback-IsSound :
      (s : Fetch A) (json : List (Trace A))
      → s.jsondone ≡ false
      → s.batchdone ≡ not (is_some s.batch_request)
      → s.calls ≡ []
      → IsSound (json_batch_callback json s)
  unfolding json_batch_callback call_if
  json_batch_callback-IsSound s json j b c = elim (List-cases s.json_ids) [
    | inl e ↦ record { batch = ground arith; json = ground arith; calls = ground arith }
    | inr (id, ids, e) ↦ record { batch = ground arith; json = ground arith; calls = ground arith }
  ]

  pub get_reports-IsSound : (js rs : List String) → IsSound (get_reports js rs)
  unfolding get_reports batch_callback call_if
  get_reports-IsSound js [] =
      json_batch_callback-IsSound (batch_callback [] (no_request js [])) [] refl refl refl
  get_reports-IsSound js (r ∷ rs) =
      json_batch_callback-IsSound (batch_callback [] (no_request js (r ∷ rs))) [] refl refl refl

  pub Step-IsSound : {s t : Fetch A} → IsSound s → Step s t → IsSound t
  Step-IsSound i (batch_answer {s} ids json e) =
      batch_callback-IsSound s json (ground (arith, i.batch)) i.json
        (ground (arith, i.batch, i.calls))
  Step-IsSound i (json_answer {s} id json e) =
      json_batch_callback-IsSound s json (ground (arith, i.json)) i.batch
        (ground (arith, i.json, i.calls))

  Run-IsSound : {s t : Fetch A} → IsSound s → Run s t → IsSound t
  Run-IsSound i stop = i
  Run-IsSound i (next r x) = Step-IsSound (Run-IsSound i r) x

  -- In whatever order the answers come, getReports has not called back while a request waits for its
  -- answer, and has called back once, with the results of both chains, when no request waits.
  pub get_reports_lem :
      (js rs : List String) (t : Fetch A)
      → Run (get_reports js rs) t
      → t.calls ≡ (
          if is_some t.batch_request
          then []
          else (if is_some t.json_request then [] else t.results ∷ []))
  get_reports_lem js rs t r =
      let i = Run-IsSound (get_reports-IsSound js rs) r in ground (arith, i.batch, i.json, i.calls)
