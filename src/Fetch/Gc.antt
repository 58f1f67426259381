-- ===== src/Fetch/Gc.antt =====
-- `getGCReports`: the tasks to fetch, and the garbage collections of the answers by their process.
use tracing_framework.Prelude.{
  String, none, some, List, [], ◌∷◌, ◌++◌, ◌||◌, if◌then◌else◌, ◌≡◌, ◌∙◌, arith, eq_iff, inl, inr,
  filter, ◌==◌, ◌&&◌, get_or, Option-cases, append-append, append-empty, sym, ap,
}
use tracing_framework.Prelude.KeySet.{contains}
use tracing_framework.Prelude.Dict.{Dict, get, put, get-put}
use tracing_framework.Report.{Report, as_key, field_is}

-- `tagdata`: the tags of each task
unfoldable pub gc_tasks : Dict (List String) → List String
gc_tasks [] = []
gc_tasks ((task, tags) ∷ rest) =
    let more = gc_tasks rest in
    if contains "GarbageCollection" tags || contains "GC" tags then task ∷ more else more

unfoldable pub add_gc_report : Report → Dict (List Report) → Dict (List Report)
add_gc_report r d =
    let p = as_key r.process_id in
    if field_is r.operation "GC"
    then put p (elim (get d p) [ none ↦ r ∷ [] | some rs ↦ rs ++ r ∷ [] ]) d
    else d

unfoldable pub add_gc_reports : List Report → Dict (List Report) → Dict (List Report)
add_gc_reports [] d = d
add_gc_reports (r ∷ rs) d = add_gc_reports rs (add_gc_report r d)

-- `gcReportsReceivedCallback`, which gets the reports of each trace.
unfoldable pub gc_reports_received : List (List Report) → Dict (List Report) → Dict (List Report)
gc_reports_received [] d = d
gc_reports_received (reports ∷ more) d = gc_reports_received more (add_gc_reports reports d)

abbrev gc_of : String → List Report → List Report
gc_of p rs = filter (λ r. field_is r.operation "GC" && as_key r.process_id == p) rs

gc_of-cons :
    (p : String) (r : Report) (rs : List Report) → gc_of p (r ∷ []) ++ gc_of p rs ≡ gc_of p (r ∷ rs)
gc_of-cons p r rs = ground arith

add_gc_report_lem :
    (r : Report) (d : Dict (List Report)) (p : String)
    → get_or (get (add_gc_report r d) p) [] ≡ get_or (get d p) [] ++ gc_of p (r ∷ [])
unfolding add_gc_report
add_gc_report_lem r d p = elim (Option-cases (get d (as_key r.process_id))) [
  | inl e ↦ ground (
    arith,
    e,
    get-put (as_key r.process_id) p (r ∷ []) d,
    eq_iff (as_key r.process_id) p,
    append-empty (get_or (get d p) []),
  )
  | inr (rs, e) ↦ ground (
    arith,
    e,
    get-put (as_key r.process_id) p (rs ++ r ∷ []) d,
    eq_iff (as_key r.process_id) p,
    append-empty (get_or (get d p) []),
  )
]

-- A process gets its garbage collections, in the order in which they are reported.
add_gc_reports_lem :
    (rs : List Report) (d : Dict (List Report)) (p : String)
    → get_or (get (add_gc_reports rs d) p) [] ≡ get_or (get d p) [] ++ gc_of p rs
unfolding add_gc_reports
add_gc_reports_lem [] d p = sym (append-empty (get_or (get d p) []))
add_gc_reports_lem (r ∷ rs) d p =
    add_gc_reports_lem rs (add_gc_report r d) p
    ∙ ap (λ z. z ++ gc_of p rs) (add_gc_report_lem r d p)
    ∙ append-append (get_or (get d p) []) (gc_of p (r ∷ [])) (gc_of p rs)
    ∙ ap (λ z. get_or (get d p) [] ++ z) (gc_of-cons p r rs)
