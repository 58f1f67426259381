-- ===== src/Sanitize.antt =====
-- `sanitizeReports` of
-- xtrace/visualization/src/main/resources/webui/html/interactive/js/xtrace_utils.js: the loop over the
-- array, from which reports are removed in place.
mod Tests
use tracing_framework.Prelude.{
  String, ◌&&◌, ℕ, zero, suc, ◌+◌, ◌<◌, Option, none, some, List, [], ◌∷◌, ◌++◌, Bool, true, false,
  ◌≡◌, refl, not, if◌then◌else◌, arith, length, length-append, is_some, Bool-cases, inl, inr, ◌⊎◌,
}
use mathlib.Core.List.{append_assoc, append-nil}
use tracing_framework.Report.{Report}
use tracing_framework.Filter.Defs.{report_at}
use tracing_framework.Filter.Result.{Among, HaveParents}

-- `!report.hasOwnProperty("ParentEventID") || report["ParentEventID"].length == 0`
unfoldable pub no_edges : Report → Bool
no_edges r = elim r.parent_event_id [
  | none ↦ true
  | some ps ↦ elim ps [ [] ↦ true | p ∷ q ↦ false ]
]

unfoldable pub no_id : Report → Bool
no_id r = not (is_some r.event_id)

-- `reports[i] = r`, and `reports.splice(i, 1)`
abbrev set : List Report → ℕ → Report → List Report
set [] i r = []
set (x ∷ xs) zero r = r ∷ xs
set (x ∷ xs) (suc i) r = x ∷ set xs i r

abbrev splice : List Report → ℕ → List Report
splice [] i = []
splice (x ∷ xs) zero = xs
splice (x ∷ xs) (suc i) = x ∷ splice xs i

-- The array, and the reports that `erroneous` collects.
pub record State : Type 0 where
  pub reports : List Report
  pub edges : List Report
  pub ids : List Report

abbrev pub clear_parents : Report → Report
clear_parents r = record r { parent_event_id = some [] }

-- The `while` loop; `none` means that the fuel ran out. Where a report is removed the index stays.
unfoldable pub sanitize_loop : ℕ → ℕ → State → Option State
sanitize_loop zero i s = none
sanitize_loop (suc f) i s = elim (report_at s.reports i) [
  | none ↦ some s
  | some r ↦ elim (no_edges r) [
    | true ↦ sanitize_loop f (i + 1) (record s {
      reports = set s.reports i (clear_parents r);
      edges = s.edges ++ clear_parents r ∷ [];
    })
    | false ↦ elim (no_id r) [
      | true ↦ sanitize_loop f i (record s { reports = splice s.reports i; ids = s.ids ++ r ∷ [] })
      | false ↦ sanitize_loop f (i + 1) s
    ]
  ]
]

unfoldable pub sanitize_reports : List Report → Option State
sanitize_reports rs =
    sanitize_loop (suc (length rs)) 0 (record { reports = rs; edges = []; ids = [] })

-- What is kept of the array: the reports without parents, whose list is set, and of the others those
-- that have an id.
unfoldable pub sanitized : List Report → List Report
sanitized [] = []
sanitized (r ∷ rs) =
    let rest = sanitized rs in
    if no_edges r then clear_parents r ∷ rest else if no_id r then rest else r ∷ rest

-- The reports that the warnings count.
unfoldable pub edgeless : List Report → List Report
edgeless [] = []
edgeless (r ∷ rs) = let rest = edgeless rs in if no_edges r then clear_parents r ∷ rest else rest

unfoldable pub nameless : List Report → List Report
nameless [] = []
nameless (r ∷ rs) =
    let rest = nameless rs in if no_edges r then rest else if no_id r then r ∷ rest else rest

report_at-append : (done rs : List Report) → report_at (done ++ rs) (length done) ≡ report_at rs 0
report_at-append [] rs = refl
report_at-append (d ∷ done) rs = report_at-append done rs

set-append :
    (done : List Report) (r q : Report) (rs : List Report)
    → set (done ++ r ∷ rs) (length done) q ≡ done ++ q ∷ rs
set-append [] r q rs = refl
set-append (d ∷ done) r q rs = ground (arith, set-append done r q rs)

splice-append :
    (done : List Report) (r : Report) (rs : List Report)
    → splice (done ++ r ∷ rs) (length done) ≡ done ++ rs
splice-append [] r rs = refl
splice-append (d ∷ done) r rs = ground (arith, splice-append done r rs)

abbrev pub state : List Report → List Report → List Report → State
state rs es js = record { reports = rs; edges = es; ids = js }

-- The loop with the index behind `done`, and `rs` before it.
sanitize_loop_lem :
    (f i : ℕ) (done rs es js : List Report)
    → i ≡ length done
    → length rs < f
    → sanitize_loop f i (state (done ++ rs) es js)
      ≡ some (state (done ++ sanitized rs) (es ++ edgeless rs) (js ++ nameless rs))
unfolding sanitize_loop sanitized edgeless nameless
sanitize_loop_lem zero i done rs es js at h = absurd (omega arith)
sanitize_loop_lem (suc f) i done [] es js at h =
    ground (arith, report_at-append done [], append-nil es, append-nil js)
sanitize_loop_lem (suc f) i done (r ∷ rs) es js at h =
    let found : report_at (done ++ r ∷ rs) i ≡ some r = rw at (report_at-append done (r ∷ rs)) in
    let c = clear_parents r in
    elim (Bool-cases (no_edges r)) [
      | inl e ↦ ground (
        arith,
        found,
        set-append done r c rs,
        append_assoc done (c ∷ []) rs,
        append_assoc done (c ∷ []) (sanitized rs),
        append_assoc es (c ∷ []) (edgeless rs),
        length-append done (c ∷ []),
        sanitize_loop_lem f (i + 1) (done ++ c ∷ []) rs (es ++ c ∷ []) js,
      )
      | inr e ↦ elim (Bool-cases (no_id r)) [
        | inl e' ↦ ground (
          arith,
          found,
          splice-append done r rs,
          append_assoc js (r ∷ []) (nameless rs),
          sanitize_loop_lem f i done rs es (js ++ r ∷ []),
        )
        | inr e' ↦ ground (
          arith,
          found,
          append_assoc done (r ∷ []) rs,
          append_assoc done (r ∷ []) (sanitized rs),
          length-append done (r ∷ []),
          sanitize_loop_lem f (i + 1) (done ++ r ∷ []) rs es js,
        )
      ]
    ]

-- What becomes of a report: it is a root, whose list of parents is set, or has an edge but no id, or is
-- kept as it is.
pub data Fate : Type 0 where
  root : Fate
  no_name : Fate
  whole : Fate

abbrev pub fate : Option (List String) → Option String → Fate
fate none id = root
fate (some []) id = root
fate (some (p ∷ ps)) none = no_name
fate (some (p ∷ ps)) (some id) = whole

abbrev fate_of : Report → Fate
fate_of r = fate r.parent_event_id r.event_id

-- The array and the two lists that the warnings count.
abbrev pub expected_reports : List Report → List Report
expected_reports [] = []
expected_reports (r ∷ rs) = elim (fate r.parent_event_id r.event_id) [
  | root ↦ record r { parent_event_id = some [] } ∷ expected_reports rs
  | no_name ↦ expected_reports rs
  | whole ↦ r ∷ expected_reports rs
]

abbrev pub expected_roots : List Report → List Report
expected_roots [] = []
expected_roots (r ∷ rs) = elim (fate r.parent_event_id r.event_id) [
  | root ↦ record r { parent_event_id = some [] } ∷ expected_roots rs
  | no_name ↦ expected_roots rs
  | whole ↦ expected_roots rs
]

abbrev pub expected_nameless : List Report → List Report
expected_nameless [] = []
expected_nameless (r ∷ rs) = elim (fate r.parent_event_id r.event_id) [
  | root ↦ expected_nameless rs
  | no_name ↦ r ∷ expected_nameless rs
  | whole ↦ expected_nameless rs
]

-- The two tests of the code tell the fates apart.
tests-fate :
    (parents : Option (List String)) (id : Option String) (r : Report)
    → r.parent_event_id ≡ parents
    → r.event_id ≡ id
    → (no_edges r ≡ (elim (fate parents id) [ root ↦ true | no_name ↦ false | whole ↦ false ]))
      × ((not (no_edges r) && no_id r)
          ≡ (elim (fate parents id) [ root ↦ false | no_name ↦ true | whole ↦ false ]))
unfolding no_edges no_id
tests-fate none id r e f = (ground (arith, e), ground (arith, e))
tests-fate (some []) id r e f = (ground (arith, e), ground (arith, e))
tests-fate (some (p ∷ ps)) none r e f = (ground (arith, e), ground (arith, e, f))
tests-fate (some (p ∷ ps)) (some id) r e f = (ground (arith, e), ground (arith, e, f))

fate-cases : (x : Fate) → (x ≡ root) ⊎ ((x ≡ no_name) ⊎ (x ≡ whole))
fate-cases root = inl refl
fate-cases no_name = inr (inl refl)
fate-cases whole = inr (inr refl)

sanitized-expected :
    (rs : List Report)
    → (sanitized rs ≡ expected_reports rs)
      × (edgeless rs ≡ expected_roots rs)
      × (nameless rs ≡ expected_nameless rs)
unfolding sanitized edgeless nameless
sanitized-expected [] = (refl, refl, refl)
sanitized-expected (r ∷ rs) =
    let (a, b, c) = sanitized-expected rs in
    let (t, u) = tests-fate r.parent_event_id r.event_id r refl refl in
    elim (fate-cases (fate r.parent_event_id r.event_id)) [
      | inl e ↦ (ground (arith, e, t, u, a), ground (arith, e, t, u, b), ground (arith, e, t, u, c))
      | inr others ↦ elim others [
        | inl e ↦
            (ground (arith, e, t, u, a), ground (arith, e, t, u, b), ground (arith, e, t, u, c))
        | inr e ↦
            (ground (arith, e, t, u, a), ground (arith, e, t, u, b), ground (arith, e, t, u, c))
      ]
    ]

-- The loop ends. A report without a list of parents, or with an empty one, is kept with an empty list
-- and counted; of the others those without an id are taken out and counted, and the rest kept as they
-- are, all in their order.
pub sanitize_reports_lem :
    (rs : List Report)
    → sanitize_reports rs
      ≡ some (state (expected_reports rs) (expected_roots rs) (expected_nameless rs))
unfolding sanitize_reports
sanitize_reports_lem rs =
    let (a, b, c) = sanitized-expected rs in
    ground (arith, sanitize_loop_lem (suc (length rs)) 0 [] rs [] [] refl (omega arith), a, b, c)

has_parents : (r : Report) → no_edges r ≡ false → is_some r.parent_event_id ≡ true
unfolding no_edges
has_parents r h = ground arith

-- Afterwards every report has a list of parents, as `filter_reports` needs it.
pub sanitized-HaveParents : (rs : List Report) → HaveParents (sanitized rs)
unfolding sanitized
sanitized-HaveParents [] r h = absurd h
sanitized-HaveParents (q ∷ rs) r h = elim (Bool-cases (no_edges q)) [
  | inl e ↦
      let split : (r ≡ clear_parents q) ⊎ Among r (sanitized rs) = rw (e, sanitized) at h in
      elim split [ inl it ↦ ground arith | inr later ↦ sanitized-HaveParents rs r later ]
  | inr e ↦ elim (Bool-cases (no_id q)) [
    | inl e' ↦ sanitized-HaveParents rs r (rw (e, e', sanitized) at h)
    | inr e' ↦
        let split : (r ≡ q) ⊎ Among r (sanitized rs) = rw (e, e', sanitized) at h in
        elim split [
          | inl it ↦ ground (arith, has_parents q e)
          | inr later ↦ sanitized-HaveParents rs r later
        ]
  ]
]

-- A report that has neither parents nor an id stays in the array: it is never reached by the test for
-- the id. The message says that reports without an id are taken out.
pub sanitized-no_id :
    (r : Report) → no_edges r ≡ true → r.event_id ≡ none → sanitized (r ∷ []) ≡ clear_parents r ∷ []
unfolding sanitized
sanitized-no_id r h e = ground arith
