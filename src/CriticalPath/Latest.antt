-- ===== src/CriticalPath/Latest.antt =====
-- Each report of the path is followed by its latest known parent.
use tracing_framework.Prelude.{
  ℕ, zero, suc, ◌<◌, ◌≤◌, String, Option, none, some, List, [], ◌∷◌, ◌≡◌, refl, true, arith, eq_iff,
  eq_refl, if◌then◌else◌, ltb, ◌==◌, ◌⊎◌, inl, inr, Option-cases, Bool-cases, some_inj, subst, ap,
}
use tracing_framework.Prelude.KeySet.{contains}
use tracing_framework.Prelude.Dict.{Dict, get}
use tracing_framework.Report.{Report, as_key}
use tracing_framework.CriticalPath.Defs.{
  report_map, first_known, latest, next_report, walk, last_report, critical_path,
}

-- `n` is a known one of the parents, and no known one is later.
pub record IsLatest (d : Dict Report) (ps : List String) (n : Report) : Type 0 where
  pub among : (p : String) × (contains p ps ≡ true) × (get d p ≡ some n)
  pub no_later :
      (p : String) (r : Report)
      → contains p ps ≡ true
      → get d p ≡ some r
      → r.timestamp ≤ n.timestamp

-- The path from a report: it stops before a report that names no list of parents, and after one of
-- whose parents none is known.
pub data PathFrom (d : Dict Report) : Report → List Report → Type 0 where
  root : {r : Report} → r.parent_event_id ≡ none → PathFrom d r []
  cut :
      {r : Report} {ps : List String}
      → r.parent_event_id ≡ some ps
      → ((p : String) → contains p ps ≡ true → get d p ≡ none)
      → PathFrom d r (r ∷ [])
  along :
      {r n : Report} {ps : List String} {path : List Report}
      → r.parent_event_id ≡ some ps
      → IsLatest d ps n
      → PathFrom d n path
      → PathFrom d r (r ∷ path)

-- No candidate is later than what `latest` returns, nor is the report that it began with.
latest-le :
    (d : Dict Report) (ps : List String) (next : Report)
    → next.timestamp ≤ (latest d ps next).timestamp
unfolding latest
latest-le d [] next = omega arith
latest-le d (q ∷ ps) next = elim (Option-cases (get d q)) [
  | inl e ↦ ground (arith, latest-le d ps next)
  | inr (c, e) ↦ ground (arith, latest-le d ps next, latest-le d ps c)
]

latest-no_later :
    (d : Dict Report) (ps : List String) (next : Report) (p : String) (r : Report)
    → contains p ps ≡ true
    → get d p ≡ some r
    → r.timestamp ≤ (latest d ps next).timestamp
unfolding latest contains
latest-no_later d [] next p r h e = absurd (ground arith)
latest-no_later d (q ∷ ps) next p r h e =
    let better = λ (c : Report). if ltb next.timestamp c.timestamp then c else next in
    elim (Bool-cases (q == p)) [
      | inl same ↦ ground (
        arith,
        eq_iff q p,
        ap (get d) ((eq_iff q p).0 same),
        latest-le d ps next,
        latest-le d ps r,
      )
      | inr other ↦ elim (Option-cases (get d q)) [
        | inl n ↦ ground (arith, latest-no_later d ps next p r)
        | inr (c, n) ↦ ground (arith, latest-no_later d ps next p r, latest-no_later d ps c p r)
      ]
    ]

-- A known one of the parents.
abbrev Among : Dict Report → List String → Report → Type 0
Among d ps n = (p : String) × (contains p ps ≡ true) × (get d p ≡ some n)

Among-cons :
    (d : Dict Report) (q : String) (ps : List String) (n : Report)
    → Among d ps n
    → Among d (q ∷ ps) n
unfolding contains
Among-cons d q ps n (p, i, e) = (p, ground arith, e)

latest-Among :
    (d : Dict Report) (ps qs : List String) (next : Report)
    → ((p : String) → contains p ps ≡ true → contains p qs ≡ true)
    → Among d qs next
    → Among d qs (latest d ps next)
unfolding latest contains
latest-Among d [] qs next h a = a
latest-Among d (q ∷ ps) qs next h a = elim (Option-cases (get d q)) [
  | inl e ↦
      let same : latest d ps next ≡ latest d (q ∷ ps) next = ground arith in
      subst (Among d qs) same (latest-Among d ps qs next (λ p i. h p (ground arith)) a)
  | inr (c, e) ↦
      let better = if ltb next.timestamp c.timestamp then c else next in
      let same : latest d ps better ≡ latest d (q ∷ ps) next = ground arith in
      let among : Among d qs better = elim (Bool-cases (ltb next.timestamp c.timestamp)) [
        | inl y ↦ subst (Among d qs) (ground arith) ((q, h q (ground (arith, eq_refl q)), e))
        | inr n ↦ subst (Among d qs) (ground arith) a
      ] in
      subst (Among d qs) same (latest-Among d ps qs better (λ p i. h p (ground arith)) among)
]

first_known-cases :
    (d : Dict Report) (ps : List String)
    → ((first_known d ps ≡ none) × ((p : String) → contains p ps ≡ true → get d p ≡ none))
      ⊎ ((r : Report) × (first_known d ps ≡ some r) × Among d ps r)
unfolding first_known contains
first_known-cases d [] = inl (refl, λ p h. absurd (ground arith))
first_known-cases d (q ∷ ps) = elim (Option-cases (get d q)) [
  | inr (r, e) ↦ inr (r, ground arith, (q, ground (arith, eq_refl q), e))
  | inl e ↦ elim (first_known-cases d ps) [
    | inl (n, h) ↦ inl (
      ground arith,
      λ p i. elim (Bool-cases (q == p)) [
        | inl same ↦ ground (arith, ap (get d) ((eq_iff q p).0 same))
        | inr other ↦ h p (ground arith)
      ],
    )
    | inr (r, n, a) ↦ inr (r, ground arith, Among-cons d q ps r a)
  ]
]

-- What follows a report with the parents `ps`.
next_report-cases :
    (d : Dict Report) (ps : List String)
    → get d "undefined" ≡ none
    → ((next_report d ps ≡ none) × ((p : String) → contains p ps ≡ true → get d p ≡ none))
      ⊎ ((n : Report) × (next_report d ps ≡ some n) × IsLatest d ps n)
unfolding next_report first_known contains
next_report-cases d [] u = inl (u, λ p h. absurd (ground arith))
next_report-cases d (q ∷ ps) u = elim (first_known-cases d (q ∷ ps)) [
  | inl (n, h) ↦ inl (ground arith, h)
  | inr (r, n, a) ↦ inr (
    latest d ps r,
    ground arith,
    record {
      among = latest-Among d ps (q ∷ ps) r (λ p i. ground arith) a;
      no_later = λ p c i e. elim (Bool-cases (q == p)) [
        | inl same ↦ ground (arith, ap (get d) ((eq_iff q p).0 same), latest-le d ps r)
        | inr other ↦ latest-no_later d ps r p c (ground arith) e
      ];
    },
  )
]

walk-none : (fuel : ℕ) (d : Dict Report) → walk fuel d none ≡ some []
unfolding walk
walk-none zero d = refl
walk-none (suc fuel) d = refl

-- The walk from a report, where the ranks fall from a report to its known parents.
module _ (d : Dict Report) (rank : Report → ℕ)
    (falls : (q : String) (r n : Report) (ps : List String) (p : String)
      → get d q ≡ some r
      → r.parent_event_id ≡ some ps
      → contains p ps ≡ true
      → get d p ≡ some n
      → rank n < rank r)
    (known : get d "undefined" ≡ none) where
  walk_lem :
      (fuel : ℕ) (q : String) (r : Report)
      → get d q ≡ some r
      → rank r < fuel
      → (path : List Report) × (walk fuel d (some r) ≡ some path) × PathFrom d r path
  unfolding walk
  walk_lem zero q r s h = absurd (omega arith)
  walk_lem (suc fuel) q r s h = elim (Option-cases r.parent_event_id) [
    | inl e ↦ ([], ground arith, root e)
    | inr (ps, e) ↦ elim (next_report-cases d ps known) [
      | inl (n, none') ↦ (r ∷ [], ground (arith, walk-none fuel d), cut e none')
      | inr (n, m, l) ↦
          let (p, i, g) = l.among in
          let less = falls q r n ps p s e i g in
          let (path, w, f) = walk_lem fuel p n g (omega arith) in
          (r ∷ path, ground arith, along e l f)
    ]
  ]

-- The report that the walk begins with: the given one, or else the last.
abbrev pub chosen : List Report → Option Report → Option Report
chosen reports none = last_report reports
chosen reports (some r) = some r

-- Where ranks fall from a stored report to its known parents and no report is stored under the text
-- `undefined`, critical_path returns, if it begins with a stored report and the fuel is above the rank
-- of that report. The path goes from each report to its latest known parent; it stops before a report
-- without a list of parents, and after one of whose parents none is known.
pub critical_path_lem :
    (fuel : ℕ) (reports : List Report) (finalreport : Option Report) (r : Report)
    (rank : Report → ℕ)
    → chosen reports finalreport ≡ some r
    → get (report_map reports []) (as_key r.event_id) ≡ some r
    → ((q : String) (a b : Report) (ps : List String) (p : String)
        → get (report_map reports []) q ≡ some a
        → a.parent_event_id ≡ some ps
        → contains p ps ≡ true
        → get (report_map reports []) p ≡ some b
        → rank b < rank a)
    → get (report_map reports []) "undefined" ≡ none
    → rank r < fuel
    → (path : List Report) × (critical_path fuel reports finalreport ≡ some path)
      × PathFrom (report_map reports []) r path
unfolding critical_path
critical_path_lem fuel reports none r rank begins stored falls known h =
    let (path, e, f) =
      walk_lem (report_map reports []) rank falls known fuel (as_key r.event_id) r stored h in
    (path, ground arith, f)
critical_path_lem fuel reports (some s) r rank begins stored falls known h =
    let (path, e, f) =
      walk_lem (report_map reports []) rank falls known fuel (as_key r.event_id) r stored h in
    (path, ground (arith, some_inj begins), f)
