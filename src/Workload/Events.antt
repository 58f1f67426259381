-- ===== src/Workload/Events.antt =====
-- The events of a thread.
use tracing_framework.Prelude.{
  has_text, ◌>>=◌, ℕ, ◌+◌, ◌*◌, String, some, List, [], ◌∷◌, ◌++◌, false, not, ◌&&◌, is_some,
  if◌then◌else◌, ◌==◌, ◌≡◌, ◌∙◌, refl, ap, arith, Bool-cases, Option-cases, inl, inr, ◌⊎◌,
}
use tracing_framework.Workload.Times.{Times}
use tracing_framework.Workload.Total.{
  All, All-append, all_some-cons, all_some-total, total, total-append,
}
use tracing_framework.Workload.Sorting.{sort, sort-cons, total-sort, All-sort}
use tracing_framework.Workload.Spans.{
  WorkReport, Event, Span, Thread, Kind, waited, unset, other, kind_of, starts, lasting,
  milliseconds, plain_event, make_event, event_before, last_event, span_of, make_span, set_first,
  set_last, wait_spans, split_reports, report_before, span_before, make_thread,
}

Kind-cases : (k : Kind) → (k ≡ waited) ⊎ ((k ≡ unset) ⊎ (k ≡ other))
Kind-cases waited = inl refl
Kind-cases unset = inr (inl refl)
Kind-cases other = inr (inr refl)

module _ (t : Times) where
  -- `indexOf` is not called on a missing agent.
  abbrev pub IsReadable : WorkReport t → Type 0
  IsReadable r = (starts t r.operation "file" && not (is_some r.agent)) ≡ false

  plain_event-report : (r : WorkReport t) → (plain_event t r).report ≡ r
  plain_event-report r = elim (Option-cases r.duration) [
    | inl e ↦ ground (arith, e)
    | inr (n, e) ↦ ground (arith, e)
  ]

  make_event-returns :
      (r : WorkReport t) → IsReadable r → (e : Event t) × (make_event t r ≡ some e) × (e.report ≡ r)
  unfolding make_event
  make_event-returns r h = elim (Bool-cases (starts t r.operation "file")) [
    | inr e ↦ (plain_event t r, ground (arith, e), plain_event-report r)
    | inl e ↦ elim (Option-cases r.agent) [
      | inl n ↦ absurd (ground (arith, e, n))
      | inr (a, ea) ↦ elim (Bool-cases (has_text a "ScheduledFileIO")) [
        | inl s ↦ (
          lasting t r (t.over (t.of_count (total (λ n. n) r.io)) 1000000),
          ground (arith, e, ea, s),
          refl,
        )
        | inr s ↦ (plain_event t r, ground (arith, e, ea, s), plain_event-report r)
      ]
    ]
  ]

  module _ (k : String) where
    abbrev pub is_report : WorkReport t → ℕ
    is_report r = if r.id == k then 1 else 0

    abbrev pub is_event : Event t → ℕ
    is_event e = is_report e.report

    -- A wait has four events.
    abbrev pub events_for : WorkReport t → ℕ
    events_for r = elim (kind_of t r) [
      | waited ↦ 4 * is_report r
      | unset ↦ is_report r
      | other ↦ is_report r
    ]

    abbrev pub in_span : Span t → ℕ
    in_span s = total is_event s.events

    abbrev pub in_thread : Thread t → ℕ
    in_thread th = total in_span th.spans

    counted :
        (r : WorkReport t)
        → IsReadable r
        → (e : Event t) × (make_event t r ≡ some e) × (is_event e ≡ is_report r)
    counted r h = let (e, made, same) = make_event-returns r h in (e, made, ap is_report same)

    make_span-count :
        (r : WorkReport t) (rs : List (WorkReport t))
        → All IsReadable (r ∷ rs)
        → (s : Span t) × (make_span t (r ∷ rs) ≡ some s) × (in_span s ≡ total is_report (r ∷ rs))
    unfolding make_span span_of
    make_span-count r rs a =
        let (e, made, same) = make_event-returns r a.0 in
        let (es, made_all, weighed) =
          all_some-total IsReadable (make_event t) is_event is_report (λ x h. counted x h) rs a.1 in
        let (f, fs, sorted) = sort-cons (event_before t) e es in
        (
          record {
            events = f ∷ fs;
            start = f.timestamp;
            end = (last_event t f fs).timestamp;
            waiting = false;
          },
          ap (λ o. o >>= λ xs. span_of t (sort (event_before t) xs))
                (all_some-cons (make_event t) r rs e es made made_all)
              ∙ ap (span_of t) sorted,
          omega (
            arith,
            ap (total is_event) sorted,
            total-sort (event_before t) is_event (e ∷ es),
            weighed,
            ap is_report same,
          ),
        )

    set_first-count :
        (x : t.Time) (es : List (Event t)) → total is_event (set_first t x es) ≡ total is_event es
    set_first-count x [] = refl
    set_first-count x (e ∷ es) = refl

    set_last-count :
        (x : t.Time) (es : List (Event t)) → total is_event (set_last t x es) ≡ total is_event es
    set_last-count x [] = refl
    set_last-count x (e ∷ []) = refl
    set_last-count x (e ∷ f ∷ es) = omega (arith, set_last-count x (f ∷ es))

    wait_spans-count :
        (r : WorkReport t) (pre wait : Span t)
        → total in_span ((wait_spans t r pre wait).0 ∷ (wait_spans t r pre wait).1 ∷ [])
          ≡ in_span pre + in_span wait
    unfolding wait_spans
    wait_spans-count r pre wait = omega (
      arith,
      set_last-count (t.minus wait.start (milliseconds t r.duration)) pre.events,
      set_first-count (t.minus wait.start (milliseconds t r.duration)) wait.events,
    )

    make_span-end :
        (span : List (WorkReport t)) (r : WorkReport t)
        → All IsReadable span
        → IsReadable r
        → (s : Span t) × (make_span t (span ++ r ∷ []) ≡ some s)
          × (in_span s ≡ total is_report span + is_report r)
    make_span-end [] r a b =
        let (s, made, n) = make_span-count r [] (b, tt) in (s, made, omega (arith, n))
    make_span-end (x ∷ span) r a b =
        let (s, made, n) =
          make_span-count x (span ++ r ∷ [])
            (a.0, All-append IsReadable span (r ∷ []) a.1 (b, tt)) in
        (s, made, omega (arith, n, total-append is_report span (r ∷ [])))

    -- The spans have the events of those before, of the current span and of what follows.
    split_reports-count :
        (rs span : List (WorkReport t)) (spans : List (Span t))
        → All IsReadable rs
        → All IsReadable span
        → (done : List (Span t)) × (split_reports t rs span spans ≡ some done)
          × (total in_span done ≡ total in_span spans + total is_report span + total events_for rs)
    unfolding split_reports
    split_reports-count [] [] spans a b = (spans, refl, omega arith)
    split_reports-count [] (r ∷ span) spans a b =
        let (s, made, n) = make_span-count r span b in
        (
          spans ++ s ∷ [],
          ap (λ o. o >>= λ last. some (spans ++ last ∷ [])) made,
          omega (arith, n, total-append in_span spans (s ∷ [])),
        )
    split_reports-count (r ∷ rs) span spans a b = elim (Kind-cases (kind_of t r)) [
      | inl e ↦
          let weight : events_for r ≡ 4 * is_report r = ground (arith, e) in
          let (pre, made, n) = make_span-end span r b a.0 in
          let (wait, made_wait, m) = make_span-count r (r ∷ []) (a.0, (a.0, tt)) in
          let both = (wait_spans t r pre wait).0 ∷ (wait_spans t r pre wait).1 ∷ [] in
          let (done, rest, c) = split_reports-count rs (r ∷ []) (spans ++ both) a.1 (a.0, tt) in
          (
            done,
            ground (arith, e, made, made_wait, rest),
            omega (
              arith,
              weight,
              c,
              n,
              m,
              total-append in_span spans both,
              wait_spans-count r pre wait,
            ),
          )
      | inr (inl e) ↦
          let weight : events_for r ≡ is_report r = ground (arith, e) in
          let (s, made, n) = make_span-end span r b a.0 in
          let (done, rest, c) = split_reports-count rs [] (spans ++ s ∷ []) a.1 tt in
          (
            done,
            ground (arith, e, made, rest),
            omega (arith, weight, c, n, total-append in_span spans (s ∷ [])),
          )
      | inr (inr e) ↦
          let weight : events_for r ≡ is_report r = ground (arith, e) in
          let (done, rest, c) =
            split_reports-count rs (span ++ r ∷ []) spans a.1
              (All-append IsReadable span (r ∷ []) b (a.0, tt)) in
          (
            done,
            ground (arith, e, rest),
            omega (arith, weight, c, total-append is_report span (r ∷ [])),
          )
    ]

    -- A thread is built, and has one event for each report, but four for a report of a wait.
    pub make_thread-count :
        (id : String) (reports : List (WorkReport t))
        → All IsReadable reports
        → (th : Thread t) × (make_thread t id reports ≡ some th)
          × (in_thread th ≡ total events_for reports)
          × (th.thread_id ≡ id)
    unfolding make_thread
    make_thread-count id reports a =
        let ordered = sort (report_before t) reports in
        let (spans, made, n) =
          split_reports-count ordered [] [] (All-sort (report_before t) IsReadable reports a) tt in
        (
          record { thread_id = id; spans = sort (span_before t) spans },
          ap (λ o. o >>= λ ss. some (record { thread_id = id; spans = sort (span_before t) ss }))
              made,
          omega (
            arith,
            n,
            total-sort (span_before t) in_span spans,
            total-sort (report_before t) events_for reports,
          ),
          refl,
        )
