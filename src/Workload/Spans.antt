-- ===== src/Workload/Spans.antt =====
-- Events, the spans of a thread, and the thread. `none` is a TypeError.
use text.Mathlib.Text.{starts_with}
use tracing_framework.Prelude.{
  ◌>>=◌, ℕ, String, Option, none, some, List, [], ◌∷◌, ◌++◌, Bool, true, false, if◌then◌else◌,
  has_text, filter, ◌||◌,
}
use tracing_framework.Report.{field_is}
use tracing_framework.Workload.Times.{Times}
use tracing_framework.Workload.Total.{all_some, total}
use tracing_framework.Workload.Sorting.{sort}

-- What the loop of `XThread` does with a report.
pub data Kind : Type 0 where
  waited : Kind
  unset : Kind
  other : Kind

module _ (t : Times) where
  -- A report with the fields that are read here. `id` is its event id, or the random number that stands
  -- for one; `io` has those of the six fields from `PreWait` to `PostDuration` that are there.
  pub record WorkReport : Type 0 where
    pub id : String
    pub timestamp : t.Time
    pub hrt : Option t.Time
    pub operation : Option String
    pub agent : Option String
    pub duration : Option ℕ
    pub io : List ℕ
    pub host : String
    pub process_id : String
    pub thread_id : String
    pub parents : List String
    pub tags : List String

  pub record Event : Type 0 where
    pub report : WorkReport
    pub timestamp : t.Time
    pub duration : t.Time
    pub start : t.Time
    pub end : t.Time

  pub record Span : Type 0 where
    pub events : List Event
    pub start : t.Time
    pub end : t.Time
    pub waiting : Bool

  abbrev pub starts : Option String → String → Bool
  starts none s = false
  starts (some o) s = starts_with o s

  -- `Number(report.Duration) / 1000000.0`
  abbrev pub milliseconds : Option ℕ → t.Time
  milliseconds none = t.over t.not_a_number 1000000
  milliseconds (some n) = t.over (t.of_count n) 1000000

  -- An event that ends at the time of its report.
  abbrev pub lasting : WorkReport → t.Time → Event
  lasting r duration = record {
    report = r;
    timestamp = r.timestamp;
    duration = duration;
    start = t.minus r.timestamp duration;
    end = r.timestamp;
  }

  abbrev pub plain_event : WorkReport → Event
  plain_event r = elim r.duration [
    | none ↦ record {
      report = r;
      timestamp = r.timestamp;
      duration = t.of_count 0;
      start = r.timestamp;
      end = r.timestamp;
    }
    | some n ↦ lasting r (milliseconds (some n))
  ]

  -- `new XEvent`
  unfoldable pub make_event : WorkReport → Option Event
  make_event r =
      if starts r.operation "file"
      then elim r.agent [
        | none ↦ none
        | some agent ↦
            if has_text agent "ScheduledFileIO"
            then some (lasting r (t.over (t.of_count (total (λ n. n) r.io)) 1000000))
            else some (plain_event r)
      ]
      else some (plain_event r)

  abbrev pub event_before : Event → Event → Bool
  event_before a b = t.at_most a.timestamp b.timestamp

  abbrev pub last_event : Event → List Event → Event
  last_event e [] = e
  last_event e (f ∷ es) = last_event f es

  -- `new XSpan`
  unfoldable pub span_of : List Event → Option Span
  span_of [] = none
  span_of (e ∷ es) = some (record {
    events = e ∷ es;
    start = e.timestamp;
    end = (last_event e es).timestamp;
    waiting = false;
  })

  unfoldable pub make_span : List WorkReport → Option Span
  make_span reports = do events ← all_some make_event reports; span_of (sort event_before events)

  abbrev pub hdd_events : Span → List Event
  hdd_events s = filter (λ e. starts e.report.operation "file") s.events

  abbrev pub network_events : Span → List Event
  network_events s =
      filter (λ e. starts e.report.operation "net" || starts e.report.operation "loopback") s.events

  abbrev pub set_first : t.Time → List Event → List Event
  set_first x [] = []
  set_first x (e ∷ es) = record e { timestamp = x } ∷ es

  abbrev pub set_last : t.Time → List Event → List Event
  set_last x [] = []
  set_last x (e ∷ []) = record e { timestamp = x } ∷ []
  set_last x (e ∷ f ∷ es) = e ∷ set_last x (f ∷ es)

  -- The two spans for a report of a wait: the one that ends when the wait begins, and the wait, of which
  -- `start` is the time of the first event.
  unfoldable pub wait_spans : WorkReport → Span → Span → Span × Span
  wait_spans r pre wait =
      let begin = t.minus wait.start (milliseconds r.duration) in
      (
        record pre { events = set_last begin pre.events; end = begin },
        record wait { events = set_first begin wait.events; start = begin; waiting = true },
      )

  unfoldable pub kind_of : WorkReport → Kind
  kind_of r =
      if field_is r.operation "waited"
      then waited
      else if field_is r.operation "unset"
      then unset
      else other

  -- The loop of `XThread`, with the reports of the current span.
  unfoldable pub split_reports : List WorkReport → List WorkReport → List Span → Option (List Span)
  split_reports [] [] spans = some spans
  split_reports [] (r ∷ span) spans = do last ← make_span (r ∷ span); some (spans ++ last ∷ [])
  split_reports (r ∷ rs) span spans = elim (kind_of r) [
    | waited ↦ do
      pre ← make_span (span ++ r ∷ [])
      wait ← make_span (r ∷ r ∷ [])
      split_reports rs (r ∷ [])
          (spans ++ (wait_spans r pre wait).0 ∷ (wait_spans r pre wait).1 ∷ [])
    | unset ↦ do done ← make_span (span ++ r ∷ []); split_reports rs [] (spans ++ done ∷ [])
    | other ↦ split_reports rs (span ++ r ∷ []) spans
  ]

  pub record Thread : Type 0 where
    pub thread_id : String
    pub spans : List Span

  abbrev pub report_before : WorkReport → WorkReport → Bool
  report_before a b = t.at_most a.timestamp b.timestamp

  abbrev pub span_before : Span → Span → Bool
  span_before a b = t.at_most a.start b.start

  -- `new XThread`
  unfoldable pub make_thread : String → List WorkReport → Option Thread
  make_thread id reports = do
    spans ← split_reports (sort report_before reports) [] []
    some (record { thread_id = id; spans = sort span_before spans })
