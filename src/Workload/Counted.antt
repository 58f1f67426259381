-- ===== src/Workload/Counted.antt =====
-- The events of a task.
use tracing_framework.Prelude.{
  ap₂, if◌then◌else◌, ◌==◌, ◌>>=◌, ℕ, String, Option, some, List, [], ◌∷◌, Bool, ◌≡◌, ◌∙◌, refl,
  sym, ap, subst, arith, map, Option-cases, some_inj, inl, inr,
}
use tracing_framework.Workload.Times.{Times}
use tracing_framework.Workload.Total.{All, all_some, all_some-total, total}
use tracing_framework.Workload.Sorting.{sort, total-sort}
use tracing_framework.Workload.Groups.{
  group_reports_by_field, group_reports_by_field-group, group_reports_by_field-All, IsGroup,
}
use tracing_framework.Workload.Spans.{kind_of, WorkReport, Thread, make_thread}
use tracing_framework.Workload.Events.{IsReadable, events_for, in_thread, make_thread-count}
use tracing_framework.Workload.Tasks.{
  Process, Machine, Task, moved, hrt_of, average, refine, starts_before, thread_start,
  process_start, machine_start, make_process, make_machine, make_task, tags_of,
}

module _ (t : Times) where
  map-moved :
      {f : WorkReport t → ℕ} (P : WorkReport t → Type 0) (x y : t.Time) (rs : List (WorkReport t))
      → ((r : WorkReport t) → f (moved t x y r) ≡ f r)
      → ((r : WorkReport t) → P r → P (moved t x y r))
      → All P rs
      → (total f (map (moved t x y) rs) ≡ total f rs) × All P (map (moved t x y) rs)
  map-moved P x y [] h k a = (refl, tt)
  map-moved P x y (r ∷ rs) h k a =
      let (same, all) = map-moved P x y rs h k a.1 in (omega (arith, h r, same), (k r a.0, all))

  -- How many events an object has for the report `k`, where it is the machine `h`, the process `p` and the
  -- thread `q`, or within them.
  module _ (h p q k : String) where
    abbrev pub in_thread_at : Thread t → ℕ
    in_thread_at x = if x.thread_id == q then in_thread t k x else 0

    abbrev pub in_process : Process t → ℕ
    in_process x = if x.process_id == p then total in_thread_at x.threads else 0

    abbrev pub in_machine : Machine t → ℕ
    in_machine x = if x.machine_id == h then total in_process x.processes else 0

    abbrev pub in_task : Task t → ℕ
    in_task x = total in_machine x.machines

    -- How many a report makes there: those of a report with these fields, none otherwise.
    abbrev of_thread : WorkReport t → ℕ
    of_thread r = if r.thread_id == q then events_for t k r else 0

    abbrev of_process : WorkReport t → ℕ
    of_process r = if r.process_id == p then of_thread r else 0

    abbrev pub events_at : WorkReport t → ℕ
    events_at r = if r.host == h then of_process r else 0

    abbrev Refined : List (WorkReport t) → List (WorkReport t) → Type 0
    Refined rs qs = (total of_thread qs ≡ total of_thread rs) × All (IsReadable t) qs

    refine-count : (rs : List (WorkReport t)) → All (IsReadable t) rs → Refined rs (refine t rs)
    unfolding refine kind_of
    refine-count [] a = (refl, tt)
    refine-count (r ∷ rs) a =
        let x = average t (map (λ y. y.timestamp) (r ∷ rs)) in
        let y = average t (map (hrt_of t) (r ∷ rs)) in
        elim (Option-cases r.hrt) [
          | inl e ↦
              let same : r ∷ rs ≡ refine t (r ∷ rs) = ground (arith, e) in
              subst (Refined (r ∷ rs)) same (refl, a)
          | inr (z, e) ↦
              let same : map (moved t x y) (r ∷ rs) ≡ refine t (r ∷ rs) = ground (arith, e) in
              subst (Refined (r ∷ rs)) same
                (map-moved {f = of_thread} (IsReadable t) x y (r ∷ rs) (λ z. refl) (λ z g. g) a)
        ]

    -- The objects of the groups have what the reports have, where each object has what its group has, if it
    -- is that of the value `v`.
    grouped-count :
        {B : Type 0} (field : WorkReport t → String) (v : String)
        (make : String × List (WorkReport t) → Option B) (weight : B → ℕ) (f : WorkReport t → ℕ)
        → ((id : String) (rs : List (WorkReport t))
            → All (IsReadable t) rs
            → (b : B) × (make (id, rs) ≡ some b) × (weight b ≡ (if id == v then total f rs else 0)))
        → (rs : List (WorkReport t)) → All (IsReadable t) rs
        → (bs : List B) × (all_some make (group_reports_by_field field rs) ≡ some bs)
          × (total weight bs ≡ total (λ r. if field r == v then f r else 0) rs)
    grouped-count field v make weight f each rs a =
        let (bs, made, w) =
          all_some-total (IsGroup field (IsReadable t)) make weight
            (λ g. if g.0 == v then total f g.1 else 0) (λ g h. each g.0 g.1 h.1)
            (group_reports_by_field field rs)
            (group_reports_by_field-All field (IsReadable t) rs a) in
        (bs, made, w ∙ group_reports_by_field-group field f v rs)

    make_thread-at :
        (id : String) (rs : List (WorkReport t))
        → All (IsReadable t) rs
        → (x : Thread t) × (make_thread t id rs ≡ some x)
          × (in_thread_at x ≡ (if id == q then total (events_for t k) rs else 0))
    make_thread-at id rs a =
        let (x, made, w, named) = make_thread-count t k id rs a in
        (x, made, ap₂ (λ i n. if i == q then n else 0) named w)

    make_process-count :
        (id : String) (rs : List (WorkReport t))
        → All (IsReadable t) rs
        → (x : Process t) × (make_process t id rs ≡ some x)
          × (in_process x ≡ (if id == p then total of_thread rs else 0))
    unfolding make_process
    make_process-count id rs a =
        let (same, b) = refine-count rs a in
        let (threads, made, w) =
          grouped-count (λ r. r.thread_id) q (λ g. make_thread t g.0 g.1) in_thread_at
            (events_for t k) make_thread-at (refine t rs) b in
        let before : Thread t → Thread t → Bool =
          λ x y. starts_before t (thread_start t x) (thread_start t y) in
        (
          record { process_id = id; threads = sort before threads; gcevents = [] },
          ap
              (λ o. o >>= λ z.
                some (record { process_id = id; threads = sort before z; gcevents = [] }))
              made,
          ap (λ n. if id == p then n else 0) (total-sort before in_thread_at threads ∙ w ∙ same),
        )

    make_machine-count :
        (id : String) (rs : List (WorkReport t))
        → All (IsReadable t) rs
        → (m : Machine t) × (make_machine t id rs ≡ some m)
          × (in_machine m ≡ (if id == h then total of_process rs else 0))
    unfolding make_machine
    make_machine-count id rs a =
        let (processes, made, w) =
          grouped-count (λ r. r.process_id) p (λ g. make_process t g.0 g.1) in_process of_thread
            make_process-count rs a in
        let before : Process t → Process t → Bool =
          λ x y. starts_before t (process_start t x) (process_start t y) in
        (
          record { machine_id = id; processes = sort before processes },
          ap (λ o. o >>= λ z. some (record { machine_id = id; processes = sort before z })) made,
          ap (λ n. if id == h then n else 0) (total-sort before in_process processes ∙ w),
        )

    make_task-count :
        (id : String) (rs : List (WorkReport t))
        → All (IsReadable t) rs
        → (x : Task t) × (make_task t id rs ≡ some x) × (in_task x ≡ total events_at rs)
    unfolding make_task
    make_task-count id rs a =
        let (machines, made, w) =
          grouped-count (λ r. r.host) h (λ g. make_machine t g.0 g.1) in_machine of_process
            make_machine-count rs a in
        let before : Machine t → Machine t → Bool =
          λ x y. starts_before t (machine_start t x) (machine_start t y) in
        (
          record { task_id = id; machines = sort before machines; tags = tags_of t rs [] },
          ap
              (λ o. o >>= λ z.
                some (record { task_id = id; machines = sort before z; tags = tags_of t rs [] }))
              made,
          total-sort before in_machine machines ∙ w,
        )

  -- Where each report of a file operation has an agent, a task is built from its reports. Within the machine,
  -- process and thread of each report it has one event for it, but four for one of a wait, and no others.
  pub make_task_lem :
      (id : String) (rs : List (WorkReport t))
      → All (IsReadable t) rs
      → (x : Task t) × (make_task t id rs ≡ some x)
        × ((h p q k : String) → in_task h p q k x ≡ total (events_at h p q k) rs)
  make_task_lem id rs a =
      let (x, made, w) = make_task-count "" "" "" "" id rs a in
      (
        x,
        made,
        λ h p q k.
            let (y, made', w') = make_task-count h p q k id rs a in
            subst (λ z. in_task h p q k z ≡ total (events_at h p q k) rs)
              (some_inj (sym made' ∙ made)) w',
      )
