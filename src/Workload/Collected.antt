-- ===== src/Workload/Collected.antt =====
-- The garbage collections that the processes of a workload show.
use tracing_framework.Prelude.{
  false, ◌>>=◌, ℕ, String, Option, none, some, List, [], ◌∷◌, Bool, true, ◌≡◌, ◌⊎◌, refl, sym, ap,
  subst, not, ◌&&◌, arith, map, filter, Option-cases, some_inj, inl, inr,
}
use tracing_framework.Prelude.Dict.{get}
use tracing_framework.Workload.Times.{Times}
use tracing_framework.Workload.Total.{All, all_some}
use tracing_framework.Workload.Sorting.{sort, All-sort}
use tracing_framework.Workload.Groups.{group_reports_by_field}
use tracing_framework.Workload.Spans.{WorkReport, make_thread}
use tracing_framework.Workload.Tasks.{
  GcEvent, starts_before, thread_start, process_start, process_end, machine_start, Process, Machine,
  Task, refine, make_process, make_machine, make_task, tags_of,
}
use tracing_framework.Workload.Loads.{
  GcReport, GcData, make_gc, in_process_time, add_gc_data, add_gc_machine, add_gc_task, Workload,
  has_number, add_gc_tasks, numbers, call_processes, add_gc,
}

-- A chain that returns has a first step that does.
bind_some {ℓ κ} :
    {A : Type ℓ} {B : Type κ} (o : Option A) (f : A → Option B) (b : B)
    → (o >>= f) ≡ some b
    → (a : A) × (o ≡ some a) × (f a ≡ some b)
bind_some none f b e = let impossible : ⊥ = cc in absurd impossible
bind_some (some a) f b e = (a, refl, e)

-- What is built from elements holds of all that are built.
all_some-All {ℓ κ ν} :
    {A : Type ℓ} {B : Type κ} (P : B → Type ν) (f : A → Option B)
    → ((x : A) (y : B) → f x ≡ some y → P y)
    → (xs : List A) (ys : List B) → all_some f xs ≡ some ys
    → All P ys
all_some-All P f each [] ys e = subst (All P) (some_inj e) tt
all_some-All P f each (x ∷ xs) ys e =
    let (z, ez, rest) = bind_some (f x) (λ z. all_some f xs >>= λ zs. some (z ∷ zs)) ys e in
    let (zs, ezs, last) = bind_some (all_some f xs) (λ zs. some (z ∷ zs)) ys rest in
    subst (All P) (some_inj last) (each x z ez, all_some-All P f each xs zs ezs)

module _ (t : Times) where
  -- One millisecond is added to the start of a collection, and taken off its duration.
  abbrev pub collection : GcReport t → GcEvent t
  collection r =
      let start = t.plus r.gc_start (t.of_count 1) in
      let duration = t.minus r.gc_duration (t.of_count 1) in
      record { start = start; duration = duration; end = t.plus start duration }

  abbrev pub no_later : t.Time → Option t.Time → Bool
  no_later a none = false
  no_later a (some b) = t.at_most a b

  abbrev pub no_earlier : t.Time → Option t.Time → Bool
  no_earlier a none = false
  no_earlier a (some b) = t.at_most b a

  -- The collection begins before the process ends, ends after it begins, and lasts for some time.
  abbrev pub overlaps : Process t → GcEvent t → Bool
  overlaps p e =
      no_later e.start (process_end t p)
      && no_earlier e.end (process_start t p)
      && not (t.at_most e.duration (t.of_count 0))

  in_process_time-overlaps : (p : Process t) (e : GcEvent t) → in_process_time t p e ≡ overlaps p e
  unfolding in_process_time
  in_process_time-overlaps p e = elim (Option-cases (process_end t p)) [
    | inl x ↦ elim (Option-cases (process_start t p)) [
      | inl y ↦ ground (arith, x, y)
      | inr (s, y) ↦ ground (arith, x, y)
    ]
    | inr (s, x) ↦ elim (Option-cases (process_start t p)) [
      | inl y ↦ ground (arith, x, y)
      | inr (r, y) ↦ ground (arith, x, y)
    ]
  ]

  filter-ext :
      {A : Type 0} (f h : A → Bool) (xs : List A)
      → ((x : A) → f x ≡ h x)
      → filter f xs ≡ filter h xs
  filter-ext f h [] e = refl
  filter-ext f h (x ∷ xs) e = ground (arith, e x, filter-ext f h xs e)

  kept-overlaps :
      (p : Process t) (rs : List (GcReport t))
      → filter (in_process_time t p) (map (make_gc t) rs) ≡ filter (overlaps p) (map collection rs)
  unfolding make_gc
  kept-overlaps p rs =
      filter-ext (in_process_time t p) (overlaps p) (map collection rs) (in_process_time-overlaps p)

  -- The collections that a process has after data were added, the newest first: those of the newest data
  -- with the process.
  abbrev pub newest : Option (List (GcReport t)) → List (GcEvent t) → Process t → List (GcEvent t)
  newest none older p = older
  newest (some rs) older p = filter (overlaps p) (map collection rs)

  abbrev pub shown : List (GcData t) → Process t → List (GcEvent t)
  shown [] p = []
  shown (g ∷ gs) p = newest (get g p.process_id) (shown gs p) p

  abbrev pub IsCollected : List (GcData t) → Process t → Type 0
  IsCollected gs p = p.gcevents ≡ shown gs p

  abbrev pub TaskIsCollected : List (GcData t) → Task t → Type 0
  TaskIsCollected gs x = All (λ m. All (IsCollected gs) m.processes) x.machines

  All-map_to :
      {A : Type 0} (P Q : A → Type 0) (f : A → A) (xs : List A)
      → ((x : A) → P x → Q (f x))
      → All P xs
      → All Q (map f xs)
  All-map_to P Q f [] h a = tt
  All-map_to P Q f (x ∷ xs) h a = (h x a.0, All-map_to P Q f xs h a.1)

  IsCollected-add_gc_data :
      (g : GcData t) (gs : List (GcData t)) (p : Process t)
      → IsCollected gs p
      → IsCollected (g ∷ gs) (add_gc_data t g p)
  unfolding add_gc_data
  IsCollected-add_gc_data g gs p c = elim (Option-cases (get g p.process_id)) [
    | inl e ↦
        let same : p ≡ add_gc_data t g p = ground (arith, e) in
        subst (IsCollected (g ∷ gs)) same
          (subst (λ o. p.gcevents ≡ newest o (shown gs p) p) (sym e) c)
    | inr (rs, e) ↦
        let q = record p { gcevents = filter (in_process_time t p) (map (make_gc t) rs) } in
        let same : q ≡ add_gc_data t g p = ground (arith, e) in
        subst (IsCollected (g ∷ gs)) same
          (subst (λ o. q.gcevents ≡ newest o (shown gs q) q) (sym e) (kept-overlaps p rs))
  ]

  pub TaskIsCollected-add_gc_task :
      (g : GcData t) (gs : List (GcData t)) (x : Task t)
      → TaskIsCollected gs x
      → TaskIsCollected (g ∷ gs) (add_gc_task t g x)
  TaskIsCollected-add_gc_task g gs x c =
      All-map_to (λ m. All (IsCollected gs) m.processes)
        (λ m. All (IsCollected (g ∷ gs)) m.processes) (add_gc_machine t g) x.machines
        (λ m.
          All-map_to (IsCollected gs) (IsCollected (g ∷ gs)) (add_gc_data t g) m.processes
            (IsCollected-add_gc_data g gs))
        c

  make_process-fresh :
      (id : String) (rs : List (WorkReport t)) (p : Process t)
      → make_process t id rs ≡ some p
      → IsCollected [] p
  unfolding make_process
  make_process-fresh id rs p e =
      let groups = group_reports_by_field (λ r. r.thread_id) (refine t rs) in
      let (threads, made, last) =
        bind_some (all_some (λ g. make_thread t g.0 g.1) groups)
          (λ z. some (record {
            process_id = id;
            threads = sort (λ a b. starts_before t (thread_start t a) (thread_start t b)) z;
            gcevents = [];
          }))
          p e in
      ap (λ q. q.gcevents) (some_inj (sym last))

  make_machine-fresh :
      (id : String) (rs : List (WorkReport t)) (m : Machine t)
      → make_machine t id rs ≡ some m
      → All (IsCollected []) m.processes
  unfolding make_machine
  make_machine-fresh id rs m e =
      let groups = group_reports_by_field (λ r. r.process_id) rs in
      let before : Process t → Process t → Bool =
        λ x y. starts_before t (process_start t x) (process_start t y) in
      let (ps, made, last) =
        bind_some (all_some (λ g. make_process t g.0 g.1) groups)
          (λ z. some (record { machine_id = id; processes = sort before z })) m e in
      subst (λ z. All (IsCollected []) z.processes) (some_inj last)
        (All-sort before (IsCollected []) ps (
          all_some-All (IsCollected []) (λ g. make_process t g.0 g.1)
            (λ g p. make_process-fresh g.0 g.1 p) groups ps made))

  pub make_task-fresh :
      (id : String) (rs : List (WorkReport t)) (x : Task t)
      → make_task t id rs ≡ some x
      → TaskIsCollected [] x
  unfolding make_task
  make_task-fresh id rs x e =
      let groups = group_reports_by_field (λ r. r.host) rs in
      let Fresh : Machine t → Type 0 = λ m. All (IsCollected []) m.processes in
      let before : Machine t → Machine t → Bool =
        λ a b. starts_before t (machine_start t a) (machine_start t b) in
      let (ms, made, last) =
        bind_some (all_some (λ g. make_machine t g.0 g.1) groups)
          (λ z. some (record { task_id = id; machines = sort before z; tags = tags_of t rs [] })) x
          e in
      subst (λ z. All Fresh z.machines) (some_inj last)
        (All-sort before Fresh ms (
          all_some-All Fresh (λ g. make_machine t g.0 g.1) (λ g m. make_machine-fresh g.0 g.1 m)
            groups ms made))

  -- `w` shows the data `gs`, and a kept result of `Processes()` has all processes.
  pub record IsCurrent (gs : List (GcData t)) (w : Workload t) : Type 0 where
    pub collected : All (λ x. TaskIsCollected gs x.1) w.tasks
    pub kept : (w.processes ≡ none) ⊎ (w.processes ≡ some (numbers t w.tasks))

  numbers-add_gc_tasks :
      (g : GcData t) (ns : List ℕ) (xs : List (ℕ × Task t))
      → numbers t (add_gc_tasks t g ns xs) ≡ numbers t xs
  unfolding add_gc_tasks
  numbers-add_gc_tasks g ns [] = refl
  numbers-add_gc_tasks g ns ((n, x) ∷ xs) = ap (λ z. n ∷ z) (numbers-add_gc_tasks g ns xs)

  pub All-imp :
      {A : Type 0} (P Q : A → Type 0) (xs : List A) → ((x : A) → P x → Q x) → All P xs → All Q xs
  All-imp P Q [] h a = tt
  All-imp P Q (x ∷ xs) h a = (h x a.0, All-imp P Q xs h a.1)

  Listed : List ℕ → List (GcData t) → ℕ × Task t → Type 0
  Listed ns gs x = (has_number t x.0 ns ≡ true) × TaskIsCollected gs x.1

  Listed-later :
      (m : ℕ) (ns : List ℕ) (gs : List (GcData t)) (x : ℕ × Task t)
      → Listed ns gs x
      → Listed (m ∷ ns) gs x
  unfolding Listed
  Listed-later m ns gs x l = (ground (arith, l.0), l.1)

  Listed-numbers :
      (gs : List (GcData t)) (xs : List (ℕ × Task t))
      → All (λ x. TaskIsCollected gs x.1) xs
      → All (Listed (numbers t xs) gs) xs
  unfolding Listed
  Listed-numbers gs [] a = tt
  Listed-numbers gs ((n, x) ∷ xs) a =
      let ns = numbers t xs in
      (
        (ground arith, a.0),
        All-imp (Listed ns gs) (Listed (n ∷ ns) gs) xs (Listed-later n ns gs)
            (Listed-numbers gs xs a.1),
      )

  collected-add_gc_tasks :
      (g : GcData t) (gs : List (GcData t)) (ns : List ℕ) (xs : List (ℕ × Task t))
      → All (Listed ns gs) xs
      → All (λ x. TaskIsCollected (g ∷ gs) x.1) (add_gc_tasks t g ns xs)
  unfolding add_gc_tasks Listed
  collected-add_gc_tasks g gs ns [] a = tt
  collected-add_gc_tasks g gs ns ((n, x) ∷ xs) a =
      (rw a.0.0 (TaskIsCollected-add_gc_task g gs x a.0.1), collected-add_gc_tasks g gs ns xs a.1)

  pub add_gc-IsCurrent :
      (g : GcData t) (gs : List (GcData t)) (w : Workload t)
      → IsCurrent gs w
      → IsCurrent (g ∷ gs) (add_gc t g w)
  unfolding add_gc call_processes
  add_gc-IsCurrent g gs w c =
      let same = numbers-add_gc_tasks g (numbers t w.tasks) w.tasks in
      let all =
        collected-add_gc_tasks g gs (numbers t w.tasks) w.tasks
          (Listed-numbers gs w.tasks c.collected) in
      elim c.kept [
        | inl e ↦ rw e record { collected = all; kept = inr (ap some (sym same)) }
        | inr e ↦ rw e record { collected = all; kept = inr (ap some (sym same)) }
      ]
