-- ===== src/Workload/Collections.antt =====
-- The garbage collections that the processes of a new workload show, and after more data have arrived.
use tracing_framework.Prelude.{
  ◌>>=◌, ℕ, String, Option, none, some, List, [], ◌∷◌, ◌++◌, ◌≡◌, ◌⊎◌, ◌∙◌, refl, sym, ap, subst,
  arith, Bool-cases, nat_eq, inl, inr,
}
use tracing_framework.Prelude.Dict.{get}
use tracing_framework.Workload.Times.{Times}
use tracing_framework.Workload.Total.{All, All-append}
use tracing_framework.Workload.Sorting.{sort, All-sort}
use tracing_framework.Workload.Spans.{WorkReport}
use tracing_framework.Workload.Tasks.{GcEvent, Process, Machine, Task}
use tracing_framework.Workload.Events.{IsReadable}
use tracing_framework.Workload.Counted.{make_task_lem}
use tracing_framework.Workload.Loads.{
  task_before, GcReport, GcData, add_gc_task, Workload, add_gc_tasks, gc_if, added_task, add_task,
  add_tasks, make_workload, empty_workload, add_gc,
}
use tracing_framework.Workload.Collected.{
  All-imp, newest, IsCollected, TaskIsCollected, TaskIsCollected-add_gc_task, make_task-fresh,
  IsCurrent, add_gc-IsCurrent,
}

module _ (t : Times) where
  -- The collections that a workload is made with.
  abbrev pub history : Option (GcData t) → List (GcData t)
  history none = []
  history (some g) = g ∷ []

  -- A workload that only `addTask` has changed: it shows the collections that it was made with.
  record IsFresh (gcdata : Option (GcData t)) (w : Workload t) : Type 0 where
    pub same_data : w.gcdata ≡ gcdata
    pub none_kept : w.processes ≡ none
    pub collected : All (λ x. TaskIsCollected t (history gcdata) x.1) w.tasks

  -- A task that was just added, number `n`, or one that shows `g`.
  IsNewOrCollected : ℕ → GcData t → ℕ × Task t → Type 0
  IsNewOrCollected n g x = ((x.0 ≡ n) × TaskIsCollected t [] x.1) ⊎ TaskIsCollected t (g ∷ []) x.1

  newest-twice :
      (o : Option (List (GcReport t))) (older : List (GcEvent t)) (p : Process t)
      → newest t o (newest t o older p) p ≡ newest t o older p
  newest-twice none older p = refl
  newest-twice (some rs) older p = refl

  -- Data that are added a second time change nothing.
  TaskIsCollected-twice :
      (g : GcData t) (x : Task t)
      → TaskIsCollected t (g ∷ []) x
      → TaskIsCollected t (g ∷ []) (add_gc_task t g x)
  TaskIsCollected-twice g x c =
      let One : Machine t → Type 0 = λ m. All (IsCollected t (g ∷ [])) m.processes in
      let Two : Machine t → Type 0 = λ m. All (IsCollected t (g ∷ g ∷ [])) m.processes in
      let y = add_gc_task t g x in
      All-imp t Two One y.machines
        (λ m.
          All-imp t (IsCollected t (g ∷ g ∷ [])) (IsCollected t (g ∷ [])) m.processes
            (λ p d. d ∙ newest-twice (get g p.process_id) [] p))
        (TaskIsCollected-add_gc_task t g (g ∷ []) x c)

  new_task-collected :
      (n : ℕ) (g : GcData t) (xs : List (ℕ × Task t))
      → All (IsNewOrCollected n g) xs
      → All (λ x. TaskIsCollected t (g ∷ []) x.1) (add_gc_tasks t g (n ∷ []) xs)
  unfolding add_gc_tasks IsNewOrCollected
  new_task-collected n g [] a = tt
  new_task-collected n g ((m, x) ∷ xs) a = (
    elim (Bool-cases (nat_eq n m)) [
      | inl e ↦ rw e (elim a.0 [
        | inl (same, fresh) ↦ TaskIsCollected-add_gc_task t g [] x fresh
        | inr c ↦ TaskIsCollected-twice g x c
      ])
      | inr e ↦ rw e (elim a.0 [
        | inl (same, fresh) ↦ let impossible : ⊥ = ground (arith, e, same) in absurd impossible
        | inr c ↦ c
      ])
    ],
    new_task-collected n g xs a.1,
  )

  old-IsNewOrCollected :
      (n : ℕ) (g : GcData t) (xs : List (ℕ × Task t))
      → All (λ x. TaskIsCollected t (g ∷ []) x.1) xs
      → All (IsNewOrCollected n g) xs
  unfolding IsNewOrCollected
  old-IsNewOrCollected n g xs a =
      All-imp t (λ x. TaskIsCollected t (g ∷ []) x.1) (IsNewOrCollected n g) xs (λ x c. inr c) a

  gc_if-collected :
      (gcdata : Option (GcData t)) (n : ℕ) (x : Task t) (xs : List (ℕ × Task t))
      → TaskIsCollected t [] x
      → All (λ y. TaskIsCollected t (history gcdata) y.1) xs
      → All
          (λ y. TaskIsCollected t (history gcdata) y.1)
          (gc_if t gcdata (n ∷ []) (sort (task_before t) (xs ++ (n, x) ∷ [])))
  unfolding IsNewOrCollected
  gc_if-collected none n x xs fresh a =
      let P : ℕ × Task t → Type 0 = λ y. TaskIsCollected t [] y.1 in
      All-sort (task_before t) P (xs ++ (n, x) ∷ []) (All-append P xs ((n, x) ∷ []) a (fresh, tt))
  gc_if-collected (some g) n x xs fresh a =
      new_task-collected n g (sort (task_before t) (xs ++ (n, x) ∷ [])) (
        All-sort (task_before t) (IsNewOrCollected n g) (xs ++ (n, x) ∷ []) (
          All-append (IsNewOrCollected n g) xs ((n, x) ∷ []) (old-IsNewOrCollected n g xs a)
            (inl (refl, fresh), tt)))

  add_task-IsFresh :
      (gcdata : Option (GcData t)) (id : String) (rs : List (WorkReport t)) (w : Workload t)
      → All (IsReadable t) rs
      → IsFresh gcdata w
      → (w' : Workload t) × (add_task t id rs w ≡ some w') × IsFresh gcdata w'
  unfolding add_task
  add_task-IsFresh gcdata id rs w a f =
      let (task, made, counted) = make_task_lem t id rs a in
      (
        added_task t task w,
        ap (λ q. q >>= λ task'. some (added_task t task' w)) made,
        record {
          same_data = f.same_data;
          none_kept = f.none_kept;
          collected =
              subst
                (λ z.
                  All (λ y. TaskIsCollected t (history gcdata) y.1)
                    (gc_if t z (w.added ∷ [])
                      (sort (task_before t) (w.tasks ++ (w.added, task) ∷ []))))
                (sym f.same_data)
                (gc_if-collected gcdata w.added task w.tasks (make_task-fresh t id rs task made)
                  f.collected);
        },
      )

  add_tasks-IsFresh :
      (gcdata : Option (GcData t)) (traces : List (String × List (WorkReport t))) (w : Workload t)
      → All (λ r. All (IsReadable t) r.1) traces
      → IsFresh gcdata w
      → (w' : Workload t) × (add_tasks t traces w ≡ some w') × IsFresh gcdata w'
  unfolding add_tasks
  add_tasks-IsFresh gcdata [] w a f = (w, refl, f)
  add_tasks-IsFresh gcdata ((id, rs) ∷ traces) w a f =
      let (w1, first, f1) = add_task-IsFresh gcdata id rs w a.0 f in
      let (w2, rest, f2) = add_tasks-IsFresh gcdata traces w1 a.1 f1 in
      (w2, ap (λ q. q >>= λ w'. add_tasks t traces w') first ∙ rest, f2)

  -- Data that arrive one after the other.
  abbrev pub add_gcs : List (GcData t) → Workload t → Workload t
  add_gcs [] w = w
  add_gcs (g ∷ gs) w = add_gcs gs (add_gc t g w)

  abbrev pub newest_first : List (GcData t) → List (GcData t) → List (GcData t)
  newest_first [] older = older
  newest_first (g ∷ gs) older = newest_first gs (g ∷ older)

  add_gcs-IsCurrent :
      (gs older : List (GcData t)) (w : Workload t)
      → IsCurrent t older w
      → IsCurrent t (newest_first gs older) (add_gcs gs w)
  add_gcs-IsCurrent [] older w c = c
  add_gcs-IsCurrent (g ∷ gs) older w c =
      add_gcs-IsCurrent gs (g ∷ older) (add_gc t g w) (add_gc-IsCurrent t g older w c)

  -- A workload whose reports of file operations have agents is built, with or without collections. After
  -- any further data of collections, each process of each task shows those of the newest data with the
  -- process that overlap with it in time and have a duration, and a process that no data have shows none.
  pub add_gc_lem :
      (traces : List (String × List (WorkReport t))) (gcdata : Option (GcData t))
      (gs : List (GcData t))
      → All (λ r. All (IsReadable t) r.1) traces
      → (w : Workload t) × (make_workload t traces gcdata ≡ some w)
        × IsCurrent t (newest_first gs (history gcdata)) (add_gcs gs w)
  unfolding make_workload
  add_gc_lem traces gcdata gs a =
      let (w, made, f) =
        add_tasks-IsFresh gcdata traces (empty_workload t gcdata) a
          record { same_data = refl; none_kept = refl; collected = tt } in
      (
        w,
        made,
        add_gcs-IsCurrent gs (history gcdata) w
            record { collected = f.collected; kept = inl f.none_kept },
      )
