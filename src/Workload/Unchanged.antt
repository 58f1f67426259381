-- ===== src/Workload/Unchanged.antt =====
-- Garbage collections leave the times, the order and the events of the tasks as they are.
use tracing_framework.Prelude.{
  ◌==◌, ℕ, String, List, [], ◌∷◌, Bool, true, false, if◌then◌else◌, ◌≡◌, ◌∙◌, refl, sym, ap, ap₂,
  subst, arith, map, Option-cases, inl, inr,
}
use tracing_framework.Prelude.Dict.{get}
use tracing_framework.Workload.Times.{Times}
use tracing_framework.Workload.Total.{All, total}
use tracing_framework.Workload.Sorting.{IsSorted}
use tracing_framework.Workload.Tasks.{
  thread_start, thread_end, Process, Machine, Task, process_start, process_end, machine_start,
  machine_end, task_start, task_end, starts_before, min_of, max_of, present,
}
use tracing_framework.Workload.Counted.{in_thread_at, in_process, in_machine, in_task}
use tracing_framework.Workload.Loads.{
  GcData, add_gc_data, add_gc_machine, add_gc_task, task_before, has_number, add_gc_tasks,
}

module _ (t : Times) where
  pub threads-add_gc_data : (g : GcData t) (p : Process t) → (add_gc_data t g p).threads ≡ p.threads
  unfolding add_gc_data
  threads-add_gc_data g p = elim (Option-cases (get g p.process_id)) [
    | inl e ↦ ground (arith, e)
    | inr (rs, e) ↦ ground (arith, e)
  ]

  process_id-add_gc_data :
      (g : GcData t) (p : Process t) → (add_gc_data t g p).process_id ≡ p.process_id
  unfolding add_gc_data
  process_id-add_gc_data g p = elim (Option-cases (get g p.process_id)) [
    | inl e ↦ ground (arith, e)
    | inr (rs, e) ↦ ground (arith, e)
  ]

  -- A value of an object that is made of those of its parts stays where the parts' do.
  pub map-same :
      {A B : Type 0} (f : A → B) (h : A → A) (xs : List A)
      → ((x : A) → f (h x) ≡ f x)
      → map f (map h xs) ≡ map f xs
  map-same f h [] e = refl
  map-same f h (x ∷ xs) e = ap₂ (λ y ys. y ∷ ys) (e x) (map-same f h xs e)

  total-same :
      {A : Type 0} (f : A → ℕ) (h : A → A) (xs : List A)
      → ((x : A) → f (h x) ≡ f x)
      → total f (map h xs) ≡ total f xs
  total-same f h [] e = refl
  total-same f h (x ∷ xs) e = omega (arith, e x, total-same f h xs e)

  module _ (g : GcData t) where
    pub machine-same :
        (m : Machine t)
        → (machine_start t (add_gc_machine t g m) ≡ machine_start t m)
          × (machine_end t (add_gc_machine t g m) ≡ machine_end t m)
          × ((h p q k : String)
              → in_machine t h p q k (add_gc_machine t g m) ≡ in_machine t h p q k m)
    machine-same m = (
      ap (λ z. min_of t (present t z))
          (map-same (process_start t) (add_gc_data t g) m.processes (λ p.
            ap (λ z. min_of t (present t (map (thread_start t) z))) (threads-add_gc_data g p))),
      ap (λ z. max_of t (present t z))
          (map-same (process_end t) (add_gc_data t g) m.processes
            (λ p. ap (λ z. max_of t (present t (map (thread_end t) z))) (threads-add_gc_data g p))),
      λ h p q k.
          ap (λ n. if m.machine_id == h then n else 0)
            (total-same (in_process t h p q k) (add_gc_data t g) m.processes (λ x.
              ap₂ (λ i ths. if i == p then total (in_thread_at t h p q k) ths else 0)
                (process_id-add_gc_data g x) (threads-add_gc_data g x))),
    )

    -- Garbage collections change neither the times nor the events of a task.
    pub task-same :
        (x : Task t)
        → (task_start t (add_gc_task t g x) ≡ task_start t x)
          × (task_end t (add_gc_task t g x) ≡ task_end t x)
          × ((h p q k : String) → in_task t h p q k (add_gc_task t g x) ≡ in_task t h p q k x)
    task-same x = (
      ap (λ z. min_of t (present t z))
          (map-same (machine_start t) (add_gc_machine t g) x.machines (λ m. (machine-same m).0)),
      ap (λ z. max_of t (present t z))
          (map-same (machine_end t) (add_gc_machine t g) x.machines (λ m. (machine-same m).1)),
      λ h p q k.
          total-same (in_machine t h p q k) (add_gc_machine t g) x.machines
            (λ m. (machine-same m).2 h p q k),
    )

    chosen-same :
        {B : Type 0} (f : Task t → B) (b : Bool) (x : Task t)
        → f (add_gc_task t g x) ≡ f x
        → f (if b then add_gc_task t g x else x) ≡ f x
    chosen-same f true x e = e
    chosen-same f false x e = refl

    pub IsSorted-add_gc_tasks :
        (ns : List ℕ) (xs : List (ℕ × Task t))
        → IsSorted (task_before t) xs
        → IsSorted (task_before t) (add_gc_tasks t g ns xs)
    unfolding add_gc_tasks
    IsSorted-add_gc_tasks ns [] s = tt
    IsSorted-add_gc_tasks ns ((n, x) ∷ []) s = tt
    IsSorted-add_gc_tasks ns ((n, x) ∷ (m, y) ∷ xs) s = (
      ap₂ (starts_before t) (chosen-same (task_start t) (has_number t n ns) x (task-same x).0)
            (chosen-same (task_start t) (has_number t m ns) y (task-same y).0)
          ∙ s.0,
      IsSorted-add_gc_tasks ns ((m, y) ∷ xs) s.1,
    )

    pub All-add_gc_tasks :
        {B : Type 0} (f : Task t → B) (P : B → Type 0) (ns : List ℕ) (xs : List (ℕ × Task t))
        → ((x : Task t) → f (add_gc_task t g x) ≡ f x)
        → All (λ x. P (f x.1)) xs
        → All (λ x. P (f x.1)) (add_gc_tasks t g ns xs)
    unfolding add_gc_tasks
    All-add_gc_tasks f P ns [] e a = tt
    All-add_gc_tasks f P ns ((n, x) ∷ xs) e a = (
      subst P (sym (chosen-same f (has_number t n ns) x (e x))) a.0,
      All-add_gc_tasks f P ns xs e a.1,
    )

    pub total-add_gc_tasks :
        (f : Task t → ℕ) (ns : List ℕ) (xs : List (ℕ × Task t))
        → ((x : Task t) → f (add_gc_task t g x) ≡ f x)
        → total (λ x. f x.1) (add_gc_tasks t g ns xs) ≡ total (λ x. f x.1) xs
    unfolding add_gc_tasks
    total-add_gc_tasks f ns [] e = refl
    total-add_gc_tasks f ns ((n, x) ∷ xs) e =
        omega (arith, chosen-same f (has_number t n ns) x (e x), total-add_gc_tasks f ns xs e)
