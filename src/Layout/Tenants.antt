-- ===== src/Layout/Tenants.antt =====
-- The layouts of a workload: `PerTaskLayout`, a group for each process with a lane for each thread, and
-- `PerTenantLayout`, a group for each tenant with a lane for each task.
use tracing_framework.Prelude.{
  ℕ, ◌+◌, String, List, [], ◌∷◌, if◌then◌else◌, ◌≡◌, ◌==◌, ◌∙◌, refl, sym, ap, ap₂, subst, arith,
  map, length, length-append, filter, get_or, ◌++◌, ◌⊎◌, inl, inr, true, false, Bool-cases,
}
use text.Mathlib.Text.{starts_with}
use tracing_framework.Prelude.Dict.{Dict, get}
use tracing_framework.Layout.Defs.{
  Lane, Group, Layout, place_lanes, set_group_offset, set_group_spacing, new_group, layout_height,
  place_groups, set_layout_spacing, lanes_of, new_layout, lane_height, group_height,
}
use tracing_framework.Layout.Apart.{Within, Apart, set_layout_spacing_lem}
use tracing_framework.Workload.Times.{Times}
use tracing_framework.Workload.Total.{total, All}
use tracing_framework.Workload.Groups.{
  group_reports_by_field, group_reports_by_field_lem, group_reports_by_field-weight,
}
use tracing_framework.Workload.Tasks.{Process, Task}

-- `new TaskLane` and `new ThreadLane`, with neither a height nor an offset yet
abbrev pub new_lane : Lane
new_lane = record { height = 0; offset = 0 }

-- The first tag of a worker.
unfoldable pub worker_of : List String → String
worker_of [] = "(No worker ID set)"
worker_of (tag ∷ tags) = if starts_with tag "Worker_" then tag else worker_of tags

-- The first tag with this beginning, or the text for tasks that have none.
abbrev pub IsFirstWorker : List String → String → Type 0
IsFirstWorker tags w =
    ((before : List String) × (after : List String) × (tags ≡ before ++ w ∷ after)
      × All (λ x. starts_with x "Worker_" ≡ false) before
      × (starts_with w "Worker_" ≡ true))
    ⊎ (All (λ x. starts_with x "Worker_" ≡ false) tags × (w ≡ "(No worker ID set)"))

worker_of-IsFirstWorker : (tags : List String) → IsFirstWorker tags (worker_of tags)
unfolding worker_of
worker_of-IsFirstWorker [] = inr (tt, refl)
worker_of-IsFirstWorker (tag ∷ tags) = elim (Bool-cases (starts_with tag "Worker_")) [
  | inl h ↦
      let same : tag ≡ worker_of (tag ∷ tags) = ground (arith, h) in
      subst (IsFirstWorker (tag ∷ tags)) same (inl ([], tags, refl, tt, h))
  | inr h ↦
      let same : worker_of tags ≡ worker_of (tag ∷ tags) = ground (arith, h) in
      subst (IsFirstWorker (tag ∷ tags)) same (elim (worker_of-IsFirstWorker tags) [
        | inl (before, after, e, none_before, is) ↦
            inl (tag ∷ before, after, ap (λ z. tag ∷ z) e, (h, none_before), is)
        | inr (none, e) ↦ inr ((h, none), e)
      ])
]

module _ (t : Times) where
  -- `groupings`
  abbrev pub groupings : List (Task t) → Dict (List (Task t))
  groupings tasks = group_reports_by_field (λ x. worker_of x.tags) tasks

  unfoldable pub tenant_group : List (Task t) → Group
  tenant_group tasks = new_group (map (λ x. new_lane) tasks)

  -- `new PerTenantLayout`
  unfoldable pub per_tenant_layout : List (Task t) → Layout
  per_tenant_layout tasks = new_layout (map (λ g. tenant_group g.1) (groupings tasks))

  unfoldable pub process_group : Process t → Group
  process_group p = new_group (map (λ x. new_lane) p.threads)

  -- `new PerTaskLayout`, of the processes of the workload
  unfoldable pub per_task_layout : List (Process t) → Layout
  per_task_layout processes = new_layout (map process_group processes)

-- How many lanes the groups have.
abbrev pub lane_counts : List Group → List ℕ
lane_counts groups = map (λ g. length g.lanes) groups

length-place_lanes : (ls : List Lane) (o s : ℕ) → length (place_lanes o s ls) ≡ length ls
unfolding place_lanes
length-place_lanes [] o s = refl
length-place_lanes (l ∷ ls) o s = omega (arith, length-place_lanes ls (o + (lane_height l + s)) s)

lane_counts-place_groups :
    (gs : List Group) (o s : ℕ) → lane_counts (place_groups o s gs) ≡ lane_counts gs
unfolding place_groups set_group_offset
lane_counts-place_groups [] o s = refl
lane_counts-place_groups (g ∷ gs) o s =
    ap₂ (λ n ns. n ∷ ns) (length-place_lanes g.lanes o g.spacing)
      (lane_counts-place_groups gs (o + (group_height (set_group_offset o g) + s)) s)

length-map : {A B : Type 0} (f : A → B) (xs : List A) → length (map f xs) ≡ length xs
length-map f [] = refl
length-map f (x ∷ xs) = omega (arith, length-map f xs)

-- A new group has one lane for each of its threads or tasks.
length-new_group :
    {A : Type 0} (xs : List A) → length (new_group (map (λ x. new_lane) xs)).lanes ≡ length xs
unfolding new_group set_group_offset set_group_spacing
length-new_group xs =
    let lanes : List Lane = map (λ x. new_lane) xs in
    length-place_lanes (place_lanes 0 1 lanes) 0 1
    ∙ length-place_lanes lanes 0 1
    ∙ length-map (λ x. new_lane) xs

lane_counts-map :
    {A B : Type 0} (parts : A → List B) (xs : List A)
    → lane_counts (map (λ x. new_group (map (λ y. new_lane) (parts x))) xs)
      ≡ map (λ x. length (parts x)) xs
lane_counts-map parts [] = refl
lane_counts-map parts (x ∷ xs) =
    ap₂ (λ n ns. n ∷ ns) (length-new_group (parts x)) (lane_counts-map parts xs)

length-lanes_of : (gs : List Group) → length (lanes_of gs) ≡ total (λ n. n) (lane_counts gs)
unfolding lanes_of
length-lanes_of [] = refl
length-lanes_of (g ∷ gs) = omega (arith, length-append g.lanes (lanes_of gs), length-lanes_of gs)

total-map :
    {A B : Type 0} (f : B → ℕ) (h : A → B) (xs : List A)
    → total f (map h xs) ≡ total (λ x. f (h x)) xs
total-map f h [] = refl
total-map f h (x ∷ xs) = omega (arith, total-map f h xs)

total-one : {A : Type 0} (xs : List A) → length xs ≡ total (λ x. 1) xs
total-one [] = refl
total-one (x ∷ xs) = omega (arith, total-one xs)

total_ext :
    {A : Type 0} (f h : A → ℕ) (xs : List A) → ((x : A) → f x ≡ h x) → total f xs ≡ total h xs
total_ext f h [] e = refl
total_ext f h (x ∷ xs) e = omega (arith, e x, total_ext f h xs e)

-- A new layout keeps the lanes of its groups, and places them.
pub IsPlaced : List ℕ → Layout → Type 0
IsPlaced counts y =
    (lane_counts y.groups ≡ counts)
    × Within 0 (layout_height y) (lanes_of y.groups)
    × Apart (lanes_of y.groups)

new_layout-IsPlaced : (gs : List Group) → IsPlaced (lane_counts gs) (new_layout gs)
unfolding new_layout IsPlaced set_layout_spacing
new_layout-IsPlaced gs =
    let (w, a) = set_layout_spacing_lem 5 (record { groups = gs; spacing = 0 }) in
    (lane_counts-place_groups gs 0 5, w, a)

module _ (t : Times) where
  -- The layout of the processes of a workload has a group for each process in their order, with a lane for
  -- each thread; no two lanes overlap.
  pub per_task_layout_lem :
      (processes : List (Process t))
      → IsPlaced (map (λ p. length p.threads) processes) (per_task_layout t processes)
  unfolding per_task_layout process_group
  per_task_layout_lem processes =
      subst (λ c. IsPlaced c (per_task_layout t processes))
        (lane_counts-map (λ (p : Process t). p.threads) processes)
        (new_layout-IsPlaced (map (process_group t) processes))

  -- The layout by tenants has a group for each tenant, with a lane for each task whose first tag that
  -- begins with Worker_ is the tenant's, or of the tasks without such a tag. Each task has one lane, each
  -- lane lies within the height of the layout, and ends before the lanes after it begin.
  pub per_tenant_layout_lem :
      (tasks : List (Task t))
      → IsPlaced (map (λ g. length g.1) (groupings t tasks)) (per_tenant_layout t tasks)
        × ((k : String)
            → get_or (get (groupings t tasks) k) [] ≡ filter (λ x. worker_of x.tags == k) tasks)
        × (length (lanes_of (per_tenant_layout t tasks).groups) ≡ length tasks)
        × ((x : Task t) → IsFirstWorker x.tags (worker_of x.tags))
  unfolding per_tenant_layout tenant_group IsPlaced
  per_tenant_layout_lem tasks =
      let groups = groupings t tasks in
      let y = per_tenant_layout t tasks in
      let placed : IsPlaced (map (λ g. length g.1) groups) y =
        subst (λ c. IsPlaced c y) (lane_counts-map (λ (g : String × List (Task t)). g.1) groups)
          (new_layout-IsPlaced (map (λ g. tenant_group t g.1) groups)) in
      (
        placed,
        group_reports_by_field_lem (λ x. worker_of x.tags) tasks,
        length-lanes_of y.groups
            ∙ ap (total (λ n. n)) placed.0
            ∙ total-map (λ n. n) (λ g. length g.1) groups
            ∙ total_ext (λ g. length g.1) (λ g. total (λ x. 1) g.1) groups (λ g. total-one g.1)
            ∙ group_reports_by_field-weight (λ x. worker_of x.tags) (λ x. 1) tasks
            ∙ sym (total-one tasks),
        λ x. worker_of-IsFirstWorker x.tags,
      )
