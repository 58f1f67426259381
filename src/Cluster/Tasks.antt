-- ===== src/Cluster/Tasks.antt =====
-- Which tasks the workers get.
use tracing_framework.Prelude.{
  ℕ, zero, suc, ◌+◌, ◌-◌, ◌≤◌, ◌<◌, ltb, leb, if◌then◌else◌, ◌≡◌, ◌∙◌, refl, sym, ap, arith,
  Bool-cases, inl, inr,
}
use tracing_framework.Cluster.Defs.{
  Task, compare_pair, terminate, Progress, first_pair, progress, give_task,
}

-- The state after some tasks, and the task that is given then.
abbrev pub after : ℕ → ℕ → Progress
after n zero = first_pair
after n (suc k) = (give_task n (after n k)).1

abbrev pub task_after : ℕ → ℕ → Task
task_after n k = (give_task n (after n k)).0

-- The number of pairs of different numbers below `i`.
abbrev pub pairs : ℕ → ℕ
pairs zero = 0
pairs (suc i) = pairs i + i

after-next :
    (n k i j : ℕ)
    → after n k ≡ record { i = i; j = j }
    → i < n
    → after n (suc k) ≡ progress (record { i = i; j = j })
unfolding give_task
after-next n k i j e l = ground (arith, e)

after-pairs :
    (n i j : ℕ) → j < i → i ≤ n → (0 < j → i < n) → after n (pairs i + j) ≡ record { i = i; j = j }
unfolding progress
after-pairs n zero j l b h = absurd (omega arith)
after-pairs n (suc zero) zero l b h = refl
after-pairs n (suc (suc i)) zero l b h =
    let k = pairs (suc i) + i in
    let index : pairs (suc (suc i)) + 0 ≡ suc k = omega arith in
    ap (after n) index
    ∙ after-next n k (suc i) i
        (after-pairs n (suc i) i (omega arith) (omega arith) (λ z. omega arith)) (omega arith)
    ∙ ground arith
after-pairs n (suc i) (suc j) l b h =
    let inside = h (omega arith) in
    let index : pairs (suc i) + suc j ≡ suc (pairs (suc i) + j) = omega arith in
    ap (after n) index
    ∙ after-next n (pairs (suc i) + j) (suc i) j
        (after-pairs n (suc i) j (omega arith) b (λ z. inside)) inside
    ∙ ground arith

-- After all pairs the state stays.
after-all : (n d : ℕ) → 0 < n → after n (pairs n + d) ≡ record { i = n; j = 0 }
unfolding give_task
after-all n zero l = after-pairs n n 0 l (omega arith) (λ z. absurd (omega arith))
after-all n (suc d) l =
    let index : pairs n + suc d ≡ suc (pairs n + d) = omega arith in
    ap (after n) index ∙ ground (arith, after-all n d l)

-- Every number is that of a pair.
split : (k : ℕ) → (i : ℕ) × (j : ℕ) × (j < i) × (k ≡ pairs i + j)
split zero = (1, 0, omega arith, refl)
split (suc k) =
    let (i, j, l, e) = split k in
    elim (Bool-cases (ltb (suc j) i)) [
      | inl h ↦ (i, suc j, ground arith, omega (arith, e))
      | inr h ↦
          let last : suc j ≡ i = ground arith in
          (suc i, 0, omega arith, ap (λ z. suc z) e ∙ omega (arith, last))
    ]

n-plus-zero : (n : ℕ) → n + 0 ≡ n
n-plus-zero n = omega arith

pairs-le : (n d : ℕ) → pairs n ≤ pairs (n + d)
pairs-le n zero = omega (arith, ap pairs (n-plus-zero n))
pairs-le n (suc d) =
    let index : n + suc d ≡ suc (n + d) = omega arith in omega (arith, pairs-le n d, ap pairs index)

task-pair : (n i j : ℕ) → j < i → i < n → task_after n (pairs i + j) ≡ compare_pair i j
unfolding give_task
task-pair n i j h b = ground (arith, after-pairs n i j h (omega arith) (λ z. b))

task-done : (n k : ℕ) → 0 < n → pairs n ≤ k → task_after n k ≡ terminate
unfolding give_task
task-done n k l h =
    let index : k ≡ pairs n + (k - pairs n) = omega arith in
    ground (arith, ap (after n) index, after-all n (k - pairs n) l)

task-once : (n k i j : ℕ) → 0 < n → task_after n k ≡ compare_pair i j → k ≡ pairs i + j
task-once n k i j l e =
    let (i', j', h, split_k) = split k in
    elim (Bool-cases (ltb i' n)) [
      | inl b ↦
          let given = sym (ap (task_after n) split_k ∙ task-pair n i' j' h (ground arith)) ∙ e in
          split_k ∙ ground (arith, given)
      | inr b ↦
          let index : i' ≡ n + (i' - n) = ground arith in
          absurd (
            ground (
              arith,
              e,
              task-done n k l (omega (arith, split_k, pairs-le n (i' - n), ap pairs index)),
            ))
    ]

-- Where the page is after `m` tasks.
pub after_lem :
    (n m : ℕ)
    → 0 < n
    → (i : ℕ) × (j : ℕ) × (j < i)
      × (pairs i + j ≡ (if leb m (pairs n) then m else pairs n))
      × (after n m ≡ record { i = i; j = j })
after_lem n m l = elim (Bool-cases (ltb m (pairs n))) [
  | inl h ↦
      let (i, j, b, e) = split m in
      elim (Bool-cases (ltb i n)) [
        | inl inside ↦ (
          i,
          j,
          b,
          ground (arith, e, h),
          ap (after n) e ∙ after-pairs n i j b (ground arith) (λ z. ground arith),
        )
        | inr outside ↦
            let index : i ≡ n + (i - n) = ground arith in
            absurd (ground (arith, h, e, pairs-le n (i - n), ap pairs index))
      ]
  | inr h ↦
      let index : m ≡ pairs n + (m - pairs n) = ground (arith, h) in
      (n, 0, l, ground (arith, h), ap (after n) index ∙ after-all n (m - pairs n) l)
]

-- For at least one trace: every pair of a trace and one before it is given as a task exactly once,
-- namely as the task whose number is that of the pairs before it; after all of them the workers are told
-- to terminate, however often they ask.
pub give_task_lem :
    (n : ℕ)
    → 0 < n
    → ((i j : ℕ) → j < i → i < n → task_after n (pairs i + j) ≡ compare_pair i j)
      × ((k i j : ℕ) → task_after n k ≡ compare_pair i j → k ≡ pairs i + j)
      × ((k : ℕ) → pairs n ≤ k → task_after n k ≡ terminate)
give_task_lem n l =
    (λ i j h b. task-pair n i j h b, λ k i j e. task-once n k i j l e, λ k h. task-done n k l h)
