-- ===== src/Workload/Sorting.antt =====
-- `Array.prototype.sort` with a comparison of keys: the stable sorted order.
use tracing_framework.Prelude.{
  ℕ, ◌+◌, List, [], ◌∷◌, Bool, true, false, if◌then◌else◌, ◌≡◌, ◌∙◌, refl, ap, arith, Bool-cases,
  inl, inr,
}
use tracing_framework.Workload.Total.{All, total}

module _ {ℓ} {A : Type ℓ} (before : A → A → Bool) where
  -- `x` stands before the elements that it is not after.
  unfoldable pub insert : A → List A → List A
  insert x [] = x ∷ []
  insert x (y ∷ ys) = if before x y then x ∷ y ∷ ys else y ∷ insert x ys

  unfoldable pub sort : List A → List A
  sort [] = []
  sort (x ∷ xs) = insert x (sort xs)

  -- Each element is before the one that follows.
  abbrev pub IsSorted : List A → Type 0
  IsSorted [] = Unit
  IsSorted (x ∷ []) = Unit
  IsSorted (x ∷ y ∷ ys) = (before x y ≡ true) × IsSorted (y ∷ ys)

  insert-cons : (x : A) (xs : List A) → (y : A) × (ys : List A) × (insert x xs ≡ y ∷ ys)
  unfolding insert
  insert-cons x [] = (x, [], refl)
  insert-cons x (y ∷ ys) = elim (Bool-cases (before x y)) [
    | inl e ↦ (x, y ∷ ys, rw e)
    | inr e ↦ (y, insert x ys, rw e)
  ]

  -- A list with an element stays one.
  pub sort-cons : (x : A) (xs : List A) → (y : A) × (ys : List A) × (sort (x ∷ xs) ≡ y ∷ ys)
  unfolding sort
  sort-cons x xs = insert-cons x (sort xs)

  total-insert : (f : A → ℕ) (x : A) (xs : List A) → total f (insert x xs) ≡ f x + total f xs
  unfolding insert
  total-insert f x [] = refl
  total-insert f x (y ∷ ys) = ground (arith, total-insert f x ys)

  pub total-sort : (f : A → ℕ) (xs : List A) → total f (sort xs) ≡ total f xs
  unfolding sort
  total-sort f [] = refl
  total-sort f (x ∷ xs) = omega (arith, total-insert f x (sort xs), total-sort f xs)

  All-insert {κ} : (P : A → Type κ) (x : A) (xs : List A) → P x → All P xs → All P (insert x xs)
  unfolding insert
  All-insert P x [] p a = (p, tt)
  All-insert P x (y ∷ ys) p a = elim (Bool-cases (before x y)) [
    | inl e ↦ rw e (p, a)
    | inr e ↦ rw e (a.0, All-insert P x ys p a.1)
  ]

  pub All-sort {κ} : (P : A → Type κ) (xs : List A) → All P xs → All P (sort xs)
  unfolding sort
  All-sort P [] a = tt
  All-sort P (x ∷ xs) a = All-insert P x (sort xs) a.0 (All-sort P xs a.1)

  -- A sorted list stays as it is.
  pub sort-sorted : (xs : List A) → IsSorted xs → sort xs ≡ xs
  unfolding sort insert
  sort-sorted [] s = refl
  sort-sorted (x ∷ []) s = refl
  sort-sorted (x ∷ y ∷ ys) s = ap (insert x) (sort-sorted (y ∷ ys) s.1) ∙ rw s.0

  tail : (y : A) (ys : List A) → IsSorted (y ∷ ys) → IsSorted ys
  tail y [] s = tt
  tail y (z ∷ ys) s = s.1

  module _ (or_after : (x y : A) → before x y ≡ false → before y x ≡ true) where
    insert-IsSorted_after :
        (z x : A) (xs : List A)
        → before z x ≡ true
        → IsSorted (z ∷ xs)
        → IsSorted (insert x xs)
        → IsSorted (z ∷ insert x xs)
    unfolding insert
    insert-IsSorted_after z x [] h s i = (h, tt)
    insert-IsSorted_after z x (y ∷ ys) h s i = elim (Bool-cases (before x y)) [
      | inl e ↦ rw (e, insert) (h, (e, s.1))
      | inr e ↦ rw (e, insert) (s.0, (rw (e, insert) at i))
    ]

    insert-IsSorted : (x : A) (xs : List A) → IsSorted xs → IsSorted (insert x xs)
    unfolding insert
    insert-IsSorted x [] s = tt
    insert-IsSorted x (y ∷ ys) s = elim (Bool-cases (before x y)) [
      | inl e ↦ rw (e, insert) (e, s)
      | inr e ↦
          rw (e, insert)
            (insert-IsSorted_after y x ys (or_after x y e) s (insert-IsSorted x ys (tail y ys s)))
    ]

    pub sort-IsSorted : (xs : List A) → IsSorted (sort xs)
    unfolding sort
    sort-IsSorted [] = tt
    sort-IsSorted (x ∷ xs) = insert-IsSorted x (sort xs) (sort-IsSorted xs)
