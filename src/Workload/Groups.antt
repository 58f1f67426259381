-- ===== src/Workload/Groups.antt =====
-- `group_reports_by_field` of xtrace_utils.js, for a list of any objects and the text of a field.
use tracing_framework.Prelude.{
  ℕ, ◌+◌, ◌<◌, String, List, [], ◌∷◌, ◌++◌, if◌then◌else◌, ◌≡◌, ◌∙◌, refl, sym, ap, subst,
  Bool-cases, length-append, arith, ◌==◌, eq_iff, eq_refl, filter, get_or, Option-cases, inl, inr,
  append-append, append-empty, length,
}
use tracing_framework.Prelude.Dict.{Dict, get, has, put, get-put}
use tracing_framework.Workload.Total.{All, All-append, total, total-append}

module _ {ℓ} {A : Type ℓ} (field : A → String) where
  unfoldable pub group_by_from : Dict (List A) → List A → Dict (List A)
  group_by_from groups [] = groups
  group_by_from groups (x ∷ xs) =
      let value = field x in
      let there = if has groups value then groups else put value [] groups in
      group_by_from (put value (get_or (get there value) [] ++ x ∷ []) there) xs

  unfoldable pub group_reports_by_field : List A → Dict (List A)
  group_reports_by_field xs = group_by_from [] xs

  -- One round.
  abbrev added : Dict (List A) → A → Dict (List A)
  added groups x =
      let value = field x in
      let there = if has groups value then groups else put value [] groups in
      put value (get_or (get there value) [] ++ x ∷ []) there

  put-put :
      (k : String) (ys zs : List A) (groups : Dict (List A))
      → put k ys (put k zs groups) ≡ put k ys groups
  unfolding put
  put-put k ys zs [] = ground (arith, eq_refl k)
  put-put k ys zs ((j, ws) ∷ groups) = elim (Bool-cases (j == k)) [
    | inl e ↦ rw (e, put) (rw (eq_refl k, put) refl)
    | inr e ↦ rw (e, put) (rw (e, put) (ap (λ z. (j, ws) ∷ z) (put-put k ys zs groups)))
  ]

  -- The object joins its group.
  abbrev joined : Dict (List A) → A → List A
  joined groups x = get_or (get groups (field x)) [] ++ x ∷ []

  added-put :
      (groups : Dict (List A)) (x : A) → put (field x) (joined groups x) groups ≡ added groups x
  added-put groups x = elim (Option-cases (get groups (field x))) [
    | inl e ↦ ground (
      arith,
      e,
      get-put (field x) (field x) [] groups,
      eq_refl (field x),
      put-put (field x) (x ∷ []) [] groups,
    )
    | inr (rs, e) ↦ ground (arith, e)
  ]

  get-added :
      (groups : Dict (List A)) (x : A) (k : String)
      → get_or (get (added groups x) k) []
        ≡ (if field x == k then get_or (get groups k) [] ++ x ∷ [] else get_or (get groups k) [])
  get-added groups x k = ground (
    arith,
    ap (λ z. get_or (get z k) []) (added-put groups x),
    get-put (field x) k (joined groups x) groups,
    eq_iff (field x) k,
  )

  group_by_from-get :
      (groups : Dict (List A)) (xs : List A) (k : String)
      → get_or (get (group_by_from groups xs) k) []
        ≡ get_or (get groups k) [] ++ filter (λ x. field x == k) xs
  unfolding group_by_from
  group_by_from-get groups [] k = sym (append-empty (get_or (get groups k) []))
  group_by_from-get groups (x ∷ xs) k =
      group_by_from-get (added groups x) xs k
      ∙ ground (
        arith,
        get-added groups x k,
        append-append (get_or (get groups k) []) (x ∷ []) (filter (λ y. field y == k) xs),
      )

  -- The group of a value has the objects with that value, in their order.
  pub group_reports_by_field_lem :
      (xs : List A) (k : String)
      → get_or (get (group_reports_by_field xs) k) [] ≡ filter (λ x. field x == k) xs
  unfolding group_reports_by_field get
  group_reports_by_field_lem xs k = group_by_from-get [] xs k

  -- The weight of all groups.
  abbrev pub in_groups : (A → ℕ) → Dict (List A) → ℕ
  in_groups f groups = total (λ g. total f g.1) groups

  put-weight :
      (f : A → ℕ) (k : String) (ys : List A) (groups : Dict (List A))
      → in_groups f (put k ys groups) + total f (get_or (get groups k) [])
        ≡ in_groups f groups + total f ys
  unfolding put get
  put-weight f k ys [] = omega arith
  put-weight f k ys ((j, zs) ∷ groups) = ground (arith, put-weight f k ys groups)

  added-weight :
      (f : A → ℕ) (groups : Dict (List A)) (x : A)
      → in_groups f (added groups x) ≡ in_groups f groups + f x
  added-weight f groups x = omega (
    arith,
    ap (in_groups f) (added-put groups x),
    put-weight f (field x) (joined groups x) groups,
    total-append f (get_or (get groups (field x)) []) (x ∷ []),
  )

  group_by_from-weight :
      (f : A → ℕ) (groups : Dict (List A)) (xs : List A)
      → in_groups f (group_by_from groups xs) ≡ in_groups f groups + total f xs
  unfolding group_by_from
  group_by_from-weight f groups [] = omega arith
  group_by_from-weight f groups (x ∷ xs) =
      omega (arith, group_by_from-weight f (added groups x) xs, added-weight f groups x)

  -- The groups have all objects between them.
  pub group_reports_by_field-weight :
      (f : A → ℕ) (xs : List A) → in_groups f (group_reports_by_field xs) ≡ total f xs
  unfolding group_reports_by_field
  group_reports_by_field-weight f xs = omega (arith, group_by_from-weight f [] xs)

  -- The weight of the groups of one value.
  abbrev pub in_group : (A → ℕ) → String → Dict (List A) → ℕ
  in_group f k groups = total (λ g. if g.0 == k then total f g.1 else 0) groups

  put-group :
      (f : A → ℕ) (h k : String) (ys : List A) (groups : Dict (List A))
      → in_group f h (put k ys groups) + (if k == h then total f (get_or (get groups k) []) else 0)
        ≡ in_group f h groups + (if k == h then total f ys else 0)
  unfolding put get
  put-group f h k ys [] = ground arith
  put-group f h k ys ((j, zs) ∷ groups) = ground (arith, put-group f h k ys groups, eq_iff j k)

  added-group :
      (f : A → ℕ) (h : String) (groups : Dict (List A)) (x : A)
      → in_group f h (added groups x) ≡ in_group f h groups + (if field x == h then f x else 0)
  added-group f h groups x = ground (
    arith,
    ap (in_group f h) (added-put groups x),
    put-group f h (field x) (joined groups x) groups,
    total-append f (get_or (get groups (field x)) []) (x ∷ []),
  )

  group_by_from-group :
      (f : A → ℕ) (h : String) (groups : Dict (List A)) (xs : List A)
      → in_group f h (group_by_from groups xs)
        ≡ in_group f h groups + total (λ x. if field x == h then f x else 0) xs
  unfolding group_by_from
  group_by_from-group f h groups [] = omega arith
  group_by_from-group f h groups (x ∷ xs) =
      omega (arith, group_by_from-group f h (added groups x) xs, added-group f h groups x)

  -- The group of a value has the objects with that value.
  pub group_reports_by_field-group :
      (f : A → ℕ) (h : String) (xs : List A)
      → in_group f h (group_reports_by_field xs) ≡ total (λ x. if field x == h then f x else 0) xs
  unfolding group_reports_by_field
  group_reports_by_field-group f h xs = omega (arith, group_by_from-group f h [] xs)

  -- What holds of a group: it has an object, and `P` holds of all its objects.
  abbrev pub IsGroup {κ} : (A → Type κ) → String × List A → Type κ
  IsGroup P (k, xs) = (0 < length xs) × All P xs

  put-All {κ} :
      (Q : String × List A → Type κ) (k : String) (ys : List A) (groups : Dict (List A))
      → Q (k, ys)
      → All Q groups
      → All Q (put k ys groups)
  unfolding put
  put-All Q k ys [] q a = (q, tt)
  put-All Q k ys ((j, zs) ∷ groups) q a = elim (Bool-cases (j == k)) [
    | inl e ↦ rw e (q, a.1)
    | inr e ↦ rw e (a.0, put-All Q k ys groups q a.1)
  ]

  get-All {κ} :
      (P : A → Type κ) (k : String) (groups : Dict (List A))
      → All (IsGroup P) groups
      → All P (get_or (get groups k) [])
  unfolding get
  get-All P k [] a = tt
  get-All P k ((j, zs) ∷ groups) a = elim (Bool-cases (j == k)) [
    | inl e ↦ rw e a.0.1
    | inr e ↦ rw e (get-All P k groups a.1)
  ]

  added-All {κ} :
      (P : A → Type κ) (groups : Dict (List A)) (x : A)
      → All (IsGroup P) groups
      → P x
      → All (IsGroup P) (added groups x)
  added-All P groups x a p =
      let old = get_or (get groups (field x)) [] in
      subst (All (IsGroup P)) (added-put groups x) (
        put-All (IsGroup P) (field x) (joined groups x) groups
          (
            omega (arith, length-append old (x ∷ [])),
            All-append P old (x ∷ []) (get-All P (field x) groups a) (p, tt),
          )
          a)

  group_by_from-All {κ} :
      (P : A → Type κ) (groups : Dict (List A)) (xs : List A)
      → All (IsGroup P) groups
      → All P xs
      → All (IsGroup P) (group_by_from groups xs)
  unfolding group_by_from
  group_by_from-All P groups [] a b = a
  group_by_from-All P groups (x ∷ xs) a b =
      group_by_from-All P (added groups x) xs (added-All P groups x a b.0) b.1

  -- No group is empty, and what holds of all objects holds of those of each group.
  pub group_reports_by_field-All {κ} :
      (P : A → Type κ) (xs : List A) → All P xs → All (IsGroup P) (group_reports_by_field xs)
  unfolding group_reports_by_field
  group_reports_by_field-All P xs b = group_by_from-All P [] xs tt b
