-- ===== src/Workload/Extremes.antt =====
-- The minimum and the maximum of the times of objects.
use tracing_framework.Prelude.{
  Option, none, some, List, [], ◌∷◌, true, false, ◌≡◌, refl, map, Bool-cases, inl, inr,
}
use tracing_framework.Workload.Times.{Times}
use tracing_framework.Workload.Total.{All}
use tracing_framework.Workload.Tasks.{starts_before, least, greatest, min_of, max_of, present}

-- The numbers of JavaScript but for NaN.
pub record IsOrdered (t : Times) : Type 0 where
  pub or_after : (a b : t.Time) → t.at_most a b ≡ false → t.at_most b a ≡ true
  pub chained :
      (a b c : t.Time) → t.at_most a b ≡ true → t.at_most b c ≡ true → t.at_most a c ≡ true

module _ (t : Times) (o : IsOrdered t) where
  pub starts_before-or_after :
      (a b : Option t.Time) → starts_before t a b ≡ false → starts_before t b a ≡ true
  starts_before-or_after none none h = refl
  starts_before-or_after (some a) none h = cc
  starts_before-or_after none (some b) h = refl
  starts_before-or_after (some a) (some b) h = o.or_after a b h

  -- `x` is not before the minimum, and not after the maximum.
  abbrev pub NotBefore : Option t.Time → t.Time → Type 0
  NotBefore none x = ⊥
  NotBefore (some m) x = t.at_most m x ≡ true

  abbrev pub NotAfter : Option t.Time → t.Time → Type 0
  NotAfter none x = ⊥
  NotAfter (some m) x = t.at_most x m ≡ true

  at_most_refl : (x : t.Time) → t.at_most x x ≡ true
  at_most_refl x = elim (Bool-cases (t.at_most x x)) [ inl e ↦ e | inr e ↦ o.or_after x x e ]

  NotBefore-least : (x : t.Time) (m : Option t.Time) → NotBefore (least t x m) x
  NotBefore-least x none = at_most_refl x
  NotBefore-least x (some y) = elim (Bool-cases (t.at_most x y)) [
    | inl e ↦ rw e (at_most_refl x)
    | inr e ↦ rw e (o.or_after x y e)
  ]

  NotBefore-least_later :
      (x y : t.Time) (m : Option t.Time) → NotBefore m y → NotBefore (least t x m) y
  NotBefore-least_later x y none h = absurd h
  NotBefore-least_later x y (some z) h = elim (Bool-cases (t.at_most x z)) [
    | inl e ↦ rw e (o.chained x z y e h)
    | inr e ↦ rw e h
  ]

  NotAfter-greatest : (x : t.Time) (m : Option t.Time) → NotAfter (greatest t x m) x
  NotAfter-greatest x none = at_most_refl x
  NotAfter-greatest x (some y) = elim (Bool-cases (t.at_most y x)) [
    | inl e ↦ rw e (at_most_refl x)
    | inr e ↦ rw e (o.or_after y x e)
  ]

  NotAfter-greatest_later :
      (x y : t.Time) (m : Option t.Time) → NotAfter m y → NotAfter (greatest t x m) y
  NotAfter-greatest_later x y none h = absurd h
  NotAfter-greatest_later x y (some z) h = elim (Bool-cases (t.at_most z x)) [
    | inl e ↦ rw e (o.chained y z x h e)
    | inr e ↦ rw e h
  ]

  -- The time of an object, if it has one, is within `min` and `max`.
  abbrev pub StartsWithin : Option t.Time → Option t.Time → Type 0
  StartsWithin m none = Unit
  StartsWithin m (some x) = NotBefore m x

  abbrev pub EndsWithin : Option t.Time → Option t.Time → Type 0
  EndsWithin m none = Unit
  EndsWithin m (some x) = NotAfter m x

  StartsWithin-later :
      (x : t.Time) (m y : Option t.Time) → StartsWithin m y → StartsWithin (least t x m) y
  StartsWithin-later x m none h = tt
  StartsWithin-later x m (some y) h = NotBefore-least_later x y m h

  EndsWithin-later :
      (x : t.Time) (m y : Option t.Time) → EndsWithin m y → EndsWithin (greatest t x m) y
  EndsWithin-later x m none h = tt
  EndsWithin-later x m (some y) h = NotAfter-greatest_later x y m h

  pub All-map :
      {A : Type 0} (P Q : A → Type 0) (xs : List A) → ((x : A) → P x → Q x) → All P xs → All Q xs
  All-map P Q [] f a = tt
  All-map P Q (x ∷ xs) f a = (f x a.0, All-map P Q xs f a.1)

  StartsWithin-head :
      (y : Option t.Time) (ys : List (Option t.Time))
      → StartsWithin (min_of t (present t (y ∷ ys))) y
  unfolding min_of
  StartsWithin-head none ys = tt
  StartsWithin-head (some y) ys = NotBefore-least y (min_of t (present t ys))

  StartsWithin-tail :
      (x y : Option t.Time) (ys : List (Option t.Time))
      → StartsWithin (min_of t (present t ys)) y
      → StartsWithin (min_of t (present t (x ∷ ys))) y
  unfolding min_of
  StartsWithin-tail none y ys h = h
  StartsWithin-tail (some x) y ys h = StartsWithin-later x (min_of t (present t ys)) y h

  EndsWithin-head :
      (y : Option t.Time) (ys : List (Option t.Time)) → EndsWithin (max_of t (present t (y ∷ ys))) y
  unfolding max_of
  EndsWithin-head none ys = tt
  EndsWithin-head (some y) ys = NotAfter-greatest y (max_of t (present t ys))

  EndsWithin-tail :
      (x y : Option t.Time) (ys : List (Option t.Time))
      → EndsWithin (max_of t (present t ys)) y
      → EndsWithin (max_of t (present t (x ∷ ys))) y
  unfolding max_of
  EndsWithin-tail none y ys h = h
  EndsWithin-tail (some x) y ys h = EndsWithin-later x (max_of t (present t ys)) y h

  module _ {A : Type 0} (time : A → Option t.Time) where
    -- The minimum is not after the time of any object, and the maximum not before.
    pub min_of-StartsWithin :
        (xs : List A) → All (λ x. StartsWithin (min_of t (present t (map time xs))) (time x)) xs
    min_of-StartsWithin [] = tt
    min_of-StartsWithin (x ∷ xs) = (
      StartsWithin-head (time x) (map time xs),
      All-map (λ y. StartsWithin (min_of t (present t (map time xs))) (time y))
          (λ y. StartsWithin (min_of t (present t (map time (x ∷ xs)))) (time y)) xs
          (λ y h. StartsWithin-tail (time x) (time y) (map time xs) h) (min_of-StartsWithin xs),
    )

    pub max_of-EndsWithin :
        (xs : List A) → All (λ x. EndsWithin (max_of t (present t (map time xs))) (time x)) xs
    max_of-EndsWithin [] = tt
    max_of-EndsWithin (x ∷ xs) = (
      EndsWithin-head (time x) (map time xs),
      All-map (λ y. EndsWithin (max_of t (present t (map time xs))) (time y))
          (λ y. EndsWithin (max_of t (present t (map time (x ∷ xs)))) (time y)) xs
          (λ y h. EndsWithin-tail (time x) (time y) (map time xs) h) (max_of-EndsWithin xs),
    )
