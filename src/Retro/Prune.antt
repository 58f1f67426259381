-- ===== src/Retro/Prune.antt =====
-- Pruning a series.
use tracing_framework.Prelude.{
  ℕ, suc, ◌≤◌, List, [], ◌∷◌, ltb, nat_eq, ◌≡◌, refl, ◌&&◌, arith, Bool-cases, Option-cases, inl,
  inr, subst, ◌⊎◌, filter, not,
}
use tracing_framework.Retro.Amount.{Amount}
use tracing_framework.Retro.Series.{
  Element, Series, has_time, cut, cut_map, pruned, prune, last_time,
}
use tracing_framework.Retro.Steps.{times, Ascends, usage_from, usage_at, IsSound, has_time-above}

module _ (u : Amount) where
  has_time-filter :
      (q t : ℕ) (ts : List ℕ)
      → has_time u t (filter (λ x. not (nat_eq x q)) ts) ≡ (not (nat_eq q t) && has_time u t ts)
  unfolding has_time
  has_time-filter q t [] = ground arith
  has_time-filter q t (x ∷ ts) = ground (arith, has_time-filter q t ts)

  cut-Ascends : (m lo : ℕ) (es : List (Element u)) → Ascends u lo es → Ascends u lo (cut u m es)
  unfolding cut
  cut-Ascends m lo [] a = tt
  cut-Ascends m lo (e ∷ []) a = a
  cut-Ascends m lo (e ∷ f ∷ []) a = a
  cut-Ascends m lo (e ∷ f ∷ g ∷ es) a = ground (arith, cut-Ascends m lo (f ∷ g ∷ es))

  cut-usage :
      (m x lo : ℕ) (acc : u.Carrier) (es : List (Element u))
      → Ascends u lo es
      → m ≤ x
      → usage_from u acc x (cut u m es) ≡ usage_from u acc x es
  unfolding cut usage_from
  cut-usage m x lo acc [] a h = refl
  cut-usage m x lo acc (e ∷ []) a h = refl
  cut-usage m x lo acc (e ∷ f ∷ []) a h = refl
  cut-usage m x lo acc (e ∷ f ∷ g ∷ es) a h =
      ground (arith, cut-usage m x (suc e.time) acc (f ∷ g ∷ es) a.1)

  cut-mapped :
      (m lo t : ℕ) (es : List (Element u)) (ts : List ℕ)
      → Ascends u lo es
      → has_time u t ts ≡ has_time u t (times u es)
      → has_time u t (cut_map u m es ts) ≡ has_time u t (times u (cut u m es))
  unfolding cut cut_map has_time
  cut-mapped m lo t [] ts a h = h
  cut-mapped m lo t (e ∷ []) ts a h = h
  cut-mapped m lo t (e ∷ f ∷ []) ts a h = h
  cut-mapped m lo t (e ∷ f ∷ g ∷ es) ts a h =
      let less = filter (λ x. not (nat_eq x e.time)) ts in
      let above = has_time-above u e.time (suc e.time) (f ∷ g ∷ es) a.1 in
      ground (
        arith,
        cut-mapped m (suc e.time) t (f ∷ g ∷ es) less a.1,
        has_time-filter e.time t ts,
        above,
      )

  pruned-IsSound : (m : ℕ) (s : Series u) → IsSound u s → IsSound u (pruned u m s)
  unfolding pruned
  pruned-IsSound m s v = record {
    ascends = cut-Ascends m 0 s.elements v.ascends;
    mapped = λ t. cut-mapped m 0 t s.elements s.elementsmap v.ascends (v.mapped t);
  }

  prune-cases : (m : ℕ) (s : Series u) → (s ≡ (prune u m s).0) ⊎ (pruned u m s ≡ (prune u m s).0)
  unfolding prune
  prune-cases m s = elim (Option-cases (last_time u s.elements)) [
    | inl e ↦ inr (ground arith)
    | inr (t, e) ↦ elim (Bool-cases (ltb t m)) [
      | inl out ↦ inl (ground arith)
      | inr stays ↦ inr (ground arith)
    ]
  ]

  -- Pruning keeps a series sound, and leaves the usage at every time from `minvalue` on as it was.
  pub prune_lem :
      (m : ℕ) (s : Series u)
      → IsSound u s
      → IsSound u (prune u m s).0
        × ((x : ℕ) → m ≤ x → usage_at u x (prune u m s).0 ≡ usage_at u x s)
  unfolding usage_at pruned
  prune_lem m s v = elim (prune-cases m s) [
    | inl same ↦
        subst (λ z. IsSound u z × ((x : ℕ) → m ≤ x → usage_at u x z ≡ usage_at u x s)) same
          (v, λ x h. refl)
    | inr same ↦
        subst (λ z. IsSound u z × ((x : ℕ) → m ≤ x → usage_at u x z ≡ usage_at u x s)) same
          (pruned-IsSound m s v, λ x h. cut-usage m x 0 u.nothing s.elements v.ascends h)
  ]
