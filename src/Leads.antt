-- ===== src/Leads.antt =====
-- Chains through hidden nodes: what `explore_node` of Graph.js looks for in the graph, and
-- `remap_parents` of xtrace_utils.js in the reports.
use tracing_framework.Prelude.{
  String, [], ◌∷◌, Bool, ◌≡◌, true, false, ◌⊎◌, ◌==◌, arith, subst, inl, inr, eq_iff, eq_refl,
  Bool-cases,
}
use tracing_framework.Prelude.KeySet.{KeySet, contains}

module _ (vis : String → Bool) (next : String → KeySet) where
  -- The nearest visible nodes: a neighbour that is visible, or one found through a hidden neighbour.
  pub data Leads : String → String → Type 0 where
    direct : {a p : String} → contains p (next a) ≡ true → vis p ≡ true → Leads a p
    through : {a q p : String} → contains q (next a) ≡ true → vis q ≡ false → Leads q p → Leads a p

  -- What the neighbours `ps` of a node lead to.
  abbrev pub Found : KeySet → String → Type 0
  Found [] x = ⊥
  Found (p ∷ ps) x = ((vis p ≡ true) × (p ≡ x)) ⊎ ((vis p ≡ false) × Leads p x) ⊎ Found ps x

  -- What the loop finds among all neighbours is what leads on from the node.
  pub Found→Leads :
      (a x : String) (ps : KeySet)
      → ((p : String) → contains p ps ≡ true → contains p (next a) ≡ true)
      → Found ps x
      → Leads a x
  unfolding contains
  Found→Leads a x [] inside h = absurd h
  Found→Leads a x (p ∷ ps) inside (inl (v, e)) =
      subst (Leads a) e (direct (inside p (ground (arith, eq_refl p))) v)
  Found→Leads a x (p ∷ ps) inside (inr (inl (v, l))) =
      through (inside p (ground (arith, eq_refl p))) v l
  Found→Leads a x (p ∷ ps) inside (inr (inr h)) =
      Found→Leads a x ps (λ q k. inside q (ground arith)) h

  direct-Found : (x : String) (ps : KeySet) → contains x ps ≡ true → vis x ≡ true → Found ps x
  unfolding contains
  direct-Found x [] h v = absurd (ground arith)
  direct-Found x (p ∷ ps) h v = ground (arith, eq_iff p x, direct-Found x ps)

  through-Found :
      (q x : String) (ps : KeySet) → contains q ps ≡ true → vis q ≡ false → Leads q x → Found ps x
  unfolding contains
  through-Found q x [] h v l = absurd (ground arith)
  through-Found q x (p ∷ ps) h v l = elim (Bool-cases (p == q)) [
    | inl e ↦ let e' : q ≡ p = cc ((eq_iff p q).0 e) in inr (inl (cc, subst (λ z. Leads z x) e' l))
    | inr e ↦ inr (inr (through-Found q x ps (ground arith) v l))
  ]

  pub Leads→Found : {a x : String} → Leads a x → Found (next a) x
  Leads→Found (direct {a} {p} h v) = direct-Found p (next a) h v
  Leads→Found (through {a} {q} {p} h v l) = through-Found q p (next a) h v l

  Leads-vis : {a p : String} → Leads a p → vis p ≡ true
  Leads-vis (direct h v) = v
  Leads-vis (through h v l) = Leads-vis l

  -- What a chain leads to is visible.
  pub visible_of_Leads : (a p : String) → Leads a p → vis p ≡ true
  visible_of_Leads a p l = Leads-vis l
