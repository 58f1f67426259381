-- ===== src/Graph/Chain.antt =====
-- Chains of edges through hidden nodes, and their reversal.
use tracing_framework.Prelude.{String, Bool, ◌≡◌, true, false, arith}
use tracing_framework.Prelude.KeySet.{KeySet, contains}
use tracing_framework.Leads.{Leads, direct, through}

module _ (vis : String → Bool) where
  data Chain (next : String → KeySet) : String → String → Type 0 where
    edge : {a p : String} → contains p (next a) ≡ true → Chain next a p
    step :
        {a q p : String}
        → contains q (next a) ≡ true
        → vis q ≡ false
        → Chain next q p
        → Chain next a p

  snoc :
      (next : String → KeySet) {a q p : String}
      → Chain next a q
      → vis q ≡ false
      → contains p (next q) ≡ true
      → Chain next a p
  snoc next (edge h) v k = step h v (edge k)
  snoc next (step h w c) v k = step h w (snoc next c v k)

  Leads→Chain : (next : String → KeySet) {a p : String} → Leads vis next a p → Chain next a p
  Leads→Chain next (direct h v) = edge h
  Leads→Chain next (through h v l) = step h v (Leads→Chain next l)

  Chain→Leads :
      (next : String → KeySet) {a p : String} → Chain next a p → vis p ≡ true → Leads vis next a p
  Chain→Leads next (edge h) v = direct h v
  Chain→Leads next (step h w c) v = through h w (Chain→Leads next c v)

  -- Two maps hold the same edges, in opposite directions.
  module _ (up down : String → KeySet)
      (opposite : (a b : String) → contains b (up a) ≡ contains a (down b)) where
    Chain-reverse : {a p : String} → Chain up a p → Chain down p a
    Chain-reverse (edge {a} {p} h) = edge (ground (arith, opposite a p))
    Chain-reverse (step {a} {q} {p} h v c) =
        snoc down (Chain-reverse c) v (ground (arith, opposite a q))

    pub Leads-reverse : (a p : String) → vis a ≡ true → Leads vis up a p → Leads vis down p a
    Leads-reverse a p v l = Chain→Leads down (Chain-reverse (Leads→Chain up l)) v
