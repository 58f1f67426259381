-- ===== src/KernelGraph/IsWf.antt =====
-- The invariant of a kernel graph.
use tracing_framework.Prelude.{String, Option, none, some, ◌≡◌, ◌==◌, Bool, true, false, ◌≢◌, []}
use tracing_framework.Prelude.KeySet.{contains, IsDistinct}
use tracing_framework.Prelude.Dict.{get, has, keys, set_at}
use tracing_framework.KernelGraph.Defs.{KernelNode, KernelGraph}

-- An edge from a parent to a child.
abbrev pub edge : KernelGraph → String → String → Bool
edge g p c = contains p (set_at g.parents c)

abbrev pub label_is : Option KernelNode → String → Bool
label_is none l = false
label_is (some n) l = n.label == l

pub record IsWf (g : KernelGraph) : Type 0 where
  -- the three maps have the same keys
  pub parents_keys : (k : String) → has g.parents k ≡ has g.nodes k
  pub children_keys : (k : String) → has g.children k ≡ has g.nodes k
  -- the two maps hold the same edges, between nodes of the graph
  pub symmetric : (p c : String) → contains c (set_at g.children p) ≡ edge g p c
  pub closed : (p c : String) → edge g p c ≡ true → has g.nodes p ≡ true
  pub node_ids : (k : String) (n : KernelNode) → get g.nodes k ≡ some n → n.id ≡ k
  pub distinct : IsDistinct (keys g.nodes)
  -- the set of a label holds the nodes of that label, and no set is empty
  pub labelled : (k l : String) → contains k (set_at g.labels l) ≡ label_is (get g.nodes k) l
  pub used : (l : String) → get g.labels l ≢ some []
