-- ===== src/KernelGraph/Link.antt =====
-- `link`.
use tracing_framework.Prelude.{String, ◌≡◌, ◌==◌, ◌||◌, ◌&&◌, arith, eq_iff}
use tracing_framework.Prelude.KeySet.{contains, contains-add, add}
use tracing_framework.Prelude.Dict.{has, get-put, set_at, set_at-put}
use tracing_framework.KernelGraph.Defs.{KernelGraph, link}
use tracing_framework.KernelGraph.IsWf.{IsWf, edge}

-- `link` adds exactly the edge that it is called with, and only if both nodes are in the graph.
pub edge-link :
    (g : KernelGraph) (pid cid p c : String)
    → edge (link g pid cid) p c
      ≡ (edge g p c || has g.nodes pid && has g.nodes cid && (pid == p) && (cid == c))
unfolding link
edge-link g pid cid p c = ground (
  arith,
  set_at-put cid c (add pid (set_at g.parents cid)) g.parents,
  eq_iff cid c,
  contains-add p pid (set_at g.parents cid),
)

edge-link_children :
    (g : KernelGraph) (pid cid p c : String)
    → contains c (set_at (link g pid cid).children p) ≡ (
        contains c (set_at g.children p)
        || has g.nodes pid && has g.nodes cid && (pid == p) && (cid == c))
unfolding link
edge-link_children g pid cid p c = ground (
  arith,
  set_at-put pid p (add cid (set_at g.children pid)) g.children,
  eq_iff pid p,
  contains-add c cid (set_at g.children pid),
)

pub nodes-link : (g : KernelGraph) (pid cid : String) → (link g pid cid).nodes ≡ g.nodes
unfolding link
nodes-link g pid cid = ground arith

pub labels-link : (g : KernelGraph) (pid cid : String) → (link g pid cid).labels ≡ g.labels
unfolding link
labels-link g pid cid = ground arith

-- `link` keeps the graph well formed.
pub link-IsWf : (g : KernelGraph) (pid cid : String) → IsWf g → IsWf (link g pid cid)
unfolding link
link-IsWf g pid cid w = record {
  parents_keys = λ k. ground (
    arith,
    get-put cid k (add pid (set_at g.parents cid)) g.parents,
    w.parents_keys k,
    w.parents_keys cid,
    eq_iff cid k,
  );
  children_keys = λ k. ground (
    arith,
    get-put pid k (add cid (set_at g.children pid)) g.children,
    w.children_keys k,
    w.children_keys pid,
    eq_iff pid k,
  );
  symmetric = λ p c.
      ground (arith, edge-link g pid cid p c, edge-link_children g pid cid p c, w.symmetric p c);
  closed = λ p c h.
      ground (arith, edge-link g pid cid p c, nodes-link g pid cid, w.closed p c, eq_iff pid p);
  node_ids = λ k n h. w.node_ids k n (ground (arith, nodes-link g pid cid));
  distinct = rw (nodes-link g pid cid) w.distinct;
  labelled = λ k l. ground (arith, nodes-link g pid cid, labels-link g pid cid, w.labelled k l);
  used = λ l. ground (arith, labels-link g pid cid, w.used l);
}
