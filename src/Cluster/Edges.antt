-- ===== src/Cluster/Edges.antt =====
-- What the page has drawn after some answers.
use tracing_framework.Prelude.{
  append-one, append-empty, subst, ℕ, suc, ◌+◌, String, List, [], ◌∷◌, ◌++◌, Bool, false, ◌||◌,
  ◌==◌, ◌≡◌, refl, sym, ap, arith, length, ◌<◌, leb, if◌then◌else◌,
}
use tracing_framework.Prelude.KeySet.{contains, add, contains-add, add-IsDistinct, IsDistinct}
use tracing_framework.Cluster.Defs.{
  Progress, Edge, ClusterPage, new_page, give_task, worker_on_message,
}
use tracing_framework.Cluster.Tasks.{after, task_after, pairs, after_lem}

-- The page after the first task has been given, and after each of these answers.
abbrev pub kicked_off : ℕ → ClusterPage
kicked_off n = record (new_page n) { state = after n 1 }

abbrev pub answered : List Edge → ClusterPage → ClusterPage
answered [] s = s
answered (e ∷ es) s = answered es (worker_on_message e s).1

abbrev pub is_end : String → List Edge → Bool
is_end k [] = false
is_end k (e ∷ es) = e.source == k || e.target == k || is_end k es

is_end-append :
    (k : String) (es fs : List Edge) → is_end k (es ++ fs) ≡ (is_end k es || is_end k fs)
is_end-append k [] fs = refl
is_end-append k (e ∷ es) fs = ground (arith, is_end-append k es fs)

-- The pair that the page has come to after `m` tasks: the pairs before it are those given, and after all
-- of them the page stays behind the last one.
pub record IsAt (n m : ℕ) (s : Progress) : Type 0 where
  pub below : s.j < s.i
  pub number : pairs s.i + s.j ≡ (if leb m (pairs n) then m else pairs n)

after-IsAt : (n m : ℕ) → 0 < n → IsAt n m (after n m)
after-IsAt n m h =
    let (i, j, below, number, e) = after_lem n m h in
    subst (IsAt n m) (sym e) (record { below = below; number = number })

-- The state of the page after `m` tasks.
pub record IsDrawn (n m : ℕ) (es : List Edge) (s : ClusterPage) : Type 0 where
  pub traces : s.traces ≡ n
  pub state : s.state ≡ after n m
  pub edges : s.edges ≡ es
  pub nodes : (k : String) → contains k s.nodes ≡ is_end k es
  pub distinct : IsDistinct s.nodes

zero-plus : (m : ℕ) → 0 + m ≡ m
zero-plus m = omega arith

-- An answer is drawn, and the worker gets the next task.
worker_on_message-IsDrawn :
    (n m : ℕ) (es : List Edge) (s : ClusterPage) (e : Edge)
    → IsDrawn n m es s
    → ((worker_on_message e s).0 ≡ task_after n m)
      × IsDrawn n (suc m) (es ++ e ∷ []) (worker_on_message e s).1
unfolding worker_on_message
worker_on_message-IsDrawn n m es s e d =
    let given : give_task s.traces s.state ≡ give_task n (after n m) = cc (d.traces, d.state) in
    (
      ap (λ g. g.0) given,
      record {
        traces = d.traces;
        state = ap (λ g. g.1) given;
        edges = ap (λ z. z ++ e ∷ []) d.edges;
        nodes = λ k. ground (
          arith,
          contains-add k e.target (add e.source s.nodes),
          contains-add k e.source s.nodes,
          d.nodes k,
          is_end-append k es (e ∷ []),
        );
        distinct =
            add-IsDistinct e.target (add e.source s.nodes)
              (add-IsDistinct e.source s.nodes d.distinct);
      },
    )

answered-IsDrawn :
    (n m : ℕ) (drawn es : List Edge) (s : ClusterPage)
    → IsDrawn n m drawn s
    → IsDrawn n (length es + m) (drawn ++ es) (answered es s)
answered-IsDrawn n m drawn [] s d =
    subst (λ k. IsDrawn n k (drawn ++ []) s) (sym (zero-plus m))
      (subst (λ z. IsDrawn n m z s) (sym (append-empty drawn)) d)
answered-IsDrawn n m drawn (e ∷ es) s d =
    let index : length es + suc m ≡ suc (length es) + m = omega arith in
    subst (λ k. IsDrawn n k (drawn ++ e ∷ es) (answered es (worker_on_message e s).1)) index
      (subst (λ z. IsDrawn n (length es + suc m) z (answered es (worker_on_message e s).1))
        (append-one drawn e es)
        (answered-IsDrawn n (suc m) (drawn ++ e ∷ []) es (worker_on_message e s).1
          (worker_on_message-IsDrawn n m drawn s e d).1))

-- For at least one trace: after any answers the page draws one edge for each of them, in the order of the
-- answers, and exactly the traces at the ends of these edges, each once; the pairs that it has given are
-- one more than there were answers, or all pairs, if these are fewer.
pub answered_lem :
    (n : ℕ) (es : List Edge)
    → 0 < n
    → ((answered es (kicked_off n)).edges ≡ es)
      × ((k : String) → contains k (answered es (kicked_off n)).nodes ≡ is_end k es)
      × IsDistinct (answered es (kicked_off n)).nodes
      × IsAt n (length es + 1) (answered es (kicked_off n)).state
unfolding contains
answered_lem n es h =
    let d =
      answered-IsDrawn n 1 [] es (kicked_off n)
        record { traces = refl; state = refl; edges = refl; nodes = λ k. refl; distinct = tt } in
    (
      d.edges,
      d.nodes,
      d.distinct,
      subst (IsAt n (length es + 1)) (sym d.state) (after-IsAt n (length es + 1) h),
    )
