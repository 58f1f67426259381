-- ===== src/KernelGraph/Rewire.antt =====
-- The two loops of `remove`.
use tracing_framework.Prelude.{
  String, [], ◌∷◌, ◌≡◌, refl, ◌==◌, false, not, ◌||◌, ◌&&◌, if◌then◌else◌, arith, eq_iff,
}
use tracing_framework.Prelude.KeySet.{
  KeySet, contains, remove, union, contains-remove, contains-union,
}
use tracing_framework.Prelude.Dict.{Dict, has, put, get-put, set_at, set_at-put}
use tracing_framework.KernelGraph.Defs.{rewire, rewire_all}

has-rewire : (n k j : String) (d : Dict KeySet) → has (rewire n k d) j ≡ has d j
unfolding rewire
has-rewire n k j d =
    let d1 = put k (remove n (set_at d k)) d in
    ground (
      arith,
      get-put k j (remove n (set_at d k)) d,
      eq_iff k j,
      get-put k j (union (set_at d1 k) (set_at d1 n)) d1,
    )

pub has-rewire_all :
    (n : String) (ks : KeySet) (j : String) (d : Dict KeySet) → has (rewire_all n ks d) j ≡ has d j
unfolding rewire_all
has-rewire_all n [] j d = refl
has-rewire_all n (k ∷ ks) j d =
    ground (arith, has-rewire_all n ks j (rewire n k d), has-rewire n k j d)

-- One round, at an entry other than the removed node's.
contains-rewire :
    (n k j x : String) (d : Dict KeySet)
    → (k == n) ≡ false
    → contains x (set_at (rewire n k d) j) ≡ (
        if k == j && has d j
        then not (n == x) && contains x (set_at d j) || contains x (set_at d n)
        else contains x (set_at d j))
unfolding rewire
contains-rewire n k j x d h =
    let s1 = remove n (set_at d k) in
    let d1 = put k s1 d in
    ground (
      arith,
      set_at-put k j s1 d,
      set_at-put k k s1 d,
      set_at-put k n s1 d,
      eq_iff k j,
      eq_iff k k,
      set_at-put k j (union (set_at d1 k) (set_at d1 n)) d1,
      contains-remove x n (set_at d k),
      contains-union x (set_at d1 k) (set_at d1 n),
    )

rewire_keeps :
    (n k : String) (d : Dict KeySet) → (k == n) ≡ false → set_at (rewire n k d) n ≡ set_at d n
unfolding rewire
rewire_keeps n k d h =
    let s1 = remove n (set_at d k) in
    let d1 = put k s1 d in
    ground (arith, set_at-put k n s1 d, set_at-put k n (union (set_at d1 k) (set_at d1 n)) d1)

-- Without a loop at the removed node, each neighbour's entry loses the node and gains its neighbours.
pub contains-rewire_all :
    (n : String) (ks : KeySet) (j x : String) (d : Dict KeySet)
    → contains n ks ≡ false
    → contains x (set_at (rewire_all n ks d) j) ≡ (
        if contains j ks && has d j
        then not (n == x) && contains x (set_at d j) || contains x (set_at d n)
        else contains x (set_at d j))
unfolding rewire_all contains
contains-rewire_all n [] j x d h = refl
contains-rewire_all n (k ∷ ks) j x d h = ground (
  arith,
  contains-rewire_all n ks j x (rewire n k d),
  contains-rewire n k j x d,
  rewire_keeps n k d,
  has-rewire n k j d,
)

pub rewire_all_keeps :
    (n : String) (ks : KeySet) (d : Dict KeySet)
    → contains n ks ≡ false
    → set_at (rewire_all n ks d) n ≡ set_at d n
unfolding rewire_all contains
rewire_all_keeps n [] d h = refl
rewire_all_keeps n (k ∷ ks) d h =
    ground (arith, rewire_all_keeps n ks (rewire n k d), rewire_keeps n k d)
