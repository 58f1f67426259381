-- ===== src/KernelGraph/Labels.antt =====
-- The map from labels to the nodes that have them, under `put_label` and `drop_label`.
use tracing_framework.Prelude.{
  String, none, some, [], ◌∷◌, ◌≡◌, ◌==◌, not, ◌&&◌, ◌||◌, ◌≢◌, if◌then◌else◌, arith, eq_iff,
  eq_refl, List-cases, inl, inr,
}
use tracing_framework.Prelude.KeySet.{KeySet, contains, add, remove, contains-add, contains-remove}
use tracing_framework.Prelude.Dict.{Dict, get, put, get-put, get-del, set_at}
use tracing_framework.KernelGraph.Defs.{put_label, drop_label}

add-ne-nil : (k : String) (s : KeySet) → add k s ≢ []
unfolding contains
add-ne-nil k s h = ground (arith, contains-add k k s, eq_refl k)

pub get-put_label :
    (l j k : String) (d : Dict KeySet)
    → get (put_label l k d) j ≡ (if l == j then some (add k (set_at d l)) else get d j)
unfolding put_label
get-put_label l j k d = ground (
  arith,
  get-put l j [] d,
  get-put l l [] d,
  get-put l j (add k []) (put l [] d),
  get-put l j (add k (set_at d l)) d,
  eq_refl l,
)

pub contains-put_label :
    (l j k x : String) (d : Dict KeySet)
    → contains x (set_at (put_label l k d) j) ≡ (l == j && k == x || contains x (set_at d j))
contains-put_label l j k x d =
    ground (arith, get-put_label l j k d, eq_iff l j, contains-add x k (set_at d l))

pub put_label-used :
    (l j k : String) (d : Dict KeySet) → get d j ≢ some [] → get (put_label l k d) j ≢ some []
put_label-used l j k d h = ground (arith, get-put_label l j k d, add-ne-nil k (set_at d l))

pub get-drop_label :
    (l j k : String) (ids : KeySet) (d : Dict KeySet)
    → get (drop_label l k ids d) j
      ≡ (if l == j then elim (remove k ids) [ [] ↦ none | x ∷ xs ↦ some (x ∷ xs) ] else get d j)
unfolding drop_label
get-drop_label l j k ids d = elim (List-cases (remove k ids)) [
  | inl e ↦ rw (e, drop_label) (get-del l j d)
  | inr (x, xs, e) ↦ rw (e, drop_label) (get-put l j (x ∷ xs) d)
]

pub contains-drop_label :
    (l j k x : String) (ids : KeySet) (d : Dict KeySet)
    → get d l ≡ some ids
    → contains x (set_at (drop_label l k ids d) j)
      ≡ (not (l == j && k == x) && contains x (set_at d j))
unfolding contains
contains-drop_label l j k x ids d h =
    ground (arith, get-drop_label l j k ids d, eq_iff l j, contains-remove x k ids)

pub drop_label-used :
    (l j k : String) (ids : KeySet) (d : Dict KeySet)
    → get d j ≢ some []
    → get (drop_label l k ids d) j ≢ some []
drop_label-used l j k ids d h = ground (arith, get-drop_label l j k ids d)
