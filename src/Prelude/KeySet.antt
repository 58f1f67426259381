-- ===== src/Prelude/KeySet.antt =====
-- Objects that the code uses as sets of keys, `{id: true, ...}`: the keys in the order of insertion.
use tracing_framework.Prelude.Tests.{if◌then◌else◌, Bool-cases}
use tracing_framework.Prelude.Lists.{filter}
use mathlib.Core.Logic.{inl, inr}
use Prim.Native.String.{String}
use text.Mathlib.Text.{◌==◌}
use text.Mathlib.TextEquality.{eq_iff}
use text.Mathlib.TextPositions.{eq_refl}
use mathlib.Core.Path.{◌≡◌, refl, ap}
use mathlib.Core.Bool.{Bool, false, not, ◌&&◌, ◌||◌}
use mathlib.Core.List.{List, [], ◌∷◌, ◌++◌}
use native.Mathlib.Omega.{arith}

abbrev pub KeySet : Type 0
KeySet = List String

-- `k in s`, and `s.indexOf(k) != -1` on an array
unfoldable pub contains : String → KeySet → Bool
contains k [] = false
contains k (j ∷ s) = j == k || contains k s

-- `s[k] = true`
unfoldable pub add : String → KeySet → KeySet
add k s = if contains k s then s else s ++ k ∷ []

-- `delete s[k]`
unfoldable pub remove : String → KeySet → KeySet
remove k [] = []
remove k (j ∷ s) = let rest = remove k s in if j == k then rest else j ∷ rest

-- `for (k in t) s[k] = true`
unfoldable pub union : KeySet → KeySet → KeySet
union s [] = s
union s (k ∷ t) = union (add k s) t

pub contains-append :
    (k : String) (s t : KeySet) → contains k (s ++ t) ≡ (contains k s || contains k t)
unfolding contains
contains-append k [] t = refl
contains-append k (j ∷ s) t = ground (arith, contains-append k s t)

pub contains-add : (j k : String) (s : KeySet) → contains j (add k s) ≡ (k == j || contains j s)
unfolding add contains
contains-add j k s = ground (arith, contains-append j s (k ∷ []), eq_iff k j, eq_refl k)

pub contains-remove :
    (j k : String) (s : KeySet) → contains j (remove k s) ≡ (not (k == j) && contains j s)
unfolding remove contains
contains-remove j k [] = ground arith
contains-remove j k (i ∷ s) =
    ground (arith, contains-remove j k s, eq_iff i k, eq_iff i j, eq_iff k j)

pub contains-union :
    (j : String) (s t : KeySet) → contains j (union s t) ≡ (contains j s || contains j t)
unfolding union contains
contains-union j s [] = ground arith
contains-union j s (k ∷ t) = ground (arith, contains-union j (add k s) t, contains-add j k s)

-- No key twice, as in every object.
abbrev pub IsDistinct : KeySet → Type 0
IsDistinct [] = Unit {0}
IsDistinct (k ∷ s) = (contains k s ≡ false) × IsDistinct s

IsDistinct-append :
    (k : String) (s : KeySet) → contains k s ≡ false → IsDistinct s → IsDistinct (s ++ k ∷ [])
unfolding contains
IsDistinct-append k [] h d = (refl, tt)
IsDistinct-append k (j ∷ s) h d = (
  ground (arith, contains-append j s (k ∷ []), eq_iff j k, eq_iff k j),
  IsDistinct-append k s (ground arith) d.1,
)

pub add-IsDistinct : (k : String) (s : KeySet) → IsDistinct s → IsDistinct (add k s)
unfolding add
add-IsDistinct k s d = elim (Bool-cases (contains k s)) [
  | inl e ↦ ground arith
  | inr e ↦ ground (arith, IsDistinct-append k s e d)
]

pub union-IsDistinct : (s t : KeySet) → IsDistinct s → IsDistinct (union s t)
unfolding union
union-IsDistinct s [] d = d
union-IsDistinct s (k ∷ t) d = union-IsDistinct (add k s) t (add-IsDistinct k s d)

pub contains-filter :
    (p : String → Bool) (k : String) (xs : List String)
    → contains k (filter p xs) ≡ (contains k xs && p k)
unfolding contains
contains-filter p k [] = refl
contains-filter p k (x ∷ xs) = elim (Bool-cases (x == k)) [
  | inl same ↦ ground (arith, contains-filter p k xs, ap p ((eq_iff x k).0 same))
  | inr other ↦ ground (arith, contains-filter p k xs)
]
