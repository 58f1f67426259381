-- ===== src/Prelude/Dict.antt =====
-- JavaScript objects as maps from keys to values: an association list in the order of insertion.
use tracing_framework.Prelude.Tests.{if◌then◌else◌, is_some, get_or}
use tracing_framework.Prelude.KeySet.{KeySet, contains, IsDistinct}
use Prim.Native.String.{String}
use text.Mathlib.Text.{◌==◌}
use text.Mathlib.TextEquality.{eq_iff}
use mathlib.Core.Path.{◌≡◌, refl}
use mathlib.Core.Bool.{Bool, not, ◌&&◌, ◌||◌}
use mathlib.Core.Option.{Option, none, some}
use mathlib.Core.List.{List, [], ◌∷◌}
use native.Mathlib.Omega.{arith}

abbrev pub Dict {ℓ} : Type ℓ → Type ℓ
Dict V = List (String × V)

module _ {ℓ} {V : Type ℓ} where
  -- `d[k]`, where a missing key gives `undefined`
  unfoldable pub get : Dict V → String → Option V
  get [] k = none
  get ((j, v) ∷ d) k = if j == k then some v else get d k

  -- `d.hasOwnProperty(k)`
  abbrev pub has : Dict V → String → Bool
  has d k = is_some (get d k)

  -- `d[k] = v`: a key that is there keeps its place
  unfoldable pub put : String → V → Dict V → Dict V
  put k v [] = (k, v) ∷ []
  put k v ((j, w) ∷ d) = if j == k then (k, v) ∷ d else (j, w) ∷ put k v d

  -- `delete d[k]`
  unfoldable pub del : String → Dict V → Dict V
  del k [] = []
  del k ((j, v) ∷ d) = let rest = del k d in if j == k then rest else (j, v) ∷ rest

  -- `Object.keys(d)`
  unfoldable pub keys : Dict V → KeySet
  keys [] = []
  keys ((k, v) ∷ d) = k ∷ keys d

  pub get-put :
      (k j : String) (v : V) (d : Dict V) → get (put k v d) j ≡ (if k == j then some v else get d j)
  unfolding get put
  get-put k j v [] = refl
  get-put k j v ((i, w) ∷ d) = ground (arith, eq_iff k j, eq_iff i k, eq_iff i j, get-put k j v d)

  pub get-del : (k j : String) (d : Dict V) → get (del k d) j ≡ (if k == j then none else get d j)
  unfolding get del
  get-del k j [] = ground arith
  get-del k j ((i, w) ∷ d) = ground (arith, eq_iff k j, eq_iff i k, eq_iff i j, get-del k j d)

  pub contains-keys : (k : String) (d : Dict V) → contains k (keys d) ≡ has d k
  unfolding get keys contains
  contains-keys k [] = refl
  contains-keys k ((j, v) ∷ d) = ground (arith, contains-keys k d)

  pub contains-keys-put :
      (k j : String) (v : V) (d : Dict V)
      → contains j (keys (put k v d)) ≡ (k == j || contains j (keys d))
  contains-keys-put k j v d =
      ground (arith, contains-keys j (put k v d), contains-keys j d, get-put k j v d)

  -- Writing and deleting leave no key twice.
  pub put-IsDistinct :
      (k : String) (v : V) (d : Dict V) → IsDistinct (keys d) → IsDistinct (keys (put k v d))
  unfolding put keys contains
  put-IsDistinct k v [] h = (refl, tt)
  put-IsDistinct k v ((j, w) ∷ d) h =
      ground (arith, eq_iff j k, eq_iff k j, contains-keys-put k j v d, put-IsDistinct k v d)

  pub contains-keys-del :
      (k j : String) (d : Dict V)
      → contains j (keys (del k d)) ≡ (not (k == j) && contains j (keys d))
  contains-keys-del k j d =
      ground (arith, contains-keys j (del k d), contains-keys j d, get-del k j d)

  pub del-IsDistinct : (k : String) (d : Dict V) → IsDistinct (keys d) → IsDistinct (keys (del k d))
  unfolding del keys contains
  del-IsDistinct k [] h = tt
  del-IsDistinct k ((j, w) ∷ d) h = ground (arith, contains-keys-del k j d, del-IsDistinct k d)

-- The keys of `d[k]`; none where there is no such set.
abbrev pub set_at : Dict KeySet → String → KeySet
set_at d k = get_or (get d k) []

pub set_at-put :
    (k j : String) (s : KeySet) (d : Dict KeySet)
    → set_at (put k s d) j ≡ (if k == j then s else set_at d j)
set_at-put k j s d = ground (arith, get-put k j s d)

pub set_at-del :
    (k j : String) (d : Dict KeySet) → set_at (del k d) j ≡ (if k == j then [] else set_at d j)
set_at-del k j d = ground (arith, get-del k j d)
