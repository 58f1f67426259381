-- ===== src/Filter/Maps.antt =====
-- The three maps, for reports with different ids.
use tracing_framework.Prelude.{
  ℕ, suc, ◌+◌, String, Option, none, some, List, [], ◌∷◌, ◌++◌, Bool, true, false, ◌≡◌, refl, not,
  ◌==◌, if◌then◌else◌, arith, eq_iff, eq_refl, filter, Bool-cases, inl, inr, sym,
}
use mathlib.Core.List.{append-nil, append_assoc}
use tracing_framework.Prelude.KeySet.{KeySet, contains, IsDistinct}
use tracing_framework.Prelude.Dict.{Dict, get, put, keys, get-put}
use tracing_framework.Report.{Report, as_key}
use tracing_framework.Filter.Defs.{Maps, sort_report, sort_reports, report_at}

abbrev pub key : Report → String
key r = as_key r.event_id

abbrev pub ids_of : List Report → KeySet
ids_of [] = []
ids_of (r ∷ rs) = key r ∷ ids_of rs

-- The first report of an id, and its position, counted from `i`.
unfoldable pub locate : ℕ → List Report → String → Option (ℕ × Report)
locate i [] a = none
locate i (r ∷ rs) a = if key r == a then some (i, r) else locate (suc i) rs a

pub locate-key :
    (i : ℕ) (rs : List Report) (a : String) (j : ℕ) (r : Report)
    → locate i rs a ≡ some (j, r)
    → (key r ≡ a) × ((k : ℕ) × (j ≡ i + k) × (report_at rs k ≡ some r))
unfolding locate
locate-key i [] a j r h = absurd (ground arith)
locate-key i (q ∷ rs) a j r h = elim (Bool-cases (key q == a)) [
  | inl e ↦ (ground (arith, eq_iff (key q) a), (0, ground arith, ground arith))
  | inr e ↦
      let (same, (k, at, found)) = locate-key (suc i) rs a j r (ground arith) in
      (same, (suc k, omega arith, found))
]

pub locate-contains :
    (i : ℕ) (rs : List Report) (a : String)
    → contains a (ids_of rs) ≡ true
    → (j : ℕ) × (r : Report) × (locate i rs a ≡ some (j, r))
unfolding locate contains
locate-contains i [] a h = absurd (ground arith)
locate-contains i (q ∷ rs) a h = elim (Bool-cases (key q == a)) [
  | inl e ↦ (i, q, ground arith)
  | inr e ↦ let (j, r, found) = locate-contains (suc i) rs a (ground arith) in (j, r, ground arith)
]

pub locate-missing :
    (i : ℕ) (rs : List Report) (a : String) → contains a (ids_of rs) ≡ false → locate i rs a ≡ none
unfolding locate contains
locate-missing i [] a h = refl
locate-missing i (q ∷ rs) a h = ground (arith, locate-missing (suc i) rs a)

abbrev pub position_or : Option (ℕ × Report) → Option ℕ → Option ℕ
position_or none o = o
position_or (some (j, r)) o = some j

abbrev pub position_if : (Report → Bool) → Option (ℕ × Report) → Option ℕ → Option ℕ
position_if f none o = o
position_if f (some (j, r)) o = if f r then some j else o

keys-put_new {ℓ} :
    {V : Type ℓ} (k : String) (v : V) (d : Dict V)
    → get d k ≡ none
    → keys (put k v d) ≡ keys d ++ k ∷ []
unfolding get put keys
keys-put_new k v [] h = refl
keys-put_new k v ((j, w) ∷ d) h = elim (Bool-cases (j == k)) [
  | inl e ↦ absurd (ground arith)
  | inr e ↦ ground (arith, keys-put_new k v d)
]

module _ (f : Report → Bool) where
  pub get-reportmap :
      (i : ℕ) (rs : List Report) (m : Maps) (a : String)
      → IsDistinct (ids_of rs)
      → get (sort_reports f i rs m).reportmap a ≡ position_or (locate i rs a) (get m.reportmap a)
  unfolding sort_reports sort_report locate
  get-reportmap i [] m a d = refl
  get-reportmap i (r ∷ rs) m a d = ground (
    arith,
    get-reportmap (suc i) rs (sort_report f i r m) a,
    get-put (key r) a i m.reportmap,
    locate-missing (suc i) rs a,
    eq_iff (key r) a,
  )

  pub get-removed :
      (i : ℕ) (rs : List Report) (m : Maps) (a : String)
      → IsDistinct (ids_of rs)
      → get (sort_reports f i rs m).removed a ≡ position_if f (locate i rs a) (get m.removed a)
  unfolding sort_reports sort_report locate
  get-removed i [] m a d = refl
  get-removed i (r ∷ rs) m a d = ground (
    arith,
    get-removed (suc i) rs (sort_report f i r m) a,
    get-put (key r) a i m.removed,
    locate-missing (suc i) rs a,
    eq_iff (key r) a,
  )

  pub get-retained :
      (i : ℕ) (rs : List Report) (m : Maps) (a : String)
      → IsDistinct (ids_of rs)
      → get (sort_reports f i rs m).retained a
        ≡ position_if (λ r. not (f r)) (locate i rs a) (get m.retained a)
  unfolding sort_reports sort_report locate
  get-retained i [] m a d = refl
  get-retained i (r ∷ rs) m a d = ground (
    arith,
    get-retained (suc i) rs (sort_report f i r m) a,
    get-put (key r) a i m.retained,
    locate-missing (suc i) rs a,
    eq_iff (key r) a,
  )

  -- The ids of the retained reports, in the order of the reports.
  pub keys-retained :
      (i : ℕ) (rs : List Report) (m : Maps)
      → IsDistinct (ids_of rs)
      → ((a : String) → contains a (ids_of rs) ≡ true → get m.retained a ≡ none)
      → keys (sort_reports f i rs m).retained
        ≡ keys m.retained ++ ids_of (filter (λ r. not (f r)) rs)
  unfolding sort_reports sort_report contains
  keys-retained i [] m d new = sym (append-nil (keys m.retained))
  keys-retained i (r ∷ rs) m d new =
      let ih =
        keys-retained (suc i) rs (sort_report f i r m) d.1
          (λ a h. ground (arith, get-put (key r) a i m.retained, eq_iff (key r) a, new a)) in
      elim (Bool-cases (f r)) [
        | inl e ↦ ground (arith, ih)
        | inr e ↦ ground (
          arith,
          ih,
          keys-put_new (key r) i m.retained,
          new (key r),
          eq_refl (key r),
          append_assoc (keys m.retained) (key r ∷ []) (ids_of (filter (λ r. not (f r)) rs)),
        )
      ]
