-- ===== src/Filter/Defs.antt =====
-- `filter_reports` as the source has it.
use tracing_framework.Prelude.{
  ℕ, zero, suc, String, Option, none, some, List, [], ◌∷◌, Bool, true, false, if◌then◌else◌, nat_eq,
}
use tracing_framework.Prelude.KeySet.{KeySet, contains, add, union}
use tracing_framework.Prelude.Dict.{Dict, get, has, put, keys}
use tracing_framework.Report.{Report, as_key}

pub record Maps : Type 0 where
  pub reportmap : Dict ℕ
  pub removed : Dict ℕ
  pub retained : Dict ℕ

abbrev pub no_maps : Maps
no_maps = record { reportmap = []; removed = []; retained = [] }

-- The body of the first loop, for the report at position `i`.
unfoldable pub sort_report : (Report → Bool) → ℕ → Report → Maps → Maps
sort_report f i r m =
    let id = as_key r.event_id in
    if f r
    then record m { reportmap = put id i m.reportmap; removed = put id i m.removed }
    else record m { reportmap = put id i m.reportmap; retained = put id i m.retained }

unfoldable pub sort_reports : (Report → Bool) → ℕ → List Report → Maps → Maps
sort_reports f i [] m = m
sort_reports f i (r ∷ rs) m = sort_reports f (suc i) rs (sort_report f i r m)

-- `ParentEventID` of the report at each position, and the ids already remapped.
pub record Store : Type 0 where
  pub parents : ℕ → Option KeySet
  pub remapped : KeySet

abbrev pub report_at : List Report → ℕ → Option Report
report_at [] i = none
report_at (r ∷ rs) zero = some r
report_at (r ∷ rs) (suc i) = report_at rs i

abbrev pub parents_at : List Report → ℕ → Option KeySet
parents_at rs i = elim (report_at rs i) [ none ↦ none | some r ↦ r.parent_event_id ]

abbrev pub first_store : List Report → Store
first_store rs = record { parents = parents_at rs; remapped = [] }

abbrev pub write : ℕ → KeySet → (ℕ → Option KeySet) → ℕ → Option KeySet
write i ps h j = if nat_eq i j then some ps else h j

-- `reportmap[id]["ParentEventID"]`
abbrev pub parents_of : Maps → Store → String → Option KeySet
parents_of m s id = elim (get m.reportmap id) [ none ↦ none | some i ↦ s.parents i ]

module _ (m : Maps) where
  -- The loop over the parents, where `rec` is the recursive call; `acc` is `newparents`.
  unfoldable pub gather :
      (String → Store → Option Store) → List String → KeySet → Store → Option (KeySet × Store)
  gather rec [] acc s = some (acc, s)
  gather rec (p ∷ ps) acc s = elim (has m.removed p) [
    | false ↦ gather rec ps (add p acc) s
    | true ↦ elim (rec p s) [
      | none ↦ none
      | some s' ↦ elim (parents_of m s' p) [
        | none ↦ none
        | some grandparents ↦ gather rec ps (union acc grandparents) s'
      ]
    ]
  ]

  unfoldable pub finish : String → ℕ → KeySet × Store → Store
  finish id i (acc, s) = record { parents = write i acc s.parents; remapped = add id s.remapped }

  unfoldable pub remap_parents : ℕ → String → Store → Option Store
  remap_parents zero id s = none
  remap_parents (suc f) id s = elim (contains id s.remapped) [
    | true ↦ some s
    | false ↦ elim (get m.reportmap id) [
      | none ↦ none
      | some i ↦ elim (s.parents i) [
        | none ↦ none
        | some ps ↦ elim (gather (remap_parents f) ps [] s) [
          | none ↦ none
          | some done ↦ some (finish id i done)
        ]
      ]
    ]
  ]

  -- `Object.keys(retained).map(...)`, for its effect
  unfoldable pub remap_all : ℕ → List String → Store → Option Store
  remap_all f [] s = some s
  remap_all f (id ∷ ids) s = elim (remap_parents f id s) [
    | none ↦ none
    | some s' ↦ remap_all f ids s'
  ]

-- `retained[id]`, with the parents that it has in the store.
unfoldable pub fetch : List Report → Dict ℕ → Store → String → Option Report
fetch rs retained s id = elim (get retained id) [
  | none ↦ none
  | some i ↦ elim (report_at rs i) [
    | none ↦ none
    | some r ↦ some (record r { parent_event_id = s.parents i })
  ]
]

-- The reports that `map` returns, as they are when the last call has returned.
unfoldable pub collect : List Report → Dict ℕ → Store → List String → List Report
collect rs retained s [] = []
collect rs retained s (id ∷ ids) =
    let rest = collect rs retained s ids in
    elim (fetch rs retained s id) [ none ↦ rest | some r ↦ r ∷ rest ]

unfoldable pub filter_reports : ℕ → (Report → Bool) → List Report → Option (List Report)
filter_reports fuel f rs =
    let m = sort_reports f 0 rs no_maps in
    let ids = keys m.retained in
    elim (remap_all m fuel ids (first_store rs)) [
      | none ↦ none
      | some s ↦ some (collect rs m.retained s ids)
    ]
