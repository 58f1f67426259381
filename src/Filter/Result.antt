-- ===== src/Filter/Result.antt =====
-- What `filter_reports` returns.
use tracing_framework.Prelude.{
  ℕ, zero, suc, ◌<◌, String, none, some, List, [], ◌∷◌, Bool, true, false, ◌≡◌, refl, not, arith,
  eq_refl, inl, inr, ◌↔◌, ◌⊎◌, Option-cases, filter, get_or, is_some, sym, ap, some_inj, subst, ◌∙◌,
}
use tracing_framework.Prelude.KeySet.{KeySet, contains, IsDistinct}
use tracing_framework.Prelude.Dict.{Dict, get, has, keys, contains-keys}
use tracing_framework.Report.{Report}
use tracing_framework.Leads.{Leads}
use tracing_framework.Filter.Defs.{
  Maps, no_maps, sort_reports, Store, report_at, first_store, collect, fetch, filter_reports,
}
use tracing_framework.Filter.Maps.{
  key, ids_of, locate, locate-key, get-reportmap, get-removed, get-retained, keys-retained,
}
use tracing_framework.Filter.Remap.{Inv, remap_all_lem}

-- The parents that the report of an id has at first.
unfoldable pub original : List Report → String → KeySet
original rs a = elim (locate 0 rs a) [ none ↦ [] | some (j, r) ↦ get_or r.parent_event_id [] ]

-- An id whose report is not removed. Ids of which there is no report are kept as parents.
unfoldable pub is_kept : (Report → Bool) → List Report → String → Bool
is_kept f rs a = elim (locate 0 rs a) [ none ↦ true | some (j, r) ↦ not (f r) ]

-- The report is one of the list.
abbrev pub Among : Report → List Report → Type 0
Among x [] = ⊥
Among x (r ∷ rs) = (x ≡ r) ⊎ Among x rs

-- `sanitizeReports` has given each report a list of parents.
abbrev pub HaveParents : List Report → Type 0
HaveParents rs = (r : Report) → Among r rs → is_some r.parent_event_id ≡ true

Among-of_report_at : (rs : List Report) (i : ℕ) (r : Report) → report_at rs i ≡ some r → Among r rs
Among-of_report_at [] i r h = cc
Among-of_report_at (q ∷ rs) zero r h = inl (sym (some_inj h))
Among-of_report_at (q ∷ rs) (suc i) r h = inr (Among-of_report_at rs i r h)

-- Each id of the list has a report in the array.
abbrev Stored : List Report → Dict ℕ → String → Type 0
Stored rs retained a =
    (i : ℕ) × (r : Report) × (get retained a ≡ some i) × (report_at rs i ≡ some r) × (key r ≡ a)

module _ (rs : List Report) (retained : Dict ℕ) (s : Store) where
  fetch_inv :
      (a : String) (r' : Report)
      → fetch rs retained s a ≡ some r'
      → (i : ℕ) × (r : Report) × (get retained a ≡ some i)
        × (report_at rs i ≡ some r)
        × (r' ≡ record r { parent_event_id = s.parents i })
  unfolding fetch
  fetch_inv a r' h = elim (Option-cases (get retained a)) [
    | inl e ↦ absurd (ground arith)
    | inr (i, e) ↦ elim (Option-cases (report_at rs i)) [
      | inl e' ↦ absurd (ground arith)
      | inr (r, e') ↦ (i, r, e, e', ground arith)
    ]
  ]

  ids_of-collect :
      (ids : List String)
      → ((a : String) → contains a ids ≡ true → Stored rs retained a)
      → ids_of (collect rs retained s ids) ≡ ids
  unfolding collect contains fetch
  ids_of-collect [] h = refl
  ids_of-collect (a ∷ ids) h =
      let (i, r, at, found, same) = h a (ground (arith, eq_refl a)) in
      ground (arith, ids_of-collect ids (λ b k. h b (ground arith)))

  Among-collect :
      (r' : Report) (ids : List String)
      → Among r' (collect rs retained s ids)
      → (a : String) × (contains a ids ≡ true) × (fetch rs retained s a ≡ some r')
  unfolding collect contains
  Among-collect r' [] h = absurd h
  Among-collect r' (a ∷ ids) h = elim (Option-cases (fetch rs retained s a)) [
    | inl e ↦
        let (b, k, found) = Among-collect r' ids (rw (e, collect) at h) in (b, ground arith, found)
    | inr (r, e) ↦
        let split : (r' ≡ r) ⊎ Among r' (collect rs retained s ids) = rw (e, collect) at h in
        elim split [
          | inl it ↦ (a, ground (arith, eq_refl a), cc)
          | inr later ↦ let (b, k, found) = Among-collect r' ids later in (b, ground arith, found)
        ]
  ]

-- The positions in the maps are those of the reports.
module _ (f : Report → Bool) (rs : List Report) (distinct : IsDistinct (ids_of rs)) where
  abbrev maps : Maps
  maps = sort_reports f 0 rs no_maps

  reportmap_locate :
      (a : String) (i : ℕ)
      → get maps.reportmap a ≡ some i
      → (r : Report) × (locate 0 rs a ≡ some (i, r)) × (report_at rs i ≡ some r) × (key r ≡ a)
  unfolding get
  reportmap_locate a i h = elim (Option-cases (locate 0 rs a)) [
    | inl e ↦ absurd (ground (arith, get-reportmap f 0 rs no_maps a distinct))
    | inr ((j, r), e) ↦
        let (same, (k, at, found)) = locate-key 0 rs a j r e in
        (
          r,
          ground (arith, get-reportmap f 0 rs no_maps a distinct),
          ground (arith, get-reportmap f 0 rs no_maps a distinct),
          same,
        )
  ]

  retained_locate :
      (a : String) (i : ℕ)
      → get maps.retained a ≡ some i
      → (r : Report) × (f r ≡ false)
        × (report_at rs i ≡ some r)
        × (key r ≡ a)
        × (get maps.reportmap a ≡ some i)
  unfolding get
  retained_locate a i h = elim (Option-cases (locate 0 rs a)) [
    | inl e ↦ absurd (ground (arith, get-retained f 0 rs no_maps a distinct))
    | inr ((j, r), e) ↦
        let (same, (k, at, found)) = locate-key 0 rs a j r e in
        let kept : f r ≡ false = ground (arith, get-retained f 0 rs no_maps a distinct) in
        let here : j ≡ i = ground (arith, get-retained f 0 rs no_maps a distinct) in
        (r, kept, ground arith, same, ground (arith, get-reportmap f 0 rs no_maps a distinct))
  ]

  removed_kept : (a : String) → is_kept f rs a ≡ not (has maps.removed a)
  unfolding is_kept get
  removed_kept a = ground (arith, get-removed f 0 rs no_maps a distinct)

  removed_known : (a : String) → has maps.removed a ≡ true → has maps.reportmap a ≡ true
  unfolding get
  removed_known a h =
      ground (arith, get-removed f 0 rs no_maps a distinct, get-reportmap f 0 rs no_maps a distinct)

  positions_injective :
      (a b : String) (i : ℕ) → get maps.reportmap a ≡ some i → get maps.reportmap b ≡ some i → a ≡ b
  positions_injective a b i h k =
      let (r, _, at, same) = reportmap_locate a i h in
      let (q, _, at', same') = reportmap_locate b i k in let e : r ≡ q = cc in cc (ap key e)

  -- Before the first call.
  module _ (have : HaveParents rs) (rank : String → ℕ)
      (falls : (a b : String)
        → contains b (original rs a) ≡ true
        → is_kept f rs b ≡ false
        → rank b < rank a) where
    first-Inv :
        Inv maps
          (is_kept f rs)
          (original rs)
          rank
          removed_kept
          removed_known
          positions_injective
          falls
          (first_store rs)
    unfolding original contains
    first-Inv = record {
      done = λ a i h k. absurd (ground arith);
      todo = λ a i h k.
          let (r, e, at, same) = reportmap_locate a i h in
          ground (arith, have r (Among-of_report_at rs i r at));
    }

    -- After the last call.
    module _ (s : Store)
        (v : Inv maps
          (is_kept f rs)
          (original rs)
          rank
          removed_kept
          removed_known
          positions_injective
          falls
          s)
        (full : (a : String)
          → contains a (keys maps.retained) ≡ true
          → contains a s.remapped ≡ true) where
      collected :
          (r' : Report)
          → Among r' (collect rs maps.retained s (keys maps.retained))
          → (r : Report) × (ps : KeySet) × Among r rs
            × (f r ≡ false)
            × (r' ≡ record r { parent_event_id = some ps })
            × ((p : String) → (contains p ps ≡ true) ↔ Leads (is_kept f rs) (original rs) (key r) p)
      collected r' h =
          let (a, k, found) = Among-collect rs maps.retained s r' (keys maps.retained) h in
          let (i, q, at, here, it) = fetch_inv rs maps.retained s a r' found in
          let (r, kept, there, same, mapped) = retained_locate a i at in
          let (ps, now, exact) = v.done a i mapped (full a k) in
          let e : q ≡ r = some_inj (cc) in
          (
            r,
            ps,
            Among-of_report_at rs i r there,
            kept,
            cc,
            λ p.
                subst (λ x. (contains p ps ≡ true) ↔ Leads (is_kept f rs) (original rs) x p)
                  (sym same) (exact p),
          )

module _ (f : Report → Bool) (rs : List Report) (distinct : IsDistinct (ids_of rs)) where
  retained-Stored :
      (a : String)
      → contains a (keys (maps f rs distinct).retained) ≡ true
      → Stored rs (maps f rs distinct).retained a
  retained-Stored a h = elim (Option-cases (get (maps f rs distinct).retained a)) [
    | inl e ↦ absurd (ground (arith, contains-keys a (maps f rs distinct).retained))
    | inr (i, e) ↦
        let (r, kept, at, same, mapped) = retained_locate f rs distinct a i e in (i, r, e, at, same)
  ]

  retained_known :
      (a : String)
      → contains a (keys (maps f rs distinct).retained) ≡ true
      → has (maps f rs distinct).reportmap a ≡ true
  retained_known a h =
      let (i, r, e, at, same) = retained-Stored a h in
      let (r', kept, at', same', mapped) = retained_locate f rs distinct a i e in ground arith

-- For reports that have different ids and each a list of parents, and without a cycle of removed
-- reports, `filter_reports` returns, given fuel above the ranks. It returns the reports that are not
-- removed, in their order; each keeps its fields but for the parents, and these become exactly the
-- ids of kept reports, or of no report, to which a chain of removed reports leads.
pub filter_reports_lem :
    (f : Report → Bool) (rs : List Report) (rank : String → ℕ) (fuel : ℕ)
    → IsDistinct (ids_of rs)
    → HaveParents rs
    → ((a b : String)
        → contains b (original rs a) ≡ true
        → is_kept f rs b ≡ false
        → rank b < rank a)
    → ((a : String) → rank a < fuel)
    → (out : List Report) × (filter_reports fuel f rs ≡ some out)
      × (ids_of out ≡ ids_of (filter (λ r. not (f r)) rs))
      × ((r' : Report)
          → Among r' out
          → (r : Report) × (ps : KeySet) × Among r rs
            × (f r ≡ false)
            × (r' ≡ record r { parent_event_id = some ps })
            × ((p : String)
                → (contains p ps ≡ true) ↔ Leads (is_kept f rs) (original rs) (key r) p))
unfolding filter_reports get keys
filter_reports_lem f rs rank fuel distinct have falls low =
    let m = maps f rs distinct in
    let ids = keys m.retained in
    let (s, e, v, full) =
      remap_all_lem m (is_kept f rs) (original rs) rank (removed_kept f rs distinct)
        (removed_known f rs distinct) (positions_injective f rs distinct) falls fuel ids
        (first_store rs) (retained_known f rs distinct) low
        (first-Inv f rs distinct have rank falls) in
    (
      collect rs m.retained s ids,
      ground arith,
      ids_of-collect rs m.retained s ids (retained-Stored f rs distinct)
          ∙ keys-retained f 0 rs no_maps distinct (λ a h. refl),
      collected f rs distinct have rank falls s v (λ a k. full a (inr k)),
    )
