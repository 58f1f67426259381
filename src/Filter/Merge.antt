-- ===== src/Filter/Merge.antt =====
-- The callers of `filter_reports`: the merge reports, the reports of one agent, and the reports that
-- are not of a MapReduce child are removed.
use tracing_framework.Prelude.{
  ℕ, ◌<◌, String, Option, some, List, [], ◌∷◌, true, false, ◌≡◌, not, ◌||◌, if◌then◌else◌, arith,
  eq_refl, inl, inr,
}
use tracing_framework.Prelude.KeySet.{KeySet, contains, add, IsDistinct, contains-add}
use tracing_framework.Report.{Report, as_key, field_is, is_merge}
use tracing_framework.Leads.{visible_of_Leads}
use tracing_framework.Filter.Defs.{filter_reports}
use tracing_framework.Filter.Maps.{key, ids_of}
use tracing_framework.Filter.Result.{original, is_kept, Among, HaveParents, filter_reports_lem}

unfoldable pub filter_merge_reports : ℕ → List Report → Option (List Report)
filter_merge_reports fuel rs = filter_reports fuel is_merge rs

-- `agent` is not empty: the caller tests it.
unfoldable pub filter_agent_reports : ℕ → List Report → String → Option (List Report)
filter_agent_reports fuel rs agent = filter_reports fuel (λ r. field_is r.agent agent) rs

-- The first loop of `filter_yarnchild_reports`: the processes of the MapReduce children.
unfoldable pub yarnchild_process_ids : List Report → KeySet → KeySet
yarnchild_process_ids [] ids = ids
yarnchild_process_ids (r ∷ rs) ids = yarnchild_process_ids rs (
    if field_is r.agent "YarnChild" || field_is r.agent "Hadoop Job"
    then add (as_key r.process_id) ids
    else ids)

unfoldable pub filter_yarnchild_reports : ℕ → List Report → Option (List Report)
filter_yarnchild_reports fuel rs =
    let ids = yarnchild_process_ids rs [] in
    filter_reports fuel (λ r. not (contains (as_key r.process_id) ids)) rs

-- For reports that have different ids and each a list of parents, and without a cycle of merge
-- reports, `filter_merge_reports` returns, given fuel above the ranks; none of the reports that it
-- returns is a merge, and none has the id of a merge report for a parent.
filter_merge_reports_lem :
    (rs : List Report) (rank : String → ℕ) (fuel : ℕ)
    → IsDistinct (ids_of rs)
    → HaveParents rs
    → ((a b : String)
        → contains b (original rs a) ≡ true
        → is_kept is_merge rs b ≡ false
        → rank b < rank a)
    → ((a : String) → rank a < fuel)
    → (out : List Report) × (filter_merge_reports fuel rs ≡ some out)
      × ((r : Report)
          → Among r out
          → (ps : KeySet) × (r.parent_event_id ≡ some ps)
            × (is_merge r ≡ false)
            × ((p : String) → contains p ps ≡ true → is_kept is_merge rs p ≡ true))
unfolding filter_merge_reports
filter_merge_reports_lem rs rank fuel distinct have falls low =
    let (out, e, ids, each) = filter_reports_lem is_merge rs rank fuel distinct have falls low in
    (
      out,
      e,
      λ r h.
          let (q, ps, from, kept, it, exact) = each r h in
          (
            ps,
            ground arith,
            ground arith,
            λ p k. visible_of_Leads (is_kept is_merge rs) (original rs) (key q) p ((exact p).0 k),
          ),
    )

contains-yarnchild_process_ids :
    (p : String) (rs : List Report) (ids : KeySet)
    → contains p ids ≡ true
    → contains p (yarnchild_process_ids rs ids) ≡ true
unfolding yarnchild_process_ids
contains-yarnchild_process_ids p [] ids h = h
contains-yarnchild_process_ids p (r ∷ rs) ids h =
    contains-yarnchild_process_ids p rs _ (ground (arith, contains-add p (as_key r.process_id) ids))

-- A report of the agent YarnChild or Hadoop Job is among those whose process is kept.
pub yarnchild_process_ids_lem :
    (r : Report) (rs : List Report) (ids : KeySet)
    → Among r rs
    → (field_is r.agent "YarnChild" || field_is r.agent "Hadoop Job") ≡ true
    → contains (as_key r.process_id) (yarnchild_process_ids rs ids) ≡ true
unfolding yarnchild_process_ids
yarnchild_process_ids_lem r [] ids i h = absurd i
yarnchild_process_ids_lem r (q ∷ rs) ids i h = elim i [
  | inl e ↦ contains-yarnchild_process_ids (as_key r.process_id) rs _ (
      ground (
        arith,
        contains-add (as_key r.process_id) (as_key q.process_id) ids,
        eq_refl (as_key r.process_id),
      ))
  | inr later ↦ yarnchild_process_ids_lem r rs _ later h
]
