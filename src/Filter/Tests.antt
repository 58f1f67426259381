-- ===== src/Filter/Tests.antt =====
-- Runs of the filters on three reports: `b` has the merge report `m` as its parent, and `m` has `a`.
use tracing_framework.Prelude.{
  ℕ, ◌<◌, String, some, none, List, [], ◌∷◌, true, false, ◌≡◌, refl, ◌==◌, ◌↔◌, not, filter,
  if◌then◌else◌, arith, eq_iff, inl, inr,
}
use tracing_framework.Prelude.KeySet.{KeySet, contains, IsDistinct, add, union}
use tracing_framework.Prelude.Dict.{get, put, keys}
use tracing_framework.Report.{Report, is_merge}
use tracing_framework.Leads.{Leads}
use tracing_framework.Filter.Defs.{
  filter_reports, sort_reports, sort_report, remap_all, remap_parents, gather, finish, collect,
  fetch,
}
use tracing_framework.Filter.Maps.{ids_of, locate, key}
use tracing_framework.Filter.Result.{original, is_kept, Among, HaveParents, filter_reports_lem}
use tracing_framework.Filter.Merge.{filter_merge_reports}

abbrev report : String → List String → String → Report
report id parents operation = record {
  event_id = some id;
  parent_event_id = some parents;
  operation = some operation;
  agent = some "YarnChild";
  process_id = some "7";
  source = none;
  timestamp = 0;
}

abbrev three : List Report
three = report "a" [] "start" ∷ report "m" ("a" ∷ []) "merge" ∷ report "b" ("m" ∷ []) "end" ∷ []

abbrev rank : String → ℕ
rank a = if a == "b" then 1 else 0

rank-falls :
    (a b : String)
    → contains b (original three a) ≡ true
    → is_kept is_merge three b ≡ false
    → rank b < rank a
unfolding original is_kept locate contains
rank-falls a b h k = ground (
  arith,
  eq_iff "a" a,
  eq_iff "m" a,
  eq_iff "b" a,
  eq_iff a "b",
  eq_iff "a" b,
  eq_iff "m" b,
  eq_iff "b" b,
  eq_iff b "b",
)

rank-lt : (a : String) → rank a < 2
rank-lt a = ground arith

distinct : IsDistinct (ids_of three)
unfolding contains
distinct = (refl, (refl, (refl, tt)))

have : HaveParents three
have r (inl e) = ground arith
have r (inr (inl e)) = ground arith
have r (inr (inr (inl e))) = ground arith
have r (inr (inr (inr e))) = absurd e

-- The merge report goes, and `a` takes its place as the parent of `b`.
filter_merge_reports_run :
    filter_merge_reports 2 three ≡ some (report "a" [] "start" ∷ report "b" ("a" ∷ []) "end" ∷ [])
unfolding filter_merge_reports filter_reports sort_reports sort_report remap_all remap_parents
    gather finish collect fetch get put keys contains add union
filter_merge_reports_run = refl

filter_reports_lem_example :
    (out : List Report) × (filter_reports 2 is_merge three ≡ some out)
    × (ids_of out ≡ ids_of (filter (λ r. not (is_merge r)) three))
    × ((r' : Report)
        → Among r' out
        → (r : Report) × (ps : KeySet) × Among r three
          × (is_merge r ≡ false)
          × (r' ≡ record r { parent_event_id = some ps })
          × ((p : String)
              → (contains p ps ≡ true) ↔ Leads (is_kept is_merge three) (original three) (key r) p))
filter_reports_lem_example =
    filter_reports_lem is_merge three rank 2 distinct have rank-falls rank-lt
