-- ===== src/CreateGraph/Named.antt =====
-- Which report an id stands for.
use tracing_framework.Prelude.{
  is_some, some_inj, sym, String, none, some, List, [], ◌∷◌, Bool, true, false, ◌≡◌, refl, ◌||◌,
  ◌==◌, arith, eq_iff, eq_refl, get_or, if◌then◌else◌, Option-cases, Bool-cases, inl, inr,
}
use tracing_framework.Prelude.KeySet.{KeySet, IsDistinct, contains}
use tracing_framework.Prelude.Dict.{Dict, get, has, put, keys, get-put, put-IsDistinct}
use tracing_framework.Report.{Report}
use tracing_framework.Filter.Result.{HaveParents}
use tracing_framework.CreateGraph.Defs.{reports_by_id, parent_ids, parents_present}

-- Whether a report has the id, and the parents of the last report that has it.
abbrev pub names : String → Report → Bool
names a r = elim r.event_id [ none ↦ false | some id ↦ id == a ]

abbrev pub has_report : String → List Report → Bool
has_report a [] = false
has_report a (r ∷ rs) = names a r || has_report a rs

abbrev pub last_parents : String → List Report → KeySet → KeySet
last_parents a [] ps = ps
last_parents a (r ∷ rs) ps =
    last_parents a rs (if names a r then get_or r.parent_event_id [] else ps)

pub reports_by_id-has :
    (a : String) (rs : List Report) (d : Dict Report)
    → has (reports_by_id rs d) a ≡ (has_report a rs || has d a)
unfolding reports_by_id
reports_by_id-has a [] d = refl
reports_by_id-has a (r ∷ rs) d = elim (Option-cases r.event_id) [
  | inl e ↦ ground (arith, e, reports_by_id-has a rs d)
  | inr (id, e) ↦
      ground (arith, e, reports_by_id-has a rs (put id r d), get-put id a r d, eq_iff id a)
]

pub reports_by_id-parents :
    (a : String) (rs : List Report) (d : Dict Report)
    → parent_ids (reports_by_id rs d) a ≡ last_parents a rs (parent_ids d a)
unfolding reports_by_id parent_ids
reports_by_id-parents a [] d = refl
reports_by_id-parents a (r ∷ rs) d = elim (Option-cases r.event_id) [
  | inl e ↦ ground (arith, e, reports_by_id-parents a rs d)
  | inr (id, e) ↦
      ground (arith, e, reports_by_id-parents a rs (put id r d), get-put id a r d, eq_iff id a)
]

pub reports_by_id-IsDistinct :
    (rs : List Report) (d : Dict Report)
    → IsDistinct (keys d)
    → IsDistinct (keys (reports_by_id rs d))
unfolding reports_by_id
reports_by_id-IsDistinct [] d h = h
reports_by_id-IsDistinct (r ∷ rs) d h = elim (Option-cases r.event_id) [
  | inl e ↦ rw e (reports_by_id-IsDistinct rs d h)
  | inr (id, e) ↦ rw e (reports_by_id-IsDistinct rs (put id r d) (put-IsDistinct id r d h))
]

pub report_of-HasParents :
    (a : String) (r : Report) (rs : List Report) (d : Dict Report)
    → HaveParents rs
    → (get d a ≡ some r → is_some r.parent_event_id ≡ true)
    → get (reports_by_id rs d) a ≡ some r
    → is_some r.parent_event_id ≡ true
unfolding reports_by_id
report_of-HasParents a r [] d all old e = old e
report_of-HasParents a r (q ∷ rs) d all old e = elim (Option-cases q.event_id) [
  | inl none_id ↦ report_of-HasParents a r rs d (λ x i. all x (inr i)) old (rw none_id at e)
  | inr (id, its) ↦
      report_of-HasParents a r rs (put id q d) (λ x i. all x (inr i))
        (λ found. elim (Bool-cases (id == a)) [
          | inl same ↦
              let it : q ≡ r =
                some_inj (ground (arith, found, same, get-put id a q d, eq_iff id a)) in
              all r (inl (sym it))
          | inr other ↦ old (ground (arith, found, other, get-put id a q d, eq_iff id a))
        ])
        (rw its at e)
]

pub parents_present-all :
    (reports : Dict Report) (ids : KeySet)
    → ((a : String) → contains a ids ≡ true → has reports a ≡ true)
    → ((a : String) (r : Report) → get reports a ≡ some r → is_some r.parent_event_id ≡ true)
    → parents_present reports ids ≡ true
unfolding parents_present contains
parents_present-all reports [] there all = refl
parents_present-all reports (id ∷ ids) there all =
    let rest = parents_present-all reports ids (λ a h. there a (ground (arith, h))) all in
    elim (Option-cases (get reports id)) [
      | inl e ↦ absurd (ground (arith, e, there id, eq_refl id))
      | inr (r, e) ↦ ground (arith, e, rest, all id r e)
    ]
