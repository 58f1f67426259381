-- ===== src/Retro/Chosen.antt =====
-- The groups and filters that are chosen in a session.
use tracing_framework.Prelude.{
  String, some, none, List, [], ◌∷◌, ◌++◌, Bool, true, false, ◌&&◌, ◌||◌, ◌==◌, if◌then◌else◌,
  get_or, ◌≡◌, ◌∙◌, refl, ap, arith, eq_iff, Bool-cases, inl, inr,
}
use tracing_framework.Prelude.KeySet.{KeySet, contains, contains-add}
use tracing_framework.Prelude.Dict.{Dict, get, has, put, del, set_at}
use tracing_framework.Retro.Amount.{Amount}
use tracing_framework.Retro.Reports.{TenantReport}
use tracing_framework.Retro.Recent.{
  Recent, new_recent, field, field_text, observe, set_group, set_filter, field_is,
}

pub data Event : Type 0 where
  report_arrives : List TenantReport → Event
  group_chosen : String → Event
  filter_chosen : String → String → Event

-- The properties that a user can choose.
abbrev pub is_property : String → Bool
is_property p =
    contains p ("host" ∷ "process" ∷ "type" ∷ "resourcetype" ∷ "operation" ∷ "tenant" ∷ [])

-- Whether one of the reports has the value.
abbrev pub seen : String → String → List TenantReport → Bool
seen p v [] = false
seen p v (r ∷ rs) = get_or (field r p) "undefined" == v || seen p v rs

-- The group of a report, and the filters by their property.
pub record Choice : Type 0 where
  pub group_of : TenantReport → String
  pub filters : Dict (TenantReport → Bool)

abbrev pub no_choice : Choice
no_choice = record { group_of = λ r. "all"; filters = ("default", λ r. true) ∷ [] }

abbrev pub has_field : String → String → TenantReport → Bool
has_field p v r = elim (field r p) [ none ↦ false | some w ↦ w == v ]

-- A property that there is groups the reports by its values, any other takes the groups away. A value that
-- a report has had filters by it, in place of the filter that the property had; any other takes that away.
abbrev pub choose : Event → List TenantReport → Choice → Choice
choose (report_arrives rs) before c = c
choose (group_chosen p) before c = record c {
  group_of = if is_property p then (λ r. get_or (field r p) "undefined") else (λ r. "all");
}
choose (filter_chosen p v) before c = record c {
  filters =
      if is_property p && seen p v before
      then put p (has_field p v) (del p c.filters)
      else del p c.filters;
}

abbrev pub reports_of : Event → List TenantReport
reports_of (report_arrives rs) = rs
reports_of (group_chosen p) = []
reports_of (filter_chosen p v) = []

abbrev pub chosen_after : List Event → List TenantReport → Choice → Choice
chosen_after [] before c = c
chosen_after (e ∷ es) before c = chosen_after es (before ++ reports_of e) (choose e before c)

-- What is chosen after the events.
abbrev pub choice : List Event → Choice
choice es = chosen_after es [] no_choice

module _ (u : Amount) where
  -- The page groups and filters by the choice, and has observed the values of the reports.
  pub record Follows (before : List TenantReport) (c : Choice) (s : Recent u) : Type 0 where
    pub groups : s.groupby ≡ c.group_of
    pub filtered : s.filters ≡ c.filters
    pub properties : (p : String) → has s.properties p ≡ is_property p
    pub observed :
        (p v : String) → contains v (set_at s.properties p) ≡ (is_property p && seen p v before)

  has-observe : (r : TenantReport) (ps : Dict KeySet) (p : String) → has (observe r ps) p ≡ has ps p
  unfolding observe get
  has-observe r [] p = refl
  has-observe r ((q, vs) ∷ ps) p = ground (arith, has-observe r ps p)

  contains-observe :
      (r : TenantReport) (ps : Dict KeySet) (p v : String)
      → contains v (set_at (observe r ps) p)
        ≡ (contains v (set_at ps p) || has ps p && (get_or (field r p) "undefined" == v))
  unfolding observe get contains
  contains-observe r [] p v = ground arith
  contains-observe r ((q, vs) ∷ ps) p v = elim (Bool-cases (q == p)) [
    | inl e ↦ ground (
      arith,
      e,
      contains-add v (field_text q r) vs,
      eq_iff (field_text q r) v,
      ap (λ z. get_or (field r z) "undefined") ((eq_iff q p).0 e),
    )
    | inr e ↦ ground (arith, e, contains-observe r ps p v)
  ]

  seen-append :
      (p v : String) (rs qs : List TenantReport)
      → seen p v (rs ++ qs) ≡ (seen p v rs || seen p v qs)
  seen-append p v [] qs = refl
  seen-append p v (r ∷ rs) qs = ground (arith, seen-append p v rs qs)

  abbrev pub observe_all : List TenantReport → Dict KeySet → Dict KeySet
  observe_all [] ps = ps
  observe_all (r ∷ rs) ps = observe_all rs (observe r ps)

  has-observe_all :
      (rs : List TenantReport) (ps : Dict KeySet) (p : String)
      → has (observe_all rs ps) p ≡ has ps p
  has-observe_all [] ps p = refl
  has-observe_all (r ∷ rs) ps p = has-observe_all rs (observe r ps) p ∙ has-observe r ps p

  contains-observe_all :
      (rs : List TenantReport) (ps : Dict KeySet) (p v : String)
      → contains v (set_at (observe_all rs ps) p)
        ≡ (contains v (set_at ps p) || has ps p && seen p v rs)
  contains-observe_all [] ps p v = ground arith
  contains-observe_all (r ∷ rs) ps p v = ground (
    arith,
    contains-observe_all rs (observe r ps) p v,
    contains-observe r ps p v,
    has-observe r ps p,
  )

  -- A new page has no choice, and a step of it follows the event.
  pub new_recent-Follows : Follows [] no_choice (new_recent u)
  unfolding get contains
  new_recent-Follows = record {
    groups = refl;
    filtered = refl;
    properties = λ p. ground arith;
    observed = λ p v. ground arith;
  }

  pub arrive-Follows :
      (before rs : List TenantReport) (c : Choice) (s t : Recent u)
      → Follows before c s
      → t.groupby ≡ s.groupby
      → t.filters ≡ s.filters
      → t.properties ≡ observe_all rs s.properties
      → Follows (before ++ rs) c t
  arrive-Follows before rs c s t f g h o = record {
    groups = g ∙ f.groups;
    filtered = h ∙ f.filtered;
    properties = λ p. ap (λ z. has z p) o ∙ has-observe_all rs s.properties p ∙ f.properties p;
    observed = λ p v. ground (
      arith,
      ap (λ z. contains v (set_at z p)) o,
      contains-observe_all rs s.properties p v,
      f.observed p v,
      f.properties p,
      seen-append p v before rs,
    );
  }

  pub set_group-Follows :
      (before : List TenantReport) (p : String) (c : Choice) (s : Recent u)
      → Follows before c s
      → Follows before (choose (group_chosen p) before c) (set_group u p s)
  set_group-Follows before p c s f = record {
    groups = elim (Bool-cases (is_property p)) [
      | inl e ↦ rw (f.properties p, e) refl
      | inr e ↦ rw (f.properties p, e) refl
    ];
    filtered = f.filtered;
    properties = f.properties;
    observed = f.observed;
  }

  pub set_filter-Follows :
      (before : List TenantReport) (p v : String) (c : Choice) (s : Recent u)
      → Follows before c s
      → Follows before (choose (filter_chosen p v) before c) (set_filter u p v s)
  unfolding field_is
  set_filter-Follows before p v c s f =
      let same : (has s.properties p && contains v (set_at s.properties p))
          ≡ (is_property p && seen p v before) =
        ground (arith, f.properties p, f.observed p v) in
      record {
        groups = f.groups;
        filtered = elim (Bool-cases (is_property p && seen p v before)) [
          | inl e ↦ rw (same, e) (ap (λ z. put p (has_field p v) (del p z)) f.filtered)
          | inr e ↦ rw (same, e) (ap (del p) f.filtered)
        ];
        properties = f.properties;
        observed = f.observed;
      }
