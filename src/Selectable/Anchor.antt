-- ===== src/Selectable/Anchor.antt =====
-- Clicks keep the selection within what is drawn, and the last selected element in the selection.
use tracing_framework.Prelude.{
  String, Option, none, some, List, [], ◌∷◌, true, false, ◌&&◌, ◌||◌, ◌==◌, ◌≡◌, arith, eq_iff,
  eq_refl, if◌then◌else◌, Bool-cases, Option-cases, inl, inr, filter, get_or, nat_eq, length,
  some_inj, ap, subst,
}
use tracing_framework.Prelude.KeySet.{
  KeySet, contains, add, remove, contains-add, contains-remove, contains-union, contains-filter,
}
use tracing_framework.Selectable.Defs.{
  Selection, Keys, with_range, select_range, click_alone, click, forget,
}

pub contains-with_range :
    (k : String) (drawn path : List String) (selected : KeySet)
    → contains k (with_range drawn path selected)
      ≡ (contains k selected || contains k path && contains k drawn)
unfolding with_range
contains-with_range k drawn path selected = ground (
  arith,
  contains-union k selected (filter (λ id. contains id drawn) path),
  contains-filter (λ id. contains id drawn) k path,
)

module _ (drawn : List String) (getrange : String → String → Option (List String))
    -- a range has both its ends
    (ends : (a b : String)
      → (path : List String) × (getrange a b ≡ some path)
        × (contains a path ≡ true)
        × (contains b path ≡ true)) where
  pub record IsAnchored (s : Selection) : Type 0 where
    pub within : (k : String) → contains k s.selected ≡ true → contains k drawn ≡ true
    pub anchor : (l : String) → s.last_selected ≡ some l → contains l s.selected ≡ true

  -- What shift adds to `selected`, which holds the last selected element or nothing.
  select_range-IsAnchored :
      (d : String) (s : Selection) (selected : KeySet)
      → IsAnchored s
      → contains d drawn ≡ true
      → ((k : String) → contains k selected ≡ true → contains k drawn ≡ true)
      → (t : Selection) × (select_range drawn getrange d s selected ≡ some t)
        × IsAnchored t
        × (contains d t.selected ≡ true)
  unfolding select_range
  select_range-IsAnchored d s selected v i w =
      let l = get_or s.last_selected d in
      let (path, e, p, q) = ends d l in
      let inside : contains l drawn ≡ true = elim (Option-cases s.last_selected) [
        | inl n ↦ ground arith
        | inr (k, n) ↦ ground (arith, v.within k (v.anchor k n))
      ] in
      (
        record { selected = with_range drawn path selected; last_selected = some l },
        ground arith,
        record {
          within = λ k c. ground (arith, contains-with_range k drawn path selected, w k);
          anchor = λ k c. ground (arith, contains-with_range l drawn path selected);
        },
        ground (arith, contains-with_range d drawn path selected),
      )

  remove-IsAnchored :
      (d : String) (s : Selection)
      → IsAnchored s
      → IsAnchored (record { selected = remove d s.selected; last_selected = forget s d })
  remove-IsAnchored d s v = record {
    within = λ k c. ground (arith, contains-remove k d s.selected, v.within k);
    anchor = λ l c. elim (Option-cases s.last_selected) [
      | inl n ↦ absurd (ground arith)
      | inr (m, n) ↦ ground (
        arith,
        contains-remove l d s.selected,
        v.anchor l,
        eq_iff l d,
        eq_iff d l,
        eq_iff m d,
        eq_refl l,
      )
    ];
  }

  add-IsAnchored :
      (d : String) (s : Selection)
      → IsAnchored s
      → contains d drawn ≡ true
      → IsAnchored (record { selected = add d s.selected; last_selected = some d })
  add-IsAnchored d s v i = record {
    within = λ k c. elim (Bool-cases (d == k)) [
      | inl same ↦ subst (λ z. contains z drawn ≡ true) ((eq_iff d k).0 same) i
      | inr other ↦ ground (arith, contains-add k d s.selected, v.within k)
    ];
    anchor = λ l c. ground (arith, contains-add l d s.selected, eq_iff d l, some_inj c);
  }

  alone-IsAnchored :
      (d : String)
      → contains d drawn ≡ true
      → IsAnchored (record { selected = d ∷ []; last_selected = some d })
  unfolding contains
  alone-IsAnchored d i = record {
    within = λ k c.
        let same : d ≡ k = ground (arith, eq_iff d k) in
        subst (λ z. contains z drawn ≡ true) same i;
    anchor = λ l c. ground (arith, eq_iff d l, some_inj c);
  }

  none-IsAnchored : IsAnchored (record { selected = []; last_selected = none })
  unfolding contains
  none-IsAnchored = record {
    within = λ k c. absurd (ground arith);
    anchor = λ l c. absurd (ground arith);
  }

  click_alone-IsAnchored :
      (d : String) (s : Selection)
      → contains d drawn ≡ true
      → IsAnchored (click_alone drawn getrange d s)
  unfolding click_alone
  click_alone-IsAnchored d s i =
      let only = nat_eq (length (filter (λ id. contains id s.selected) drawn)) 1 in
      elim (Bool-cases (only && contains d s.selected)) [
        | inl yes' ↦ subst IsAnchored (ground arith) none-IsAnchored
        | inr no' ↦ subst IsAnchored (ground arith) (alone-IsAnchored d i)
      ]

  -- Where the page has set a range, which always returns and has both its ends: whatever keys are held, a
  -- click on an element that is drawn returns; the selection stays within what is drawn, and the last
  -- selected element, if there is one, stays selected.
  pub click-IsAnchored :
      (keys : Keys) (d : String) (s : Selection)
      → IsAnchored s
      → contains d drawn ≡ true
      → (t : Selection) × (click drawn getrange keys d s ≡ some t) × IsAnchored t
  unfolding click contains
  click-IsAnchored keys d s v i = elim (Bool-cases (keys.ctrl_key)) [
    | inl c ↦ elim (Bool-cases (contains d s.selected)) [
      | inl old ↦ (
        record { selected = remove d s.selected; last_selected = forget s d },
        ground arith,
        remove-IsAnchored d s v,
      )
      | inr new ↦ elim (Bool-cases (keys.shift_key)) [
        | inl h ↦
            let (t, e, w, m) = select_range-IsAnchored d s s.selected v i v.within in
            (t, ground arith, w)
        | inr h ↦ (
          record { selected = add d s.selected; last_selected = some d },
          ground arith,
          add-IsAnchored d s v i,
        )
      ]
    ]
    | inr c ↦ elim (Bool-cases (keys.shift_key)) [
      | inl h ↦
          let (t, e, w, m) = select_range-IsAnchored d s [] v i (λ k n. absurd (ground arith)) in
          (t, ground arith, w)
      | inr h ↦ (click_alone drawn getrange d s, ground arith, click_alone-IsAnchored d s i)
    ]
  ]

-- Two clicks on an element with Ctrl alone return, and the same elements are selected as before them. The
-- last selected element is then the one that was clicked, if it was selected before, and none otherwise.
pub click_twice :
    (drawn : List String) (getrange : String → String → Option (List String)) (d : String)
    (s : Selection)
    → (t : Selection) × (u : Selection) × (click drawn getrange
          (record { ctrl_key = true; shift_key = false })
          d
          s
        ≡ some t)
      × (click drawn getrange (record { ctrl_key = true; shift_key = false }) d t ≡ some u)
      × ((k : String) → contains k u.selected ≡ contains k s.selected)
      × (u.last_selected ≡ (if contains d s.selected then some d else none))
unfolding click
click_twice drawn getrange d s = elim (Bool-cases (contains d s.selected)) [
  | inl old ↦ (
    record { selected = remove d s.selected; last_selected = forget s d },
    record { selected = add d (remove d s.selected); last_selected = some d },
    ground arith,
    ground (arith, contains-remove d d s.selected, eq_refl d),
    λ k. ground (
      arith,
      contains-add k d (remove d s.selected),
      contains-remove k d s.selected,
      eq_iff d k,
      ap (λ z. contains z s.selected),
    ),
    ground arith,
  )
  | inr new ↦ (
    record { selected = add d s.selected; last_selected = some d },
    record { selected = remove d (add d s.selected); last_selected = none },
    ground arith,
    ground (arith, contains-add d d s.selected, eq_refl d),
    λ k.
        ground
          (arith, contains-remove k d (add d s.selected), contains-add k d s.selected, eq_iff d k),
    ground arith,
  )
]
