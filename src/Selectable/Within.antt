-- ===== src/Selectable/Within.antt =====
-- What is selected is drawn, also where the last selected element is not selected any more.
use tracing_framework.Prelude.{
  String, Option, some, List, [], ◌∷◌, true, ◌&&◌, ◌==◌, ◌≡◌, arith, eq_iff, Bool-cases, inl, inr,
  filter, get_or, nat_eq, length, subst,
}
use tracing_framework.Prelude.KeySet.{KeySet, contains, add, remove, contains-add, contains-remove}
use tracing_framework.Selectable.Defs.{
  Selection, Keys, with_range, select_range, click_alone, click, forget, select_all,
}
use tracing_framework.Selectable.Anchor.{contains-with_range}

abbrev pub Within : List String → KeySet → Type 0
Within drawn selected = (k : String) → contains k selected ≡ true → contains k drawn ≡ true

module _ (drawn : List String) (getrange : String → String → Option (List String)) where
  only-Within : (d : String) → contains d drawn ≡ true → Within drawn (d ∷ [])
  unfolding contains
  only-Within d i k c =
      let same : d ≡ k = ground (arith, eq_iff d k) in subst (λ z. contains z drawn ≡ true) same i

  add-Within :
      (d : String) (selected : KeySet)
      → contains d drawn ≡ true
      → Within drawn selected
      → Within drawn (add d selected)
  add-Within d selected i w k c = elim (Bool-cases (d == k)) [
    | inl same ↦ subst (λ z. contains z drawn ≡ true) ((eq_iff d k).0 same) i
    | inr other ↦ ground (arith, contains-add k d selected, w k)
  ]

  remove-Within :
      (d : String) (selected : KeySet) → Within drawn selected → Within drawn (remove d selected)
  remove-Within d selected w k c = ground (arith, contains-remove k d selected, w k)

  with_range-Within :
      (path : List String) (selected : KeySet)
      → Within drawn selected
      → Within drawn (with_range drawn path selected)
  with_range-Within path selected w k c =
      ground (arith, contains-with_range k drawn path selected, w k)

  click_alone-Within :
      (d : String) (s : Selection)
      → contains d drawn ≡ true
      → Within drawn (click_alone drawn getrange d s).selected
  unfolding click_alone contains
  click_alone-Within d s i =
      let only = nat_eq (length (filter (λ id. contains id s.selected) drawn)) 1 in
      elim (Bool-cases (only && contains d s.selected)) [
        | inl yes' ↦
            let e : [] ≡ (click_alone drawn getrange d s).selected = ground arith in
            subst (Within drawn) e (λ k c. absurd (ground arith))
        | inr no' ↦
            let e : d ∷ [] ≡ (click_alone drawn getrange d s).selected = ground arith in
            subst (Within drawn) e (only-Within d i)
      ]

  pub select_all-Within : (s : Selection) → Within drawn (select_all drawn getrange s).selected
  unfolding select_all contains
  select_all-Within s k c = ground arith

  module _ (total : (a b : String) → (path : List String) × (getrange a b ≡ some path)) where
    -- A click on an element that is drawn returns, and what is selected stays within what is drawn.
    pub click-Within :
        (keys : Keys) (d : String) (s : Selection)
        → Within drawn s.selected
        → contains d drawn ≡ true
        → (u : Selection) × (click drawn getrange keys d s ≡ some u) × Within drawn u.selected
    unfolding click select_range contains
    click-Within keys d s w i =
        let l = get_or s.last_selected d in
        let (path, e) = total d l in
        let ranged : KeySet → Selection = λ selected. record {
          selected = with_range drawn path selected;
          last_selected = some l;
        } in
        elim (Bool-cases keys.ctrl_key) [
          | inl c ↦ elim (Bool-cases (contains d s.selected)) [
            | inl old ↦ (
              record { selected = remove d s.selected; last_selected = forget s d },
              ground arith,
              remove-Within d s.selected w,
            )
            | inr new ↦ elim (Bool-cases keys.shift_key) [
              | inl h ↦ (ranged s.selected, ground arith, with_range-Within path s.selected w)
              | inr h ↦ (
                record { selected = add d s.selected; last_selected = some d },
                ground arith,
                add-Within d s.selected i w,
              )
            ]
          ]
          | inr c ↦ elim (Bool-cases keys.shift_key) [
            | inl h ↦
                (ranged [], ground arith, with_range-Within path [] (λ k n. absurd (ground arith)))
            | inr h ↦ (click_alone drawn getrange d s, ground arith, click_alone-Within d s i)
          ]
        ]
