-- ===== src/Selectable/Defs.antt =====
-- The click handler and the Ctrl-A handler.
use tracing_framework.Prelude.{
  String, Option, none, some, List, [], ◌∷◌, Bool, false, not, ◌&&◌, ◌==◌, if◌then◌else◌, nat_eq,
  length, filter, get_or,
}
use mathlib.Core.Option
use tracing_framework.Prelude.KeySet.{KeySet, contains, add, remove, union}

pub record Selection : Type 0 where
  pub selected : KeySet
  pub last_selected : Option String

pub record Keys : Type 0 where
  pub ctrl_key : Bool
  pub shift_key : Bool

-- `getrange(a, b).classed("selected", true)`, of which only elements that are drawn are affected
unfoldable pub with_range : List String → List String → KeySet → KeySet
with_range drawn path selected = union selected (filter (λ id. contains id drawn) path)

-- `lastSelected==d`
abbrev pub is_last : Selection → String → Bool
is_last s d = elim s.last_selected [ none ↦ false | some l ↦ l == d ]

abbrev pub forget : Selection → String → Option String
forget s d = if is_last s d then none else s.last_selected

-- `node.classed("selected", on)`
abbrev pub classed : Bool → String → KeySet → KeySet
classed on d selected = if on then add d selected else remove d selected

module _ (drawn : List String) (getrange : String → String → Option (List String)) where
  -- The elements of the range from `d` to the last selected one, or from `d` to itself.
  unfoldable pub select_range : String → Selection → KeySet → Option Selection
  select_range d s selected =
      let l = get_or s.last_selected d in
      Option.map
        (λ path. record { selected = with_range drawn path selected; last_selected = some l })
        (getrange d l)

  -- A click without keys: `selection.filter(".selected")[0].length==1`
  unfoldable pub click_alone : String → Selection → Selection
  click_alone d s =
      if nat_eq (length (filter (λ id. contains id s.selected) drawn)) 1
      then (if contains d s.selected
          then record { selected = []; last_selected = none }
          else record { selected = d ∷ []; last_selected = some d })
      else record { selected = d ∷ []; last_selected = some d }

  unfoldable pub click : Keys → String → Selection → Option Selection
  click keys d s =
      if keys.ctrl_key && keys.shift_key
      then (if contains d s.selected
          then some (record { selected = remove d s.selected; last_selected = forget s d })
          else select_range d s s.selected)
      else if keys.ctrl_key
      then (if contains d s.selected
          then some (record { selected = remove d s.selected; last_selected = forget s d })
          else some (record { selected = add d s.selected; last_selected = some d }))
      else if keys.shift_key
      then select_range d s []
      else some (click_alone d s)

  -- Ctrl-A selects all elements, or none when all are selected.
  unfoldable pub select_all : Selection → Selection
  select_all s = record s {
    selected =
        if nat_eq (length (filter (λ id. not (contains id s.selected)) drawn)) 0 then [] else drawn;
  }

-- `getrange` where the page sets none: an array, which has no `classed`, so using it is a TypeError
abbrev pub two_ends : String → String → Option (List String)
two_ends a b = none
