-- ===== src/Selectable/Tests.antt =====
-- Clicks on three elements.
use tracing_framework.Prelude.{
  String, Option, some, none, if◌then◌else◌, List, [], ◌∷◌, true, false, ◌≡◌, refl, arith, eq_iff,
}
use tracing_framework.Prelude.KeySet.{contains, add, remove, union}
use tracing_framework.Selectable.Defs.{
  Selection, Keys, click, select_range, with_range, select_all, two_ends,
}
use tracing_framework.Selectable.Anchor.{IsAnchored, click-IsAnchored, click_twice}

abbrev shown : List String
shown = "a" ∷ "b" ∷ "c" ∷ []

-- A range that the page could set.
abbrev both_ends : String → String → Option (List String)
both_ends a b = some (a ∷ b ∷ [])

abbrev only_b : Selection
only_b = record { selected = "b" ∷ []; last_selected = some "b" }

abbrev shift : Keys
shift = record { ctrl_key = false; shift_key = true }

abbrev ctrl : Keys
ctrl = record { ctrl_key = true; shift_key = false }

range_run :
    click shown both_ends shift "c" only_b
    ≡ some (record { selected = "c" ∷ "b" ∷ []; last_selected = some "b" })
unfolding click select_range with_range union add contains
range_run = refl

both_ends-ends :
    (a b : String)
    → (path : List String) × (both_ends a b ≡ some path)
      × (contains a path ≡ true)
      × (contains b path ≡ true)
unfolding contains
both_ends-ends a b = (a ∷ b ∷ [], refl, ground (arith, eq_iff a a), ground (arith, eq_iff b b))

only_b-IsAnchored : IsAnchored shown both_ends both_ends-ends only_b
unfolding contains
only_b-IsAnchored = record {
  within = λ k c. ground (arith, eq_iff "b" k);
  anchor = λ l c. ground (arith, eq_iff "b" l);
}

shown-has_c : contains "c" shown ≡ true
unfolding contains
shown-has_c = refl

click-IsAnchored_example :
    (t : Selection) × (click shown both_ends shift "c" only_b ≡ some t)
    × IsAnchored shown both_ends both_ends-ends t
click-IsAnchored_example =
    click-IsAnchored shown both_ends both_ends-ends shift "c" only_b only_b-IsAnchored shown-has_c

abbrev b_and_c : Selection
b_and_c = record { selected = "b" ∷ "c" ∷ []; last_selected = some "c" }

ctrl_run : click shown both_ends ctrl "c" only_b ≡ some b_and_c
unfolding click add remove contains
ctrl_run = refl

ctrl_back :
    click shown both_ends ctrl "c" b_and_c
    ≡ some (record { selected = "b" ∷ []; last_selected = none })
unfolding click add remove contains
ctrl_back = refl

click_twice_example :
    (t : Selection) × (u : Selection) × (click shown both_ends ctrl "c" only_b ≡ some t)
    × (click shown both_ends ctrl "c" t ≡ some u)
    × ((k : String) → contains k u.selected ≡ contains k only_b.selected)
    × (u.last_selected ≡ (if contains "c" only_b.selected then some "c" else none))
click_twice_example = click_twice shown both_ends "c" only_b

-- Without a range of the page a click with shift is a TypeError.
default_run : click shown two_ends shift "c" only_b ≡ none
unfolding click select_range
default_run = refl

all_run : (select_all shown both_ends only_b).selected ≡ shown
unfolding select_all contains
all_run = refl
