-- ===== src/History/Tests.antt =====
-- A session: two selections are hidden, and the first is shown again.
use tracing_framework.Prelude.{String, [], ◌∷◌, true, false, ◌≡◌, refl, inl}
use tracing_framework.Prelude.Dict.{get, put}
use tracing_framework.History.Defs.{
  Item, History, new_history, add_selection, add, remove, hide_all, erase, apply_all,
}
use tracing_framework.History.Visibility.{
  is_hidden, selected, Stored, Session, start, next, hide, restore, hidden-eq-selected,
}

abbrev first : History
first = add_selection (new_history []) ("x" ∷ "y" ∷ []) "one"

abbrev second : History
second = add_selection first ("y" ∷ "z" ∷ []) "two"

abbrev one : Item
one = record { id = 0; name = "one"; selection = "x" ∷ "y" ∷ [] }

abbrev third : History
third = remove second one

one-Stored : Stored one second.items
unfolding Stored add_selection add
one-Stored = inl refl

session : Session (new_history []) third
session =
    next (next (next start (hide ("x" ∷ "y" ∷ []) "one")) (hide ("y" ∷ "z" ∷ []) "two"))
      (restore one one-Stored)

-- `x` is shown again, and `y` is still in the second selection.
hidden_run : (is_hidden third.hidden "x" ≡ false) × (is_hidden third.hidden "y" ≡ true)
unfolding add_selection add remove hide_all erase apply_all get put
hidden_run = (refl, refl)

no_hidden : (x : String) → is_hidden [] x ≡ false
unfolding get
no_hidden x = refl

hidden-eq-selected_example : is_hidden third.hidden "y" ≡ selected third.items "y"
hidden-eq-selected_example = hidden-eq-selected [] third "y" no_hidden session
