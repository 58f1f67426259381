-- ===== src/History/Defs.antt =====
-- `History` and `DirectedAcyclicGraphHistory`. The nodes are the objects of Graph.js, of which an
-- item changes only the field `hidden`: the store maps the id of a node to that field.
use tracing_framework.Prelude.{
  ℕ, ◌+◌, String, List, [], ◌∷◌, ◌++◌, Bool, true, false, if◌then◌else◌, nat_eq,
}
use tracing_framework.Prelude.Dict.{Dict, put}

-- `seed` numbers the items, so an item is found by its number where the source compares objects.
pub record Item : Type 0 where
  pub id : ℕ
  pub name : String
  pub selection : List String

pub record History : Type 0 where
  pub seed : ℕ
  pub items : List Item
  pub hidden : Dict Bool

abbrev pub new_history : Dict Bool → History
new_history hidden = record { seed = 0; items = []; hidden = hidden }

-- `d.forEach(function(e) { e.visible(!b); })`
unfoldable pub hide_all : Bool → List String → Dict Bool → Dict Bool
hide_all b [] d = d
hide_all b (e ∷ es) d = hide_all b es (put e b d)

abbrev pub apply : Item → Dict Bool → Dict Bool
apply i d = hide_all true i.selection d

abbrev pub unapply : Item → Dict Bool → Dict Bool
unapply i d = hide_all false i.selection d

-- `history.add`: the item gets its number, is stored and applied.
unfoldable pub add : History → String → List String → History
add h name d =
    let item : Item = record { id = h.seed; name = name; selection = d } in
    record { seed = h.seed + 1; items = h.items ++ item ∷ []; hidden = apply item h.hidden }

-- `history.addSelection`: an empty selection is ignored.
unfoldable pub add_selection : History → List String → String → History
add_selection h d name = elim d [ [] ↦ h | e ∷ es ↦ add h name (e ∷ es) ]

-- `indexOf` and `splice`: the first item of that number goes.
unfoldable pub erase : Item → List Item → List Item
erase item [] = []
erase item (i ∷ is) = if nat_eq i.id item.id then is else i ∷ erase item is

unfoldable pub apply_all : List Item → Dict Bool → Dict Bool
apply_all [] d = d
apply_all (i ∷ is) d = apply_all is (apply i d)

-- `history.remove`: the item is unapplied, stored or not, and those that are left are applied again.
unfoldable pub remove : History → Item → History
remove h item =
    let left = erase item h.items in
    record h { items = left; hidden = apply_all left (unapply item h.hidden) }
