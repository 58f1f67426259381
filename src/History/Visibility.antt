-- ===== src/History/Visibility.antt =====
-- Which nodes the history hides.
use tracing_framework.Prelude.{
  nat_eq, ◌<◌, String, List, [], ◌∷◌, ◌++◌, Bool, true, false, ◌≡◌, refl, ◌||◌, arith,
  if◌then◌else◌, get_or, Bool-cases, inl, inr, ◌⊎◌, ap, sym,
}
use tracing_framework.Prelude.KeySet.{contains}
use tracing_framework.Prelude.Dict.{Dict, get, put, get-put}
use tracing_framework.History.Defs.{
  Item, History, new_history, hide_all, apply, unapply, add, add_selection, erase, apply_all,
  remove,
}

abbrev pub is_hidden : Dict Bool → String → Bool
is_hidden d e = get_or (get d e) false

-- Some item holds the node.
unfoldable pub selected : List Item → String → Bool
selected [] e = false
selected (i ∷ is) e = contains e i.selection || selected is e

hidden-hide_all :
    (b : Bool) (es : List String) (d : Dict Bool) (e : String)
    → is_hidden (hide_all b es d) e ≡ (if contains e es then b else is_hidden d e)
unfolding hide_all contains
hidden-hide_all b [] d e = refl
hidden-hide_all b (k ∷ es) d e = ground (arith, hidden-hide_all b es (put k b d) e, get-put k e b d)

hidden-apply_all :
    (is : List Item) (d : Dict Bool) (e : String)
    → is_hidden (apply_all is d) e ≡ (selected is e || is_hidden d e)
unfolding apply_all selected
hidden-apply_all [] d e = refl
hidden-apply_all (i ∷ is) d e =
    ground (arith, hidden-apply_all is (apply i d) e, hidden-hide_all true i.selection d e)

selected-append :
    (is js : List Item) (e : String) → selected (is ++ js) e ≡ (selected is e || selected js e)
unfolding selected
selected-append [] js e = refl
selected-append (i ∷ is) js e = ground (arith, selected-append is js e)

-- The item is one of the list.
unfoldable pub Stored : Item → List Item → Type 0
Stored item [] = ⊥
Stored item (i ∷ is) = (i ≡ item) ⊎ Stored item is

pub record IsValid (h : History) : Type 0 where
  -- a node is hidden exactly when some item holds it
  pub shown : (e : String) → is_hidden h.hidden e ≡ selected h.items e
  -- the numbers of the items are their own, and below the seed
  pub below : (i : Item) → Stored i h.items → i.id < h.seed
  pub own : (i j : Item) → Stored i h.items → Stored j h.items → i.id ≡ j.id → i ≡ j

Stored-append : (i : Item) (is js : List Item) → Stored i (is ++ js) → Stored i is ⊎ Stored i js
unfolding Stored
Stored-append i [] js s = inr s
Stored-append i (k ∷ is) js (inl e) = inl (inl e)
Stored-append i (k ∷ is) js (inr s) = ground (arith, Stored-append i is js s)

Stored-erase : (i item : Item) (is : List Item) → Stored i (erase item is) → Stored i is
unfolding Stored erase
Stored-erase i item [] s = s
Stored-erase i item (k ∷ is) s = ground (arith, Stored-erase i item is)

-- Without the erased item, the list selects all but what that item alone held.
selected-erase :
    (item : Item) (is : List Item) (e : String)
    → ((i : Item) → Stored i is → i.id ≡ item.id → i ≡ item)
    → Stored item is
    → selected is e ≡ (contains e item.selection || selected (erase item is) e)
unfolding selected erase Stored
selected-erase item [] e own s = absurd s
selected-erase item (i ∷ is) e own s = elim (Bool-cases (nat_eq i.id item.id)) [
  | inl same ↦
      let it = own i (inl refl) (ground arith) in
      ground (arith, ap (λ (x : Item). contains e x.selection) it)
  | inr other ↦ elim s [
    | inl it ↦ absurd (ground (arith, ap (λ (x : Item). x.id) it))
    | inr rest ↦ ground (arith, selected-erase item is e (λ j t. own j (inr t)) rest)
  ]
]

pub new_history-IsValid :
    (d : Dict Bool) → ((e : String) → is_hidden d e ≡ false) → IsValid (new_history d)
unfolding selected Stored
new_history-IsValid d h = record { shown = h; below = λ i s. absurd s; own = λ i j s t e. absurd s }

-- What is stored after `add` was stored before, or is the new item.
Stored-add :
    (h : History) (name : String) (d : List String) (i : Item)
    → Stored i (add h name d).items
    → Stored i h.items ⊎ (i ≡ record { id = h.seed; name = name; selection = d })
unfolding add Stored
Stored-add h name d i s = elim (Stored-append i h.items _ s) [
  | inl old ↦ inl old
  | inr new ↦ elim new [ inl e ↦ inr (sym e) | inr e ↦ absurd e ]
]

-- `add` keeps the invariant.
pub add-IsValid :
    (h : History) (name : String) (d : List String) → IsValid h → IsValid (add h name d)
unfolding add selected
add-IsValid h name d v =
    let item : Item = record { id = h.seed; name = name; selection = d } in
    record {
      shown = λ e. ground (
        arith,
        hidden-hide_all true d h.hidden e,
        selected-append h.items (item ∷ []) e,
        v.shown e,
      );
      below = λ i s. elim (Stored-add h name d i s) [
        | inl old ↦ omega (arith, v.below i old)
        | inr e ↦ omega (arith, ap (λ (x : Item). x.id) e)
      ];
      own = λ i j s t e. elim (Stored-add h name d i s) [
        | inl old ↦ elim (Stored-add h name d j t) [
          | inl old' ↦ v.own i j old old' e
          | inr new' ↦ absurd (omega (arith, v.below i old, ap (λ (x : Item). x.id) new'))
        ]
        | inr new ↦ elim (Stored-add h name d j t) [
          | inl old' ↦ absurd (omega (arith, v.below j old', ap (λ (x : Item). x.id) new))
          | inr new' ↦ cc
        ]
      ];
    }

pub add_selection-IsValid :
    (h : History) (d : List String) (name : String) → IsValid h → IsValid (add_selection h d name)
unfolding add_selection
add_selection-IsValid h [] name v = v
add_selection-IsValid h (e ∷ es) name v = add-IsValid h name (e ∷ es) v

-- Removing a stored item keeps the invariant.
pub remove-IsValid :
    (h : History) (item : Item) → IsValid h → Stored item h.items → IsValid (remove h item)
unfolding remove
remove-IsValid h item v s =
    let known = λ (i : Item) (t : Stored i h.items) (e : i.id ≡ item.id). v.own i item t s e in
    record {
      shown = λ e. ground (
        arith,
        hidden-apply_all (erase item h.items) (unapply item h.hidden) e,
        hidden-hide_all false item.selection h.hidden e,
        v.shown e,
        selected-erase item h.items e known s,
      );
      below = λ i t. v.below i (Stored-erase i item h.items t);
      own = λ i j t u. v.own i j (Stored-erase i item h.items t) (Stored-erase j item h.items u);
    }

-- What the page does with its history: a selection is hidden, or a listed item is clicked.
pub data Step (h : History) : History → Type 0 where
  hide : (d : List String) (name : String) → Step h (add_selection h d name)
  restore : (item : Item) → Stored item h.items → Step h (remove h item)

pub data Session (h : History) : History → Type 0 where
  start : Session h h
  next : {t u : History} → Session h t → Step t u → Session h u

Step-IsValid : {t u : History} → Step t u → IsValid t → IsValid u
Step-IsValid (hide d name) v = add_selection-IsValid _ d name v
Step-IsValid (restore item s) v = remove-IsValid _ item v s

Session-IsValid : {h t : History} → Session h t → IsValid h → IsValid t
Session-IsValid start v = v
Session-IsValid (next s st) v = Step-IsValid st (Session-IsValid s v)

-- If no node is hidden at first, then after every session a node is hidden exactly when some item of
-- the history holds it.
pub hidden-eq-selected :
    (d : Dict Bool) (h : History) (e : String)
    → ((x : String) → is_hidden d x ≡ false)
    → Session (new_history d) h
    → is_hidden h.hidden e ≡ selected h.items e
hidden-eq-selected d h e clear s = (Session-IsValid s (new_history-IsValid d clear)).shown e
