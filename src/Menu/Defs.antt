-- ===== src/Menu/Defs.antt =====
-- `DirectedAcyclicGraphContextMenu`.
use tracing_framework.Prelude.{
  String, Option, none, some, List, [], ◌∷◌, ◌++◌, Bool, true, false, not, ◌&&◌, ◌==◌,
  if◌then◌else◌, filter,
}
use Prim.Native.String
use mathlib.Core.Option
use tracing_framework.Prelude.KeySet.{KeySet, contains}
use tracing_framework.Prelude.Dict.{Dict, get}
use tracing_framework.Graph.Defs.{Graph, get_visible_nodes}
use tracing_framework.Graph.Visible.{get_visible_parents, get_visible_children}
use tracing_framework.Graph.Trail.{get_entire_path_nodes}

-- The graph, the report of each node, the nodes that are drawn, and those of them that are selected.
pub record Shown : Type 0 where
  pub graph : Graph
  pub report_of : String → Option (Dict String)
  pub drawn : List String
  pub selected : KeySet

-- The values of `operation`, with the field and value that two of them carry.
pub data Operation : Type 0 where
  hidethis : Operation
  hideselected : Operation
  hideunselected : Operation
  hidefield : String → String → Operation
  invertselection : Operation
  selectall : Operation
  selectneighbours : Operation
  selectpath : Operation
  selectfield : String → String → Operation

-- `handlers.hidenodes(items, name)` or `handlers.selectnodes(items)`
pub data Effect : Type 0 where
  hidenodes : List String → String → Effect
  selectnodes : List String → Effect

-- `node.report && node.report[fieldname]`, where an empty text counts as none
unfoldable pub field_of : Shown → String → String → Option String
field_of p id fieldname = elim (p.report_of id) [
  | none ↦ none
  | some report ↦ elim (get report fieldname) [
    | none ↦ none
    | some v ↦ if v == "" then none else some v
  ]
]

unfoldable pub has_value : Shown → String → String → String → Bool
has_value p fieldname value id = elim (field_of p id fieldname) [
  | none ↦ false
  | some v ↦ v == value
]

abbrev pub is_selected : Shown → String → Bool
is_selected p id = contains id p.selected

abbrev pub never_visible : Graph → String → Bool
never_visible g id = elim (get g.nodes id) [ none ↦ false | some n ↦ n.never_visible ]

-- `item.getVisibleParents().concat(item.getVisibleChildren())`, and the item itself
unfoldable pub neighbours : Graph → String → Option (List String)
neighbours g this = elim (get_visible_parents g this) [
  | none ↦ none
  | some parents ↦
      Option.map (λ children. (parents ++ children) ++ this ∷ []) (get_visible_children g this)
]

unfoldable pub on_menu_click : Shown → Operation → String → Option Effect
on_menu_click p hideselected this =
    some (hidenodes (filter (is_selected p) p.drawn) "User Selection")
on_menu_click p hideunselected this =
    some (hidenodes (filter (λ id. not (is_selected p id)) p.drawn) "User Selection")
on_menu_click p hidethis this = some (hidenodes (this ∷ []) "User Selection")
on_menu_click p (hidefield fieldname value) this = some (
    hidenodes
      (filter (λ id. not (never_visible p.graph id) && has_value p fieldname value id)
        p.graph.nodelist)
      (String.◌++◌ fieldname (String.◌++◌ ": " value)))
on_menu_click p invertselection this =
    some (selectnodes (filter (λ id. not (is_selected p id)) p.drawn))
on_menu_click p selectall this = some (selectnodes (get_visible_nodes p.graph))
on_menu_click p selectneighbours this = Option.map selectnodes (neighbours p.graph this)
on_menu_click p selectpath this = Option.map selectnodes (get_entire_path_nodes p.graph this)
on_menu_click p (selectfield fieldname value) this =
    some (selectnodes (filter (has_value p fieldname value) (get_visible_nodes p.graph)))

-- The nodes that are previewed while the mouse is over an option.
unfoldable pub on_option_mouse_over : Shown → Operation → String → Option (List String)
on_option_mouse_over p hideselected this = some (filter (is_selected p) p.drawn)
on_option_mouse_over p hideunselected this = some (filter (λ id. not (is_selected p id)) p.drawn)
on_option_mouse_over p hidethis this = some (this ∷ [])
on_option_mouse_over p (hidefield fieldname value) this =
    some (filter (has_value p fieldname value) (get_visible_nodes p.graph))
on_option_mouse_over p (selectfield fieldname value) this =
    some (filter (has_value p fieldname value) (get_visible_nodes p.graph))
on_option_mouse_over p invertselection this = some (filter (λ id. not (is_selected p id)) p.drawn)
on_option_mouse_over p selectall this = some (get_visible_nodes p.graph)
on_option_mouse_over p selectneighbours this = neighbours p.graph this
on_option_mouse_over p selectpath this = get_entire_path_nodes p.graph this

-- `addHideField` and `addSelectField`: an option for a field that the node's report has
unfoldable pub add_field : (String → String → Operation) → Shown → String → String → List Operation
add_field operation p d fieldname = elim (field_of p d fieldname) [
  | none ↦ []
  | some value ↦ operation fieldname value ∷ []
]

unfoldable pub add_fields :
    (String → String → Operation) → Shown → String → List String → List Operation
add_fields operation p d [] = []
add_fields operation p d (f ∷ fs) = add_field operation p d f ++ add_fields operation p d fs

abbrev pub menu_fields : List String
menu_fields = "Agent" ∷ "Host" ∷ "Class" ∷ "ProcessID" ∷ "StateMachineID" ∷ []

-- `!selection.filter(".selected").empty()`
unfoldable pub some_selected : Shown → Bool
some_selected p = elim (filter (is_selected p) p.drawn) [ [] ↦ false | id ∷ ids ↦ true ]

-- The options of the menu of node `d`.
unfoldable pub menu_items : Shown → String → List Operation
menu_items p d =
    hidethis
    ∷ ((if some_selected p then hideselected ∷ hideunselected ∷ [] else [])
        ++ (add_fields hidefield p d menu_fields
            ++ ((if some_selected p then invertselection ∷ [] else [])
                ++ (selectall
                    ∷ selectneighbours
                    ∷ selectpath
                    ∷ add_fields selectfield p d menu_fields))))
