-- ===== src/Layout/Defs.antt =====
-- Heights, offsets and spacing. A number that is not set is 0 here: the getters treat both alike.
use tracing_framework.Prelude.{ℕ, ◌+◌, List, [], ◌∷◌, ◌++◌, map, nat_eq, if◌then◌else◌}

pub record Lane : Type 0 where
  pub height : ℕ
  pub offset : ℕ

-- `lane.Height()`
abbrev pub lane_height : Lane → ℕ
lane_height l = if nat_eq l.height 0 then 10 else l.height

pub record Group : Type 0 where
  pub lanes : List Lane
  pub spacing : ℕ
  pub offset : ℕ

-- `reduce(function(a,b) { return a+b+s; })`, from its first value on
unfoldable pub add_spaced : ℕ → ℕ → List ℕ → ℕ
add_spaced s a [] = a
add_spaced s a (b ∷ bs) = add_spaced s (a + b + s) bs

-- 0 for no height, else the reduction
unfoldable pub reduce_spaced : ℕ → List ℕ → ℕ
reduce_spaced s [] = 0
reduce_spaced s (a ∷ bs) = add_spaced s a bs

-- `group.Height()`
unfoldable pub group_height : Group → ℕ
group_height g = reduce_spaced g.spacing (map lane_height g.lanes)

-- `lane.Offset(_); _ += lane.Height() + spacing;`
unfoldable pub place_lanes : ℕ → ℕ → List Lane → List Lane
place_lanes o s [] = []
place_lanes o s (l ∷ ls) = record l { offset = o } ∷ place_lanes (o + (lane_height l + s)) s ls

-- `group.Offset(_)`
unfoldable pub set_group_offset : ℕ → Group → Group
set_group_offset o g = record g { offset = o; lanes = place_lanes o g.spacing g.lanes }

-- `group.Spacing(_)`
unfoldable pub set_group_spacing : ℕ → Group → Group
set_group_spacing s g = set_group_offset g.offset (record g { spacing = s })

-- `this.Spacing(1).Offset(0)` at the end of the constructors of groups
unfoldable pub new_group : List Lane → Group
new_group lanes =
    set_group_offset 0 (set_group_spacing 1 (record { lanes = lanes; spacing = 0; offset = 0 }))

pub record Layout : Type 0 where
  pub groups : List Group
  pub spacing : ℕ

-- `layout.Height()`
unfoldable pub layout_height : Layout → ℕ
layout_height y = reduce_spaced y.spacing (map group_height y.groups)

-- `group.Offset(offset); offset += group.Height() + _;`
unfoldable pub place_groups : ℕ → ℕ → List Group → List Group
place_groups o s [] = []
place_groups o s (g ∷ gs) =
    let placed = set_group_offset o g in placed ∷ place_groups (o + (group_height placed + s)) s gs

-- `layout.Spacing(_)`
unfoldable pub set_layout_spacing : ℕ → Layout → Layout
set_layout_spacing s y = record { groups = place_groups 0 s y.groups; spacing = s }

-- `layout.Lanes()`, the lanes of the groups one after the other
unfoldable pub lanes_of : List Group → List Lane
lanes_of [] = []
lanes_of (g ∷ gs) = g.lanes ++ lanes_of gs

-- `this.Spacing(5)` at the end of the constructors of layouts
unfoldable pub new_layout : List Group → Layout
new_layout groups = set_layout_spacing 5 (record { groups = groups; spacing = 0 })
