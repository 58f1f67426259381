-- ===== src/Layout/Tests.antt =====
-- A layout of three groups, one of them empty.
use tracing_framework.Prelude.{List, [], ◌∷◌, map, ◌≡◌, refl}
use tracing_framework.Layout.Defs.{
  Lane, Group, set_layout_spacing, lanes_of, new_group, new_layout, place_lanes, place_groups,
  set_group_offset, set_group_spacing, group_height, reduce_spaced, add_spaced,
}

abbrev lane : Lane
lane = record { height = 0; offset = 0 }

abbrev three : List Group
three = new_group (lane ∷ lane ∷ []) ∷ new_group [] ∷ new_group (lane ∷ []) ∷ []

offsets_run : map (λ l. l.offset) (lanes_of (new_layout three).groups) ≡ 0 ∷ 11 ∷ 31 ∷ []
unfolding new_layout new_group set_layout_spacing place_lanes place_groups set_group_offset
    set_group_spacing group_height reduce_spaced add_spaced lanes_of
offsets_run = refl
