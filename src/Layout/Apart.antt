-- ===== src/Layout/Apart.antt =====
-- No two lanes overlap, and none leaves the layout.
use tracing_framework.Prelude.{
  ℕ, ◌+◌, ◌≤◌, List, [], ◌∷◌, ◌++◌, map, ◌≡◌, refl, sym, subst, arith, ap, ap₂, ◌∙◌,
}
use tracing_framework.Layout.Defs.{
  Lane, lane_height, Group, add_spaced, reduce_spaced, group_height, place_lanes, set_group_offset,
  Layout, layout_height, place_groups, set_layout_spacing, lanes_of,
}

-- Each lane lies between the two positions.
unfoldable pub Within : ℕ → ℕ → List Lane → Type 0
Within lo hi [] = Unit
Within lo hi (l ∷ ls) = (lo ≤ l.offset) × (l.offset + lane_height l ≤ hi) × Within lo hi ls

-- No lane begins above the position.
unfoldable pub Below : ℕ → List Lane → Type 0
Below x [] = Unit
Below x (l ∷ ls) = (x ≤ l.offset) × Below x ls

-- Each lane ends before the later ones begin.
unfoldable pub Apart : List Lane → Type 0
Apart [] = Unit
Apart (l ∷ ls) = Below (l.offset + lane_height l) ls × Apart ls

Within-Below : (x lo hi : ℕ) (ls : List Lane) → x ≤ lo → Within lo hi ls → Below x ls
unfolding Within Below
Within-Below x lo hi [] h w = tt
Within-Below x lo hi (l ∷ ls) h (p, q, w) = (omega arith, Within-Below x lo hi ls h w)

Below-append : (x : ℕ) (ks ls : List Lane) → Below x ks → Below x ls → Below x (ks ++ ls)
unfolding Below
Below-append x [] ls a b = b
Below-append x (k ∷ ks) ls (p, a) b = (p, Below-append x ks ls a b)

Within-append :
    (lo hi : ℕ) (ks ls : List Lane) → Within lo hi ks → Within lo hi ls → Within lo hi (ks ++ ls)
unfolding Within
Within-append lo hi [] ls a b = b
Within-append lo hi (k ∷ ks) ls (p, q, a) b = (p, q, Within-append lo hi ks ls a b)

Apart-append :
    (lo mid hi : ℕ) (ks ls : List Lane)
    → Within lo mid ks
    → Apart ks
    → Within mid hi ls
    → Apart ls
    → Apart (ks ++ ls)
unfolding Within Apart
Apart-append lo mid hi [] ls w a v b = b
Apart-append lo mid hi (k ∷ ks) ls (p, q, w) (c, a) v b = (
  Below-append (k.offset + lane_height k) ks ls c
      (Within-Below (k.offset + lane_height k) mid hi ls q v),
  Apart-append lo mid hi ks ls w a v b,
)

Within-nil : (lo hi : ℕ) → Within lo hi []
unfolding Within
Within-nil lo hi = tt

Apart-nil : Apart []
unfolding Apart
Apart-nil = tt

Within-wider :
    (lo hi lo' hi' : ℕ) (ls : List Lane) → lo' ≤ lo → hi ≤ hi' → Within lo hi ls → Within lo' hi' ls
unfolding Within
Within-wider lo hi lo' hi' [] a b w = tt
Within-wider lo hi lo' hi' (l ∷ ls) a b (p, q, w) =
    (omega arith, omega arith, Within-wider lo hi lo' hi' ls a b w)

add_spaced-le : (s a : ℕ) (bs : List ℕ) → a ≤ add_spaced s a bs
unfolding add_spaced
add_spaced-le s a [] = omega arith
add_spaced-le s a (b ∷ bs) = omega (arith, add_spaced-le s (a + b + s) bs)

add_spaced-add : (s o a : ℕ) (bs : List ℕ) → add_spaced s (o + a) bs ≡ o + add_spaced s a bs
unfolding add_spaced
add_spaced-add s o a [] = refl
add_spaced-add s o a (b ∷ bs) =
    ap (λ x. add_spaced s x bs) (omega arith) ∙ add_spaced-add s o (a + b + s) bs

-- The lanes of a group, from its offset on.
place_lanes_lem :
    (o s : ℕ) (l : Lane) (ls : List Lane)
    → Within o (add_spaced s (o + lane_height l) (map lane_height ls)) (place_lanes o s (l ∷ ls))
      × Apart (place_lanes o s (l ∷ ls))
unfolding place_lanes Within Apart Below add_spaced
place_lanes_lem o s l [] = ((omega arith, omega arith, tt), (tt, tt))
place_lanes_lem o s l (m ∷ ls) =
    let top = o + (lane_height l + s) in
    let end = add_spaced s (o + lane_height l + lane_height m + s) (map lane_height ls) in
    let (w, a) = place_lanes_lem top s m ls in
    let same : add_spaced s (top + lane_height m) (map lane_height ls) ≡ end =
      ap (λ x. add_spaced s x (map lane_height ls)) (omega arith) in
    let w' = subst (λ x. Within top x (place_lanes top s (m ∷ ls))) same w in
    (
      (
        omega arith,
        omega (arith, add_spaced-le s (o + lane_height l + lane_height m + s) (map lane_height ls)),
        Within-wider top end o end (place_lanes top s (m ∷ ls)) (omega arith) (omega arith) w',
      ),
      (Within-Below (o + lane_height l) top end (place_lanes top s (m ∷ ls)) (omega arith) w', a),
    )

heights_of_placed :
    (o s : ℕ) (ls : List Lane) → map lane_height (place_lanes o s ls) ≡ map lane_height ls
unfolding place_lanes
heights_of_placed o s [] = refl
heights_of_placed o s (l ∷ ls) =
    ap (λ hs. lane_height l ∷ hs) (heights_of_placed (o + (lane_height l + s)) s ls)

group_height-set_group_offset :
    (o : ℕ) (g : Group) → group_height (set_group_offset o g) ≡ group_height g
unfolding group_height set_group_offset
group_height-set_group_offset o g =
    ap (reduce_spaced g.spacing) (heights_of_placed o g.spacing g.lanes)

place_lanes-Apart :
    (o s : ℕ) (ls : List Lane)
    → Within o (o + reduce_spaced s (map lane_height ls)) (place_lanes o s ls)
      × Apart (place_lanes o s ls)
unfolding reduce_spaced place_lanes Within Apart
place_lanes-Apart o s [] = (tt, tt)
place_lanes-Apart o s (l ∷ ls) =
    let (w, a) = place_lanes_lem o s l ls in
    (
      subst (λ x. Within o x (place_lanes o s (l ∷ ls)))
          (add_spaced-add s o (lane_height l) (map lane_height ls)) w,
      a,
    )

set_group_offset_lem :
    (o : ℕ) (g : Group)
    → Within o (o + group_height g) (set_group_offset o g).lanes
      × Apart (set_group_offset o g).lanes
unfolding set_group_offset group_height
set_group_offset_lem o g = place_lanes-Apart o g.spacing g.lanes

-- Where the next group begins.
step_of :
    (o s : ℕ) (g : Group) → o + (group_height (set_group_offset o g) + s) ≡ o + (group_height g + s)
step_of o s g = ap (λ x. o + (x + s)) (group_height-set_group_offset o g)

heights_of_groups :
    (o s : ℕ) (gs : List Group) → map group_height (place_groups o s gs) ≡ map group_height gs
unfolding place_groups
heights_of_groups o s [] = refl
heights_of_groups o s (g ∷ gs) =
    ap₂ (λ x hs. x ∷ hs) (group_height-set_group_offset o g)
      (heights_of_groups (o + (group_height (set_group_offset o g) + s)) s gs)

place_groups_lem :
    (o s : ℕ) (g : Group) (gs : List Group)
    → Within o
        (add_spaced s (o + group_height g) (map group_height gs))
        (lanes_of (place_groups o s (g ∷ gs)))
      × Apart (lanes_of (place_groups o s (g ∷ gs)))
unfolding place_groups lanes_of add_spaced
place_groups_lem o s g [] =
    let (w, a) = set_group_offset_lem o g in
    let own = (set_group_offset o g).lanes in
    let end = o + group_height g in
    (
      Within-append o end own [] w (Within-nil o end),
      Apart-append o end end own [] w a (Within-nil end end) Apart-nil,
    )
place_groups_lem o s g (h ∷ gs) =
    let (w, a) = set_group_offset_lem o g in
    let own = (set_group_offset o g).lanes in
    let mid = o + group_height g in
    let top = o + (group_height (set_group_offset o g) + s) in
    let rest = lanes_of (place_groups top s (h ∷ gs)) in
    let end = add_spaced s (o + group_height g + group_height h + s) (map group_height gs) in
    let same : add_spaced s (top + group_height h) (map group_height gs) ≡ end =
      ap (λ x. add_spaced s x (map group_height gs)) (omega (arith, step_of o s g)) in
    let (v, b) = place_groups_lem top s h gs in
    let v' = subst (λ x. Within top x rest) same v in
    let high = add_spaced-le s (o + group_height g + group_height h + s) (map group_height gs) in
    (
      Within-append o end own rest
          (Within-wider o mid o end own (omega arith) (omega (arith, high)) w)
          (Within-wider top end o end rest (omega arith) (omega arith) v'),
      Apart-append o mid end own rest w a
          (Within-wider top end mid end rest (omega (arith, step_of o s g)) (omega arith) v') b,
    )

place_groups-Apart :
    (s : ℕ) (gs : List Group)
    → Within 0 (reduce_spaced s (map group_height gs)) (lanes_of (place_groups 0 s gs))
      × Apart (lanes_of (place_groups 0 s gs))
unfolding reduce_spaced place_groups lanes_of
place_groups-Apart s [] = (Within-nil 0 0, Apart-nil)
place_groups-Apart s (g ∷ gs) =
    let (w, a) = place_groups_lem 0 s g gs in
    let first : 0 + group_height g ≡ group_height g = omega arith in
    (
      subst
          (λ x.
            Within 0 (add_spaced s x (map group_height gs)) (lanes_of (place_groups 0 s (g ∷ gs))))
          first w,
      a,
    )

-- When a layout's spacing is set, each lane of it gets a place between 0 and the height of the layout,
-- and ends before the lanes after it begin.
pub set_layout_spacing_lem :
    (s : ℕ) (y : Layout)
    → Within 0 (layout_height (set_layout_spacing s y)) (lanes_of (set_layout_spacing s y).groups)
      × Apart (lanes_of (set_layout_spacing s y).groups)
unfolding set_layout_spacing layout_height
set_layout_spacing_lem s y =
    let (w, a) = place_groups-Apart s y.groups in
    (
      subst (λ hs. Within 0 (reduce_spaced s hs) (lanes_of (place_groups 0 s y.groups)))
          (sym (heights_of_groups 0 s y.groups)) w,
      a,
    )
