-- ===== src/Compare/Fractions.antt =====
-- Quotients that are compared: 0 / 0 is NaN, which is neither less nor more than any other, and 1 / 0 is
-- infinity. The extremes of a list, and where a quotient lies between them.
use tracing_framework.Prelude.{
  ℕ, zero, suc, ◌+◌, ◌-◌, ◌*◌, ◌≤◌, List, [], ◌∷◌, Bool, true, false, if◌then◌else◌, ltb, ◌≡◌, ◌⊎◌,
  refl, ap, subst, arith, Bool-cases, inl, inr,
}
use native.Mathlib.Nat.{mul-le-mul_right, le_of_mul-le-mul_right}
use tracing_framework.Workload.Total.{All}
use tracing_framework.Kernel.Defs.{Fraction}

abbrev pub less : Fraction → Fraction → Bool
less f g = ltb (f.top * g.over) (g.top * f.over)

-- `a - b`, where `b` is not more
abbrev pub minus : Fraction → Fraction → Fraction
minus f g = record { top = f.top * g.over - g.top * f.over; over = f.over * g.over }

abbrev pub divide : Fraction → Fraction → Fraction
divide f g = record { top = f.top * g.over; over = f.over * g.top }

pub record Extremes : Type 0 where
  pub min : Fraction
  pub max : Fraction

-- `Infinity` and 0
abbrev pub no_extremes : Extremes
no_extremes = record { min = record { top = 1; over = 0 }; max = record { top = 0; over = 1 } }

-- `if (f > max) max = f; if (f < min) min = f;`
unfoldable pub include : Fraction → Extremes → Extremes
include f e = record {
  min = if less f e.min then f else e.min;
  max = if less e.max f then f else e.max;
}

-- `(f - min) / (max - min)`
abbrev pub between : Extremes → Fraction → Fraction
between e f = divide (minus f e.min) (minus e.max e.min)

abbrev pub Finite : Fraction → Type 0
Finite f = f.over ≡ 0 → f.top ≡ 0

-- `f` is not more than `g`.
abbrev pub NotMore : Fraction → Fraction → Type 0
NotMore f g = f.top * g.over ≤ g.top * f.over

pub record Covers (e : Extremes) (f : Fraction) : Type 0 where
  pub above : NotMore e.min f
  pub below : NotMore f e.max

-- What holds of extremes: the maximum is a number, and the minimum, if it is none, is infinite.
pub record IsProper (e : Extremes) : Type 0 where
  pub max_number : 1 ≤ e.max.over
  pub min_number : (e.min ≡ record { top = 1; over = 0 }) ⊎ (1 ≤ e.min.over)

NotMore-chain : (f g h : Fraction) → 1 ≤ g.over → NotMore f g → NotMore g h → NotMore f h
NotMore-chain f g h p a b =
    le_of_mul-le-mul_right {m = f.top * h.over} {n = h.top * f.over} {k = g.over}
      (omega (arith, mul-le-mul_right h.over a, mul-le-mul_right f.over b)) p

-- What is not covered by infinity is no number.
NotMore-infinite :
    (f g : Fraction) → Finite g → NotMore (record { top = 1; over = 0 }) g → NotMore f g
NotMore-infinite f g fin h =
    let none_over : g.over ≡ 0 = omega (arith, h) in
    let none_top : g.top ≡ 0 = fin none_over in rw (none_over, none_top) (omega arith)

over_cases : (n : ℕ) → (n ≡ 0) ⊎ (1 ≤ n)
over_cases zero = inl refl
over_cases (suc n) = inr (omega arith)

-- What is less than another is a number.
less_number : (f g : Fraction) → less f g ≡ true → 1 ≤ f.over
less_number f g h = elim (over_cases f.over) [ inl z ↦ absurd (ground (arith, h, z)) | inr p ↦ p ]

less_over : (f g : Fraction) → Finite g → less f g ≡ true → 1 ≤ g.over
less_over f g fin h = elim (over_cases g.over) [
  | inl z ↦ absurd (ground (arith, h, z, fin z))
  | inr p ↦ p
]

less-NotMore : (f g : Fraction) → less f g ≡ true → NotMore f g
less-NotMore f g h = ground (arith, h)

not_less-NotMore : (f g : Fraction) → less f g ≡ false → NotMore g f
not_less-NotMore f g h = ground (arith, h)

include-IsProper : (f : Fraction) (e : Extremes) → Finite f → IsProper e → IsProper (include f e)
unfolding include
include-IsProper f e fin p = record {
  max_number = elim (Bool-cases (less e.max f)) [
    | inl h ↦ rw h (less_over e.max f fin h)
    | inr h ↦ rw h p.max_number
  ];
  min_number = elim (Bool-cases (less f e.min)) [
    | inl h ↦ rw h (inr (less_number f e.min h))
    | inr h ↦ rw h p.min_number
  ];
}

include-Covers_new : (f : Fraction) (e : Extremes) → Covers (include f e) f
unfolding include
include-Covers_new f e = record {
  above = elim (Bool-cases (less f e.min)) [
    | inl h ↦ rw h (omega arith)
    | inr h ↦ rw h (not_less-NotMore f e.min h)
  ];
  below = elim (Bool-cases (less e.max f)) [
    | inl h ↦ rw h (omega arith)
    | inr h ↦ rw h (not_less-NotMore e.max f h)
  ];
}

include-Covers :
    (f g : Fraction) (e : Extremes) → Finite g → IsProper e → Covers e g → Covers (include f e) g
unfolding include
include-Covers f g e fin p c = record {
  above = elim (Bool-cases (less f e.min)) [
    | inl h ↦ rw h (elim p.min_number [
      | inl i ↦ NotMore-infinite f g fin (subst (λ z. NotMore z g) i c.above)
      | inr n ↦ NotMore-chain f e.min g n (less-NotMore f e.min h) c.above
    ])
    | inr h ↦ rw h c.above
  ];
  below = elim (Bool-cases (less e.max f)) [
    | inl h ↦ rw h (NotMore-chain g e.max f p.max_number c.below (less-NotMore e.max f h))
    | inr h ↦ rw h c.below
  ];
}

gap :
    (a b m n x y : ℕ)
    → m * b ≤ a * n
    → a * y ≤ x * b
    → (a * n - m * b) * (y * n) ≤ b * n * (x * n - m * y)
gap a b m n x y low high =
    let d = a * n - m * b in
    let e = x * n - m * y in
    let below : d + m * b ≡ a * n = omega (arith, low) in
    let above : x * n ≤ e + m * y = omega arith in
    let step : d * y ≤ e * b =
      omega
        (arith, ap (λ (z : ℕ). z * y) below, mul-le-mul_right b above, mul-le-mul_right n high) in
    omega (arith, mul-le-mul_right n step)

-- A quotient between the extremes is at most 1, or NaN where they are equal.
pub between-NotMore :
    (e : Extremes) (f : Fraction) → Covers e f → (between e f).top ≤ (between e f).over
between-NotMore e f c = gap f.top f.over e.min.top e.min.over e.max.top e.max.over c.above c.below

unfoldable pub include_all : List Fraction → Extremes → Extremes
include_all [] e = e
include_all (f ∷ fs) e = include_all fs (include f e)

-- The extremes of a list cover what is in it, and what was covered before.
pub include_all_lem :
    (fs : List Fraction) (e : Extremes)
    → All Finite fs
    → IsProper e
    → IsProper (include_all fs e)
      × All (Covers (include_all fs e)) fs
      × ((g : Fraction) → Finite g → Covers e g → Covers (include_all fs e) g)
unfolding include_all
include_all_lem [] e fin p = (p, tt, λ g h c. c)
include_all_lem (f ∷ fs) e fin p =
    let (proper, new, old) =
      include_all_lem fs (include f e) fin.1 (include-IsProper f e fin.0 p) in
    (
      proper,
      (old f fin.0 (include-Covers_new f e), new),
      λ g h c. old g h (include-Covers f g e h p c),
    )

pub no_extremes-IsProper : IsProper no_extremes
no_extremes-IsProper = record { max_number = omega arith; min_number = inl refl }
