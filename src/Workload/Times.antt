-- ===== src/Workload/Times.antt =====
-- Times and durations in milliseconds: the code compares them, adds and subtracts them, and divides.
use tracing_framework.Prelude.{ℕ, ◌+◌, ◌-◌, ◌/◌, Bool, leb}

pub record Times : Type 1 where
  pub Time : Type 0
  pub at_most : Time → Time → Bool
  pub of_count : ℕ → Time
  pub plus : Time → Time → Time
  pub minus : Time → Time → Time
  pub over : Time → ℕ → Time
  pub not_a_number : Time

-- Whole numbers.
abbrev pub whole : Times
whole = record {
  Time = ℕ;
  at_most = λ a b. leb a b;
  of_count = λ n. n;
  plus = λ a b. a + b;
  minus = λ a b. a - b;
  over = λ a n. a / n;
  not_a_number = 0;
}
