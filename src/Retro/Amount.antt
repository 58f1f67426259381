-- ===== src/Retro/Amount.antt =====
-- The numbers of `usage` and `consumption`: the code adds them up, compares them
-- with 0, and divides numbers of a report.
use tracing_framework.Prelude.{ℕ, ◌+◌, ◌/◌, Bool, nat_eq}

pub record Amount : Type 1 where
  pub Carrier : Type 0
  pub nothing : Carrier
  pub plus : Carrier → Carrier → Carrier
  pub is_zero : Carrier → Bool
  pub of_count : ℕ → Carrier
  pub divide : Carrier → Carrier → Carrier

abbrev pub counts : Amount
counts = record {
  Carrier = ℕ;
  nothing = 0;
  plus = λ a b. a + b;
  is_zero = λ a. nat_eq a 0;
  of_count = λ n. n;
  divide = λ a b. a / b;
}
