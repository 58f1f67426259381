-- ===== src/Fetch/Ends.antt =====
-- The chains of requests end.
use tracing_framework.Prelude.{
  ℕ, zero, suc, ◌+◌, ◌≤◌, ◌<◌, String, Option, none, some, List, [], ◌∷◌, length, arith, inl, inr,
  List-cases,
}
use tracing_framework.Fetch.Defs.{
  drop, Fetch, call_if, batch_callback, json_batch_callback, Step, batch_answer, json_answer,
}

-- The ids that are not requested yet, and the requests that wait.
abbrev pub waiting : Option String → ℕ
waiting none = 0
waiting (some id) = 1

abbrev pub waiting_batch : Option (List String) → ℕ
waiting_batch none = 0
waiting_batch (some ids) = 1

length-drop : (n : ℕ) (xs : List String) → length (drop n xs) ≤ length xs
unfolding drop
length-drop zero xs = omega arith
length-drop (suc n) [] = omega arith
length-drop (suc n) (x ∷ xs) = omega (arith, length-drop n xs)

module _ {A : Type 0} where
  abbrev pub work : Fetch A → ℕ
  work s =
      length s.regular_ids
      + length s.json_ids
      + waiting_batch s.batch_request
      + waiting s.json_request

  -- Each answer leaves fewer ids to request and answers to wait for, so getReports ends after at most
  -- as many answers.
  pub Step-work : {s t : Fetch A} → Step s t → work t < work s
  unfolding batch_callback json_batch_callback call_if drop
  Step-work (batch_answer {s} ids json e) = elim (List-cases s.regular_ids) [
    | inl n ↦ ground arith
    | inr (x, xs, n) ↦ ground (arith, length-drop 19 xs)
  ]
  Step-work (json_answer {s} id json e) = elim (List-cases s.json_ids) [
    | inl n ↦ ground arith
    | inr (x, xs, n) ↦ ground arith
  ]
