-- ===== src/Fetch/Live.antt =====
-- `callback` is called in the end, whatever the order of the answers.
use tracing_framework.Prelude.{
  ℕ, zero, suc, ◌<◌, String, none, List, [], ◌∷◌, ◌≡◌, arith, Option-cases, inl, inr,
}
use tracing_framework.Fetch.Defs.{
  Fetch, batch_callback, json_batch_callback, get_reports, Step, batch_answer, json_answer,
}
use tracing_framework.Fetch.Once.{IsSound, get_reports-IsSound, Step-IsSound}
use tracing_framework.Fetch.Ends.{work, Step-work}

module _ {A : Type 0} where
  -- Along every sequence of answers a state that meets `P` is reached: either this one does, or an answer
  -- can come, and after each answer that can come such a state is reached.
  pub data Inevitable (P : Fetch A → Type 0) : Fetch A → Type 0 where
    here : {s : Fetch A} → P s → Inevitable P s
    later :
        {s : Fetch A}
        → (t : Fetch A) × Step s t
        → ((t : Fetch A) → Step s t → Inevitable P t)
        → Inevitable P s

  -- No request waits, and there was one call.
  pub record IsFinished (s : Fetch A) : Type 0 where
    pub batch_answered : s.batch_request ≡ none
    pub json_answered : s.json_request ≡ none
    pub called : s.calls ≡ s.results ∷ []

  both_answered :
      (s : Fetch A) → IsSound s → s.batch_request ≡ none → s.json_request ≡ none → IsFinished s
  both_answered s i b j = record {
    batch_answered = b;
    json_answered = j;
    called = ground (arith, b, j, i.batch, i.json, i.calls);
  }

  IsFinished-Inevitable : (n : ℕ) (s : Fetch A) → IsSound s → work s < n → Inevitable IsFinished s
  IsFinished-Inevitable zero s i h = absurd (omega (arith, h))
  IsFinished-Inevitable (suc n) s i h =
      let after : (t : Fetch A) → Step s t → Inevitable IsFinished t =
        λ t x. IsFinished-Inevitable n t (Step-IsSound i x) (omega (arith, h, Step-work x)) in
      elim (Option-cases s.batch_request) [
        | inr (ids, b) ↦ later (batch_callback [] s, batch_answer ids [] b) after
        | inl b ↦ elim (Option-cases s.json_request) [
          | inr (id, j) ↦ later (json_batch_callback [] s, json_answer id [] j) after
          | inl j ↦ here (both_answered s i b j)
        ]
      ]

  -- Where every answer is a list of traces, getReports ends, in whatever order the answers come: while a
  -- request waits an answer can come, and after finitely many answers no request waits and it has called
  -- back exactly once, with its results.
  pub get_reports-Inevitable : (js rs : List String) → Inevitable IsFinished (get_reports js rs)
  get_reports-Inevitable js rs =
      let s : Fetch A = get_reports js rs in
      IsFinished-Inevitable (suc (work s)) s (get_reports-IsSound js rs) (omega arith)
