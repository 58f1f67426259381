-- ===== src/Fetch/Defs.antt =====
-- The state that the two callbacks share, and the steps between their calls.
use tracing_framework.Prelude.{
  ◌≡◌, ℕ, zero, suc, String, Option, none, some, List, [], ◌∷◌, ◌++◌, Bool, true, false,
  if◌then◌else◌,
}

-- `splice(0, n)`: what it takes, and what it leaves.
unfoldable pub take {ℓ} : {A : Type ℓ} → ℕ → List A → List A
take zero xs = []
take (suc n) [] = []
take (suc n) (x ∷ xs) = x ∷ take n xs

unfoldable pub drop {ℓ} : {A : Type ℓ} → ℕ → List A → List A
drop zero xs = xs
drop (suc n) [] = []
drop (suc n) (x ∷ xs) = drop n xs

-- A trace of an answer, of which only the id is read here.
pub record Trace (A : Type 0) : Type 0 where
  pub trace_id : Option String
  pub body : A

-- `if (json.length==1) json[0].id = json_fecthing_id`
unfoldable pub named : {A : Type 0} → Option String → List (Trace A) → List (Trace A)
named none json = json
named (some id) [] = []
named (some id) (x ∷ []) = record x { trace_id = some id } ∷ []
named (some id) (x ∷ y ∷ json) = x ∷ y ∷ json

-- The requests that wait for an answer, and the lists that `callback` was called with, are part of the
-- state.
pub record Fetch (A : Type 0) : Type 0 where
  pub regular_ids : List String
  pub json_ids : List String
  pub results : List (Trace A)
  pub jsondone : Bool
  pub batchdone : Bool
  pub batch_request : Option (List String)
  pub json_request : Option String
  pub calls : List (List (Trace A))

module _ {A : Type 0} where
  -- `if (jsondone && batchdone) callback(results)`, where the other chain is `other`
  unfoldable pub call_if : Bool → Fetch A → Fetch A
  call_if other s = if other then record s { calls = s.calls ++ s.results ∷ [] } else s

  unfoldable pub batch_callback : List (Trace A) → Fetch A → Fetch A
  batch_callback json s =
      let t : Fetch A = record s { results = s.results ++ json; batch_request = none } in
      elim s.regular_ids [
        | [] ↦ call_if s.jsondone (record t { batchdone = true })
        | id ∷ ids ↦ record t {
          regular_ids = drop 20 (id ∷ ids);
          batch_request = some (take 20 (id ∷ ids));
        }
      ]

  unfoldable pub json_batch_callback : List (Trace A) → Fetch A → Fetch A
  json_batch_callback json s =
      let t : Fetch A = record s {
        results = s.results ++ named s.json_request json;
        json_request = none;
      } in
      elim s.json_ids [
        | [] ↦ call_if s.batchdone (record t { jsondone = true })
        | id ∷ ids ↦ record t { json_ids = ids; json_request = some id }
      ]

  -- `json_batch_callback` with what d3.json hands on: of null, after a request that failed, the length is
  -- read, which is a TypeError.
  unfoldable pub json_received : Option (List (Trace A)) → Fetch A → Option (Fetch A)
  json_received none s = none
  json_received (some json) s = some (json_batch_callback json s)

  abbrev pub no_request : List String → List String → Fetch A
  no_request json_ids regular_ids = record {
    regular_ids = regular_ids;
    json_ids = json_ids;
    results = [];
    jsondone = false;
    batchdone = false;
    batch_request = none;
    json_request = none;
    calls = [];
  }

  -- The two calls at the end of `getReports`.
  unfoldable pub get_reports : List String → List String → Fetch A
  get_reports json_ids regular_ids =
      json_batch_callback [] (batch_callback [] (no_request json_ids regular_ids))

  -- An answer to a request that waits, a list of traces. Any other answer is no step: the chain that asked
  -- for it stops without a call.
  pub data Step : Fetch A → Fetch A → Type 0 where
    batch_answer :
        {s : Fetch A} (ids : List String) (json : List (Trace A))
        → s.batch_request ≡ some ids
        → Step s (batch_callback json s)
    json_answer :
        {s : Fetch A} (id : String) (json : List (Trace A))
        → s.json_request ≡ some id
        → Step s (json_batch_callback json s)

  pub data Run : Fetch A → Fetch A → Type 0 where
    stop : {s : Fetch A} → Run s s
    next : {s t u : Fetch A} → Run s t → Step t u → Run s u
