-- ===== src/Tests/Merkle.antt =====
-- The theorems on the pool of merkle services at concrete runs.
use arcade.Prelude.{
  ℕ, ◌≡◌, refl, String, Bool, true, false, List, [], ◌∷◌, Option, none, some, ◌==◌, string_eq,
  if◌then◌else◌,
}
use arcade.Prelude.Map.{lookup}
use arcade.Merkle.Answers.{
  CallError, register_error, transport, merge_errors, merge_from, IsMerged, merge_errors-IsMerged,
}
use arcade.Merkle.Catchup.{Registration, new_catchup}
use arcade.Merkle.Endpoint.{Endpoint, new_endpoint}
use arcade.Merkle.Endpoint.Owed.{
  Event, queued, trial_began, trial_ended, ticked, drain_began, drain_ended, called, step, run,
  start, is_kept,
}
use arcade.Merkle.Endpoint.Owed.Kept.{owed_until_answered}
use arcade.Merkle.Endpoint.Backoff.{HasTicks, fruitless, ticks_after, fruitless-ticks}
use arcade.Merkle.Pool.{
  register_batch_with_results, answer_batch, merge_all, answers_for, closed_endpoints,
}
use arcade.Merkle.Pool.Everywhere.{Reached, registered_everywhere}

abbrev registration : String → Registration
registration id = record { tx_id = id; callback_url = "http://c"; callback_token = "t" }

abbrev refuses : String → Option CallError
refuses k = some (register_error 503)

abbrev later : List Event
later =
    queued (registration "b")
    ∷ called false 3 (some transport)
    ∷ trial_began
    ∷ trial_ended 0 false 4 (some transport)
    ∷ ticked
    ∷ drain_began
    ∷ queued (registration "c")
    ∷ drain_ended 0 false refuses
    ∷ []

owed_until_answered_example :
    let w = run 3 (queued (registration "z") ∷ []) (start 2 "http://m") in
    is_kept "a" w.resyncs (run 3 later (step 3 (queued (registration "a")) w)) ≡ true
owed_until_answered_example =
    owed_until_answered 3 2 "http://m" (queued (registration "z") ∷ []) later (registration "a")

merge_errors-IsMerged_example :
    let errs = some (register_error 401) ∷ some transport ∷ some (register_error 500) ∷ [] in
    IsMerged false errs (merge_errors false errs)
merge_errors-IsMerged_example =
    merge_errors-IsMerged false
      (some (register_error 401) ∷ some transport ∷ some (register_error 500) ∷ [])

fruitless-ticks_example : HasTicks (ticks_after 7) (fruitless 7 (new_endpoint 10 "http://m"))
unfolding new_endpoint
fruitless-ticks_example = fruitless-ticks 7 (new_endpoint 10 "http://m") (refl, refl)

abbrev first_service : Endpoint
first_service = new_endpoint 10 "http://m"

abbrev second_service : Endpoint
second_service = new_endpoint 10 "http://n"

-- The first service accepts, the second does not answer.
abbrev answers : String → ℕ → Option CallError
answers url j = if url == "http://m" then none else some transport

abbrev no_calls : String → List (Bool × ℕ × Option CallError)
no_calls url = []

registered_everywhere_example :
    Reached 3 false answers no_calls
      (first_service ∷ second_service ∷ [])
      0
      1
      (registration "a")
      second_service
      (register_batch_with_results 3 false answers no_calls
        (registration "a" ∷ [])
        (first_service ∷ second_service ∷ [])).0
unfolding new_endpoint new_catchup lookup register_batch_with_results answer_batch merge_all
    answers_for closed_endpoints merge_errors merge_from
registered_everywhere_example =
    registered_everywhere 3 false answers no_calls (registration "a" ∷ [])
      (first_service ∷ second_service ∷ []) 0 1 (registration "a") second_service
      (record { keys = λ k. refl; once = refl; named = λ k. refl }) refl refl refl
