-- ===== src/Tests/Consuming.antt =====
-- The consumer's theorems at concrete messages.
use arcade.Prelude.{
  ℕ, ◌+◌, ◌≡◌, ◌<◌, refl, inl, inr, String, Bool, true, false, List, [], ◌∷◌, Option, none, some,
  arith, if◌then◌else◌, nat_eq, ltb,
}
use arcade.Kafka.{
  Message, Turn, Action, marked, sent, flushed, process_one, received, empty, tick, handle_claim,
  max_retries_of, attempts, process_with_retry, finish_one, send_to_dlq,
}
use arcade.Kafka.Retries.{accepted, waits}
use arcade.Kafka.Marks.{In, Covered, marked_offset_accounted, failed_message_passed}

abbrev at_offset : ℕ → Message
at_offset n = record { topic = "tx"; key = "k"; value = "v"; partition = 0; offset = n }

abbrev never : ℕ → Bool
never n = false

abbrev handled_at_once : ℕ → Option String
handled_at_once n = none

abbrev always_fails : ℕ → Option String
always_fails n = some "down"

abbrev good_turn : Turn
good_turn = record {
  handler = handled_at_once;
  cancelled = never;
  marshals = true;
  send_fails = false;
}

abbrev outage : Turn
outage = record { handler = always_fails; cancelled = never; marshals = true; send_fails = true }

abbrev buried : Turn
buried = record { handler = always_fails; cancelled = never; marshals = true; send_fails = false }

-- The position after the highest offset that is marked.
abbrev next_position : List Action → ℕ
next_position [] = 0
next_position (marked o ∷ done) =
    let rest = next_position done in (if ltb rest (o + 1) then o + 1 else rest)
next_position (sent t k e ∷ done) = next_position done
next_position (flushed ∷ done) = next_position done

next_position-after : (done : List Action) (o : ℕ) → In (marked o) done → o < next_position done
next_position-after [] o i = elim i [ ]
next_position-after (marked p ∷ done) o (inl e) = ground (arith, e)
next_position-after (marked p ∷ done) o (inr i) = ground (arith, next_position-after done o i)
next_position-after (sent t k e ∷ done) o (inl q) = absurd (ground (arith, q))
next_position-after (sent t k e ∷ done) o (inr i) = next_position-after done o i
next_position-after (flushed ∷ done) o (inl q) = absurd (ground (arith, q))
next_position-after (flushed ∷ done) o (inr i) = next_position-after done o i

marked_offset_accounted_example :
    let found =
      received (at_offset 4) good_turn ∷ tick ∷ received (at_offset 5) buried ∷ empty ∷ [] in
    Covered 3 found 5 (handle_claim true 3 false found [])
unfolding handle_claim process_one process_with_retry attempts finish_one send_to_dlq max_retries_of
marked_offset_accounted_example =
    marked_offset_accounted 3 false
      (received (at_offset 4) good_turn ∷ tick ∷ received (at_offset 5) buried ∷ empty ∷ []) 5
      (inr (inr (inl refl)))

failed_message_passed_example :
    (process_one true 2 outage (at_offset 4) [] ≡ [])
    × (4
        < next_position (
            handle_claim true 2 false
              (received (at_offset 4) outage ∷ received (at_offset 5) good_turn ∷ [])
              []))
unfolding accepted waits max_retries_of
failed_message_passed_example =
    failed_message_passed next_position 2 false (received (at_offset 5) good_turn ∷ []) []
      (at_offset 4) (at_offset 5) outage good_turn next_position-after refl refl refl (inl refl)
      refl (omega arith)

-- The deferred flush is the last thing that a claim does.
claim_run :
    handle_claim true 2 false
      (received (at_offset 4) outage ∷ received (at_offset 5) good_turn ∷ empty ∷ [])
      []
    ≡ flushed ∷ flushed ∷ marked 5 ∷ []
unfolding handle_claim process_one process_with_retry attempts finish_one send_to_dlq
claim_run = refl
