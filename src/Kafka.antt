-- ===== src/Kafka.antt =====
-- kafka/consumer.go: the loop over a claim, the retries of a message, and its dead letter. What
-- the handler, the clock, the context and the producer do while a message is processed is its `Turn`.
-- Headers, spans, metrics and log lines are left out.
use arcade.Prelude.{
  ℕ, zero, suc, ◌+◌, ◌≡◌, ◌⊎◌, String, Bool, true, false, not, ◌&&◌, ◌||◌, List, [], ◌∷◌, Option,
  none, some, if◌then◌else◌, ltb, ◌==◌, nat_eq,
}
use arcade.Kafka.Topics.{dlq_topic}
pub mod Topics
pub mod Retries
pub mod Marks

pub record Message : Type 0 where
  pub topic : String
  pub key : String
  pub value : String
  pub partition : ℕ
  pub offset : ℕ

-- The dead letter of a message.
pub record Envelope : Type 0 where
  pub original_topic : String
  pub original_key : String
  pub original_value : String
  pub error : String
  pub partition : ℕ
  pub offset : ℕ

-- The handler's error at each attempt, none where it succeeds; whether the claim's context ends
-- during the wait before an attempt; and what happens to the dead letter.
pub record Turn : Type 0 where
  pub handler : ℕ → Option String
  pub cancelled : ℕ → Bool
  pub marshals : Bool
  pub send_fails : Bool

-- What the wrapper does to the outside, the newest first.
pub data Action : Type 0 where
  marked : ℕ → Action
  sent : String → String → Envelope → Action
  flushed : Action

-- NewConsumerGroup's number of attempts, of an integer that is 0 where it is not positive.
unfoldable pub max_retries_of : ℕ → ℕ
max_retries_of n = if n == 0 then 5 else n

module _ (t : Turn) where
  -- `left` attempts remain from `attempt` on.
  unfoldable pub attempts : ℕ → ℕ → Option String → Option String
  attempts zero attempt last_err = last_err
  attempts (suc left) attempt last_err =
      if ltb 0 attempt && t.cancelled attempt
      then last_err
      else elim (t.handler attempt) [ none ↦ none | some e ↦ attempts left (attempt + 1) (some e) ]

  unfoldable pub process_with_retry : ℕ → Option String
  process_with_retry max_retries = attempts max_retries 0 none

abbrev pub envelope : Message → String → Envelope
envelope msg e = record {
  original_topic = msg.topic;
  original_key = msg.key;
  original_value = msg.value;
  error = e;
  partition = msg.partition;
  offset = msg.offset;
}

-- What the loop's selects find. The list ends where the channel closes or the context ends.
pub data Found : Type 0 where
  received : Message → Turn → Found
  empty : Found
  tick : Found

module _ (has_producer : Bool) where
  -- Whether it fails, and what it did.
  unfoldable pub send_to_dlq : Turn → Message → String → List Action → List Action × Bool
  send_to_dlq t msg e done =
      if not has_producer || not t.marshals
      then (done, false)
      else if t.send_fails
      then (done, true)
      else (sent (dlq_topic msg.topic) msg.key (envelope msg e) ∷ done, false)

  unfoldable pub finish_one : Turn → Message → Option String → List Action → List Action
  finish_one t msg none done = marked msg.offset ∷ done
  finish_one t msg (some e) done =
      let (done', failed) = send_to_dlq t msg e done in
      if failed then done' else marked msg.offset ∷ done'

  module _ (max_retries : ℕ) where
    unfoldable pub process_one : Turn → Message → List Action → List Action
    process_one t msg done = finish_one t msg (process_with_retry t max_retries) done

    -- `draining` is the inner loop, which does not look at the ticker and flushes when it finds no
    -- message; the outer one waits, and flushes at a tick. The claim's end flushes as well.
    unfoldable pub handle_claim : Bool → List Found → List Action → List Action
    handle_claim draining [] done = flushed ∷ done
    handle_claim draining (received msg t ∷ found) done =
        handle_claim true found (process_one t msg done)
    handle_claim true (empty ∷ found) done = handle_claim false found (flushed ∷ done)
    handle_claim false (empty ∷ found) done = handle_claim false found done
    handle_claim true (tick ∷ found) done = handle_claim true found done
    handle_claim false (tick ∷ found) done = handle_claim false found (flushed ∷ done)
