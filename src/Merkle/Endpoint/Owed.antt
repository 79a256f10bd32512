-- ===== src/Merkle/Endpoint/Owed.antt =====
-- merkleservice/pool.go: a registration that an endpoint owes stays owed until it is answered.
use arcade.Prelude.{
  ℕ, zero, suc, ◌+◌, ◌-◌, ◌≤◌, ◌<◌, ◌≡◌, ◌≢◌, ◌⊎◌, refl, sym, ap, subst, ◌∙◌, inl, inr, String,
  Bool, true, false, not, ◌&&◌, ◌||◌, List, [], ◌∷◌, ◌++◌, Option, none, some, arith, ◌==◌,
  string_eq, nat_eq, if◌then◌else◌, ltb, leb, length, take, drop, get_elem?, contains,
  contains-append, Bool-cases, max,
}
use arcade.Prelude.Map.{Map, lookup, insert, delete, member}
use arcade.Merkle.Answers.{CallError, classify, permanent_rejection}
use arcade.Merkle.Catchup.{
  Registration, Catchup, new_catchup, add, take_out, take_batch, settle, drained_after_overflow,
  owed,
}
use arcade.Merkle.Catchup.Queue.{
  IsKeyed, batch_has, add-IsKeyed, add-contains_self, add-contains, add-overflowed,
  take_out-IsKeyed, take_out-contains,
}
use arcade.Merkle.Endpoint.{
  Endpoint, new_endpoint, record_call, record_failure, record_answer, close_breaker, requeued,
  queue, begin_trial, end_trial, probe_endpoint, drain_turn, begin_drain, send_catchup,
  CatchupResult, back_off, catchup_batch, end_drain, no_result,
}
pub mod Sends
pub mod Drains
pub mod Sound
pub mod Kept

-- The registrations whose trials are out, the batches whose drains are out, what the endpoint has
-- accepted or refused for good, and how often the resync hooks have fired.
pub record World : Type 0 where
  pub endpoint : Endpoint
  pub trials : List Registration
  pub batches : List (List Registration)
  pub answered : List String
  pub resyncs : ℕ

pub data Event : Type 0 where
  called : Bool → ℕ → Option CallError → Event
  queued : Registration → Event
  trial_began : Event
  trial_ended : ℕ → Bool → ℕ → Option CallError → Event
  ticked : Event
  drain_began : Event
  drain_ended : ℕ → Bool → (String → Option CallError) → Event

abbrev pub answers_of : (String → Option CallError) → List Registration → List String → List String
answers_of answer [] done = done
answers_of answer (reg ∷ batch) done =
    let rest = answers_of answer batch done in
    if requeued (answer reg.tx_id) then rest else reg.tx_id ∷ rest

abbrev pub remove_at : {A : Type 0} → ℕ → List A → List A
remove_at i [] = []
remove_at zero (b ∷ bs) = bs
remove_at (suc i) (b ∷ bs) = b ∷ remove_at i bs

abbrev pub fire : Option ℕ → ℕ → ℕ
fire none n = n
fire (some d) n = n + 1

-- A probe's trial, where the endpoint owes something, else its breaker closes.
abbrev pub start_trial : List Registration → World → World
start_trial [] w = record w { endpoint = close_breaker w.endpoint }
start_trial (reg ∷ batch) w = record w { trials = reg ∷ w.trials }

unfoldable pub finish_trial :
    ℕ → ℕ → Bool → ℕ → Option CallError → Option Registration → World → World
finish_trial threshold i ended now err none w = w
finish_trial threshold i ended now err (some reg) w = record w {
  endpoint = probe_endpoint threshold ended now err (reg ∷ []) w.endpoint;
  trials = remove_at i w.trials;
  answered = answers_of (λ k. err) (reg ∷ []) w.answered;
}

unfoldable pub finish_drain :
    ℕ → Bool → (String → Option CallError) → Option (List Registration) → World → World
finish_drain i ended answer none w = w
finish_drain i ended answer (some batch) w =
    let (ep, fired) = end_drain ended answer batch w.endpoint in
    record w {
      endpoint = ep;
      batches = remove_at i w.batches;
      answered = answers_of answer batch w.answered;
      resyncs = fire fired w.resyncs;
    }

unfoldable pub step : ℕ → Event → World → World
step threshold (called ended now err) w = record w {
  endpoint = record_call threshold ended now err w.endpoint;
}
step threshold (queued reg) w = record w { endpoint = queue reg w.endpoint }
step threshold trial_began w =
    let (ep, batch) = begin_trial w.endpoint in start_trial batch (record w { endpoint = ep })
step threshold (trial_ended i ended now err) w =
    finish_trial threshold i ended now err (get_elem? w.trials i) w
step threshold ticked w = record w { endpoint = (drain_turn w.endpoint).0 }
step threshold drain_began w =
    let (ep, batch) = begin_drain w.endpoint in
    record w { endpoint = ep; batches = batch ∷ w.batches }
step threshold (drain_ended i ended answer) w =
    finish_drain i ended answer (get_elem? w.batches i) w

unfoldable pub run : ℕ → List Event → World → World
run threshold [] w = w
run threshold (e ∷ events) w = run threshold events (step threshold e w)

unfoldable pub start : ℕ → String → World
start queue_size url = record {
  endpoint = new_endpoint queue_size url;
  trials = [];
  batches = [];
  answered = [];
  resyncs = 0;
}

abbrev pub in_batches : String → List (List Registration) → Bool
in_batches k [] = false
in_batches k (b ∷ bs) = batch_has k b || in_batches k bs

-- In the queue, or dropped from it since the last resync.
abbrev pub in_queue : String → Catchup → Bool
in_queue k q = contains q.order k || q.overflowed

-- In a send, or answered, or a resync has been asked for since there were `base` of them.
abbrev pub is_elsewhere : String → ℕ → World → Bool
is_elsewhere k base w =
    batch_has k w.trials || in_batches k w.batches || (contains w.answered k || ltb base w.resyncs)

-- A transaction waits in the queue or in a send, or has its answer, or a full resync is due or has
-- been asked for since.
abbrev pub is_kept : String → ℕ → World → Bool
is_kept k base w = in_queue k w.endpoint.pending || is_elsewhere k base w
