-- ===== src/Merkle/Endpoint.antt =====
-- merkleservice/pool.go: an endpoint, its breaker, the trial that precedes the closing of the breaker, and the
-- drain of its catch-up queue. What a call answers is an argument; a send is two steps, before the
-- calls and after them, since others go on while it waits. Metrics, log lines and the gauge are left out.
use arcade.Prelude.{
  ℕ, zero, suc, ◌+◌, ◌-◌, ◌*◌, String, Bool, true, false, not, ◌&&◌, ◌||◌, List, [], ◌∷◌, Option,
  none, some, ◌==◌, nat_eq, if◌then◌else◌, ltb, leb, length,
}
use arcade.Merkle.Answers.{
  CallError, Outcome, ok, canceled, network, err_5xx, auth, err_4xx, classify, permanent_rejection,
}
use arcade.Merkle.Catchup.{
  Registration, Catchup, new_catchup, add, take_batch, settle, drained_after_overflow,
}
pub mod Owed
pub mod Backoff

pub record Endpoint : Type 0 where
  pub url : String
  pub consecutive_failures : ℕ
  pub is_open : Bool
  pub opened_at : ℕ
  pub last_failure_at : ℕ
  pub pending : Catchup
  pub draining : Bool
  pub backoff_ticks : ℕ
  pub skip_ticks : ℕ

abbrev pub catchup_batch_size : ℕ
catchup_batch_size = 500

abbrev pub catchup_max_backoff_ticks : ℕ
catchup_max_backoff_ticks = 12

unfoldable pub new_endpoint : ℕ → String → Endpoint
new_endpoint queue_size url = record {
  url = url;
  consecutive_failures = 0;
  is_open = false;
  opened_at = 0;
  last_failure_at = 0;
  pending = new_catchup queue_size;
  draining = false;
  backoff_ticks = 0;
  skip_ticks = 0;
}

unfoldable pub close_breaker : Endpoint → Endpoint
close_breaker ep =
    if ep.is_open
    then record ep { is_open = false; opened_at = 0; consecutive_failures = 0 }
    else ep

unfoldable pub record_answer : Bool → Endpoint → Endpoint
record_answer is_ok ep =
    let ep' = record ep { consecutive_failures = 0 } in
    if ep.is_open && is_ok then close_breaker ep' else ep'

unfoldable pub record_failure : ℕ → ℕ → Endpoint → Endpoint
record_failure threshold now ep =
    let ep' = record ep {
      consecutive_failures = ep.consecutive_failures + 1;
      last_failure_at = now;
    } in
    if not ep.is_open && leb threshold (ep.consecutive_failures + 1)
    then record ep' { is_open = true; opened_at = now }
    else ep'

abbrev pub is_ok : Outcome → Bool
is_ok ok = true
is_ok canceled = false
is_ok network = false
is_ok err_5xx = false
is_ok auth = false
is_ok err_4xx = false

abbrev pub is_canceled : Outcome → Bool
is_canceled ok = false
is_canceled canceled = true
is_canceled network = false
is_canceled err_5xx = false
is_canceled auth = false
is_canceled err_4xx = false

abbrev pub is_auth : Outcome → Bool
is_auth ok = false
is_auth canceled = false
is_auth network = false
is_auth err_5xx = false
is_auth auth = true
is_auth err_4xx = false

-- `record`
unfoldable pub record_call : ℕ → Bool → ℕ → Option CallError → Endpoint → Endpoint
record_call threshold ended now err ep =
    let (outcome, failure) = classify ended err in
    if is_canceled outcome
    then ep
    else if failure
    then record_failure threshold now ep
    else record_answer (is_ok outcome) ep

-- Whether a registration that was answered so goes back to the queue.
abbrev pub requeued : Option CallError → Bool
requeued none = false
requeued (some e) = not (permanent_rejection e)

unfoldable pub queue : Registration → Endpoint → Endpoint
queue reg ep = record ep { pending = add reg ep.pending }

-- `trialWatch`, up to its call.
unfoldable pub begin_trial : Endpoint → Endpoint × List Registration
begin_trial ep =
    let (pending, batch) = take_batch 1 ep.pending in (record ep { pending = pending }, batch)

-- After its call, and whether /watch answered below 500.
unfoldable pub end_trial :
    ℕ → Bool → ℕ → Option CallError → Registration → Endpoint → Endpoint × Bool
end_trial threshold ended now err reg ep =
    let ep' = record_call threshold ended now err ep in
    let pending = if requeued err then add reg ep'.pending else ep'.pending in
    let (outcome, failure) = classify ended err in
    (record ep' { pending = settle 1 pending }, not (is_canceled outcome || failure))

-- `probeEndpoint` after /health answered: a trial that has nothing to try decides by /health alone.
unfoldable pub probe_endpoint :
    ℕ → Bool → ℕ → Option CallError → List Registration → Endpoint → Endpoint
probe_endpoint threshold ended now err [] ep = close_breaker ep
probe_endpoint threshold ended now err (reg ∷ batch) ep =
    let (ep', closes) = end_trial threshold ended now err reg ep in
    if closes then close_breaker ep' else ep'

-- `drainCatchup`, for one endpoint: whether a drain starts.
unfoldable pub drain_turn : Endpoint → Endpoint × Bool
drain_turn ep =
    if ep.is_open || ep.draining
    then (ep, false)
    else if ltb 0 ep.skip_ticks
    then (record ep { skip_ticks = ep.skip_ticks - 1 }, false)
    else (record ep { draining = true }, true)

-- `drainEndpoint`, up to the calls.
unfoldable pub begin_drain : Endpoint → Endpoint × List Registration
begin_drain ep =
    let (pending, batch) = take_batch catchup_batch_size ep.pending in
    (record ep { pending = pending }, batch)

pub record CatchupResult : Type 0 where
  pub landed : ℕ
  pub dropped : ℕ
  pub auth : ℕ

abbrev pub no_result : CatchupResult
no_result = record { landed = 0; dropped = 0; auth = 0 }

unfoldable pub count_answer : Bool → Option CallError → CatchupResult → CatchupResult
count_answer ended none r = record r { landed = r.landed + 1 }
count_answer ended (some e) r =
    if permanent_rejection e
    then record r { dropped = r.dropped + 1 }
    else if is_auth (classify ended (some e)).0
    then record r { auth = r.auth + 1 }
    else r

-- `sendCatchup`, after the calls: `answer` is what the endpoint answered for a transaction, of which
-- a batch holds one.
unfoldable pub send_catchup :
    Bool
    → (String → Option CallError)
    → List Registration
    → Catchup
    → CatchupResult
    → Catchup × CatchupResult
send_catchup ended answer [] q r = (q, r)
send_catchup ended answer (reg ∷ batch) q r =
    send_catchup ended answer batch (if requeued (answer reg.tx_id) then add reg q else q)
      (count_answer ended (answer reg.tx_id) r)

unfoldable pub back_off : Bool → ℕ → Endpoint → Endpoint
back_off ended progress ep =
    if progress == 0 && not ended
    then (let ticks =
          if ep.backoff_ticks == 0
          then 1
          else if ltb ep.backoff_ticks catchup_max_backoff_ticks
          then ep.backoff_ticks * 2
          else ep.backoff_ticks in
        record ep { backoff_ticks = ticks; skip_ticks = ticks })
    else if ltb 0 progress
    then record ep { backoff_ticks = 0 }
    else ep

-- `catchupBatch`, after the calls.
unfoldable pub catchup_batch :
    Bool → (String → Option CallError) → List Registration → Endpoint → Endpoint
catchup_batch ended answer batch ep =
    let (q, r) = send_catchup ended answer batch ep.pending no_result in
    back_off ended (r.landed + r.dropped) (record ep { pending = settle (length batch) q })

-- A batch that is not empty is sent.
unfoldable pub drain_batch :
    Bool → (String → Option CallError) → List Registration → Endpoint → Endpoint
drain_batch ended answer [] ep = ep
drain_batch ended answer (reg ∷ batch) ep = catchup_batch ended answer (reg ∷ batch) ep

-- The end of `drainEndpoint`, and the number of dropped entries where the resync hooks fire.
unfoldable pub end_drain :
    Bool → (String → Option CallError) → List Registration → Endpoint → Endpoint × Option ℕ
end_drain ended answer batch ep =
    let ep' = drain_batch ended answer batch ep in
    let (q, fired) = drained_after_overflow ep'.pending in
    (record ep' { pending = q; draining = false }, fired)
