-- ===== src/Merkle/Endpoint/Owed/Sound.antt =====
-- merkleservice/pool.go: the queue of an endpoint stays well formed, whatever happens to it.
use arcade.Prelude.{
  ℕ, ◌≡◌, refl, sym, subst, String, Bool, List, [], ◌∷◌, Option, none, some, string_eq, nat_eq,
  if◌then◌else◌, get_elem?,
}
use arcade.Prelude.Map.{lookup}
use arcade.Merkle.Answers.{CallError}
use arcade.Merkle.Catchup.{Registration, Catchup, new_catchup, add, take_batch, settle}
use arcade.Merkle.Catchup.Queue.{IsKeyed, add-IsKeyed, take_out-IsKeyed}
use arcade.Merkle.Endpoint.{
  new_endpoint, record_call, close_breaker, requeued, queue, begin_trial, probe_endpoint,
  drain_turn, begin_drain,
}
use arcade.Merkle.Endpoint.Owed.{
  World, Event, called, queued, trial_began, trial_ended, ticked, drain_began, drain_ended,
  start_trial, finish_trial, finish_drain, step, run, start,
}
use arcade.Merkle.Endpoint.Owed.Sends.{
  record_call-pending, close_breaker-pending, drain_turn-pending, probe_endpoint-pending,
  put_back-IsKeyed,
}
use arcade.Merkle.Endpoint.Owed.Drains.{end_drain-IsKeyed}

-- The queue of the endpoint is well formed.
abbrev pub IsSound : World → Type 0
IsSound w = IsKeyed w.endpoint.pending.order w.endpoint.pending.by_tx_id

pending-IsSound : (p q : Catchup) → q ≡ p → IsKeyed p.order p.by_tx_id → IsKeyed q.order q.by_tx_id
pending-IsSound p q e v = subst (λ z. IsKeyed z.order z.by_tx_id) (sym e) v

module _ (threshold : ℕ) where
  started-IsSound :
      (batch : List Registration) (w : World) → IsSound w → IsSound (start_trial batch w)
  started-IsSound [] w v =
      pending-IsSound w.endpoint.pending (close_breaker w.endpoint).pending
        (close_breaker-pending w.endpoint) v
  started-IsSound (reg ∷ batch) w v = v

  trial-IsSound :
      (i : ℕ) (ended : Bool) (now : ℕ) (err : Option CallError) (o : Option Registration)
      (w : World)
      → IsSound w
      → IsSound (finish_trial threshold i ended now err o w)
  unfolding finish_trial settle
  trial-IsSound i ended now err none w v = v
  trial-IsSound i ended now err (some reg) w v =
      pending-IsSound
        (settle 1 (if requeued err then add reg w.endpoint.pending else w.endpoint.pending))
        (probe_endpoint threshold ended now err (reg ∷ []) w.endpoint).pending
        (probe_endpoint-pending threshold ended now err reg w.endpoint)
        (put_back-IsKeyed (requeued err) reg w.endpoint.pending v)

  drain-IsSound :
      (i : ℕ) (ended : Bool) (answer : String → Option CallError) (o : Option (List Registration))
      (w : World)
      → IsSound w
      → IsSound (finish_drain i ended answer o w)
  unfolding finish_drain
  drain-IsSound i ended answer none w v = v
  drain-IsSound i ended answer (some batch) w v = end_drain-IsKeyed ended answer batch w.endpoint v

  pub step-IsSound : (e : Event) (w : World) → IsSound w → IsSound (step threshold e w)
  unfolding step queue begin_trial begin_drain take_batch
  step-IsSound (called ended now err) w v =
      pending-IsSound w.endpoint.pending (record_call threshold ended now err w.endpoint).pending
        (record_call-pending threshold ended now err w.endpoint) v
  step-IsSound (queued reg) w v = add-IsKeyed reg w.endpoint.pending v
  step-IsSound trial_began w v =
      let (ep, batch) = begin_trial w.endpoint in
      started-IsSound batch (record w { endpoint = ep })
        (take_out-IsKeyed 1 w.endpoint.pending.order w.endpoint.pending.by_tx_id v)
  step-IsSound (trial_ended i ended now err) w v =
      trial-IsSound i ended now err (get_elem? w.trials i) w v
  step-IsSound ticked w v =
      pending-IsSound w.endpoint.pending (drain_turn w.endpoint).0.pending
        (drain_turn-pending w.endpoint) v
  step-IsSound drain_began w v =
      take_out-IsKeyed 500 w.endpoint.pending.order w.endpoint.pending.by_tx_id v
  step-IsSound (drain_ended i ended answer) w v =
      drain-IsSound i ended answer (get_elem? w.batches i) w v

  pub run-IsSound : (events : List Event) (w : World) → IsSound w → IsSound (run threshold events w)
  unfolding run
  run-IsSound [] w v = v
  run-IsSound (e ∷ events) w v = run-IsSound events (step threshold e w) (step-IsSound e w v)

  pub start-IsSound : (queue_size : ℕ) (url : String) → IsSound (start queue_size url)
  unfolding start new_endpoint new_catchup lookup
  start-IsSound queue_size url = record { keys = λ k. refl; once = refl; named = λ k. refl }
