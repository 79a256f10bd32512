-- ===== src/Merkle/Endpoint/Owed/Kept.antt =====
-- merkleservice/pool.go: whatever happens to an endpoint, a registration that is queued for it stays
-- owed until it is answered, or a full resync takes its place.
use arcade.Prelude.{
  ℕ, zero, suc, ◌≤◌, ◌≡◌, refl, sym, subst, String, Bool, true, ◌||◌, List, [], ◌∷◌, Option, none,
  some, arith, ◌==◌, string_eq, nat_eq, if◌then◌else◌, ltb, length, take, get_elem?, contains,
}
use arcade.Prelude.Map.{Map}
use arcade.Merkle.Answers.{CallError}
use arcade.Merkle.Catchup.{Registration, Catchup, add, take_out, take_batch, settle}
use arcade.Merkle.Catchup.Queue.{IsKeyed, batch_has, take_out-contains}
use arcade.Merkle.Endpoint.{
  record_call, close_breaker, requeued, queue, begin_trial, probe_endpoint, drain_turn, begin_drain,
  end_drain, no_result,
}
use arcade.Merkle.Endpoint.Owed.{
  World, Event, called, queued, trial_began, trial_ended, ticked, drain_began, drain_ended,
  answers_of, remove_at, fire, start_trial, finish_trial, finish_drain, step, run, start,
  in_batches, in_queue, is_elsewhere, is_kept,
}
use arcade.Merkle.Endpoint.Owed.Sends.{
  record_call-pending, close_breaker-pending, drain_turn-pending, probe_endpoint-pending,
  contains-answers_of, put_back-in_queue, put_back_self, send_catchup-in_queue, send_catchup-batch,
}
use arcade.Merkle.Endpoint.Owed.Drains.{end_drain-in_queue}
use arcade.Merkle.Endpoint.Owed.Sound.{IsSound, step-IsSound, run-IsSound, start-IsSound}

in_batches-remove_at :
    (k : String) (i : ℕ) (bs : List (List Registration)) (b : List Registration)
    → get_elem? bs i ≡ some b
    → in_batches k bs ≡ true
    → (batch_has k b || in_batches k (remove_at i bs)) ≡ true
in_batches-remove_at k i [] b e h = absurd (ground arith)
in_batches-remove_at k zero (c ∷ bs) b e h = ground (arith, e, h)
in_batches-remove_at k (suc i) (c ∷ bs) b e h = ground (arith, h, in_batches-remove_at k i bs b e)

batch_has-remove_at :
    (k : String) (i : ℕ) (ts : List Registration) (reg : Registration)
    → get_elem? ts i ≡ some reg
    → batch_has k ts ≡ true
    → (reg.tx_id == k || batch_has k (remove_at i ts)) ≡ true
batch_has-remove_at k i [] reg e h = absurd (ground arith)
batch_has-remove_at k zero (t ∷ ts) reg e h = ground (arith, e, h)
batch_has-remove_at k (suc i) (t ∷ ts) reg e h = ground (arith, h, batch_has-remove_at k i ts reg e)

take_batch-in_queue :
    (n : ℕ) (q : Catchup) (k : String)
    → IsKeyed q.order q.by_tx_id
    → in_queue k q ≡ true
    → (batch_has k (take_batch n q).1 || in_queue k (take_batch n q).0) ≡ true
unfolding take_batch
take_batch-in_queue n q k v h = ground (arith, h, take_out-contains n q.order q.by_tx_id k v)

take_out-one :
    (order : List String) (m : Map String Registration) → length (take_out (take 1 order) m).1 ≤ 1
unfolding take_out
take_out-one [] m = omega arith
take_out-one (x ∷ order) m = omega arith

ltb-fire : (o : Option ℕ) (base n : ℕ) → ltb base n ≡ true → ltb base (fire o n) ≡ true
ltb-fire none base n h = h
ltb-fire (some d) base n h = ground (arith, h)

le-fire : (o : Option ℕ) (n : ℕ) → n ≤ fire o n
le-fire none n = omega arith
le-fire (some d) n = omega arith

module _ (threshold : ℕ) where
  step-resyncs : (e : Event) (w : World) → w.resyncs ≤ (step threshold e w).resyncs
  unfolding step finish_trial finish_drain
  step-resyncs (called ended now err) w = omega arith
  step-resyncs (queued reg) w = omega arith
  step-resyncs trial_began w = started (begin_trial w.endpoint).1
    where
      started :
          (batch : List Registration)
          → w.resyncs
            ≤ (start_trial batch (record w { endpoint = (begin_trial w.endpoint).0 })).resyncs
      started [] = omega arith
      started (reg ∷ batch) = omega arith
  step-resyncs (trial_ended i ended now err) w = finished (get_elem? w.trials i)
    where
      finished :
          (o : Option Registration)
          → w.resyncs ≤ (finish_trial threshold i ended now err o w).resyncs
      finished none = omega arith
      finished (some reg) = omega arith
  step-resyncs ticked w = omega arith
  step-resyncs drain_began w = omega arith
  step-resyncs (drain_ended i ended answer) w = finished (get_elem? w.batches i)
    where
      finished :
          (o : Option (List Registration)) → w.resyncs ≤ (finish_drain i ended answer o w).resyncs
      finished none = omega arith
      finished (some batch) = le-fire (end_drain ended answer batch w.endpoint).1 w.resyncs

  module _ (k : String) (base : ℕ) where
    same_queue :
        (p q : Catchup) (rest : Bool)
        → q ≡ p
        → (in_queue k p || rest) ≡ true
        → (in_queue k q || rest) ≡ true
    same_queue p q rest e h = subst (λ z. (in_queue k z || rest) ≡ true) (sym e) h

    started-kept :
        (batch : List Registration) (w : World)
        → length batch ≤ 1
        → (batch_has k batch || is_kept k base w) ≡ true
        → is_kept k base (start_trial batch w) ≡ true
    started-kept [] w n h =
        same_queue w.endpoint.pending (close_breaker w.endpoint).pending (is_elsewhere k base w)
          (close_breaker-pending w.endpoint) h
    started-kept (reg ∷ []) w n h = ground (arith, h)
    started-kept (reg ∷ r ∷ batch) w n h = absurd (omega (arith, n))

    trial-kept :
        (i : ℕ) (ended : Bool) (now : ℕ) (err : Option CallError) (w : World)
        → IsSound w
        → is_kept k base w ≡ true
        → (o : Option Registration) → get_elem? w.trials i ≡ o
        → is_kept k base (finish_trial threshold i ended now err o w) ≡ true
    unfolding finish_trial settle
    trial-kept i ended now err w v h none e = h
    trial-kept i ended now err w v h (some reg) e =
        let q = if requeued err then add reg w.endpoint.pending else w.endpoint.pending in
        same_queue (settle 1 q)
          (probe_endpoint threshold ended now err (reg ∷ []) w.endpoint).pending
          (is_elsewhere k base (record w {
            trials = remove_at i w.trials;
            answered = answers_of (λ j. err) (reg ∷ []) w.answered;
          }))
          (probe_endpoint-pending threshold ended now err reg w.endpoint)
          (ground (
            arith,
            h,
            string_eq.beq_iff reg.tx_id k,
            batch_has-remove_at k i w.trials reg e,
            put_back-in_queue (requeued err) reg w.endpoint.pending k,
            put_back_self (requeued err) reg w.endpoint.pending v,
          ))

    drain-kept :
        (i : ℕ) (ended : Bool) (answer : String → Option CallError) (w : World)
        → IsSound w
        → base ≤ w.resyncs
        → is_kept k base w ≡ true
        → (o : Option (List Registration)) → get_elem? w.batches i ≡ o
        → is_kept k base (finish_drain i ended answer o w) ≡ true
    unfolding finish_drain
    drain-kept i ended answer w v l h none e = h
    drain-kept i ended answer w v l h (some batch) e = ground (
      arith,
      h,
      in_batches-remove_at k i w.batches batch e,
      send_catchup-in_queue ended answer batch w.endpoint.pending no_result k,
      send_catchup-batch ended answer batch w.endpoint.pending no_result w.answered k v,
      contains-answers_of answer batch w.answered k,
      ltb-fire (end_drain ended answer batch w.endpoint).1 base w.resyncs,
      end_drain-in_queue ended answer batch w.endpoint k base w.resyncs l,
    )

    drawn_kept :
        (batch : List Registration) (bs : List (List Registration)) (p q : Catchup) (t r : Bool)
        → (in_queue k p || (t || in_batches k bs || r)) ≡ true
        → (in_queue k p ≡ true → (batch_has k batch || in_queue k q) ≡ true)
        → (in_queue k q || (t || in_batches k (batch ∷ bs) || r)) ≡ true
    drawn_kept batch bs p q t r h f = ground (arith, h, f)

    step-kept :
        (e : Event) (w : World)
        → IsSound w
        → base ≤ w.resyncs
        → is_kept k base w ≡ true
        → is_kept k base (step threshold e w) ≡ true
    unfolding step queue begin_trial begin_drain take_batch
    step-kept (called ended now err) w v l h =
        same_queue w.endpoint.pending (record_call threshold ended now err w.endpoint).pending
          (is_elsewhere k base w) (record_call-pending threshold ended now err w.endpoint) h
    step-kept (queued reg) w v l h =
        ground (arith, h, put_back-in_queue true reg w.endpoint.pending k)
    step-kept trial_began w v l h =
        let order = w.endpoint.pending.order in
        let m = w.endpoint.pending.by_tx_id in
        started-kept (begin_trial w.endpoint).1 (record w { endpoint = (begin_trial w.endpoint).0 })
          (take_out-one order m) (ground (arith, h, take_out-contains 1 order m k v))
    step-kept (trial_ended i ended now err) w v l h =
        trial-kept i ended now err w v h (get_elem? w.trials i) refl
    step-kept ticked w v l h =
        same_queue w.endpoint.pending (drain_turn w.endpoint).0.pending (is_elsewhere k base w)
          (drain_turn-pending w.endpoint) h
    step-kept drain_began w v l h =
        drawn_kept (begin_drain w.endpoint).1 w.batches (w.endpoint.pending)
          (begin_drain w.endpoint).0.pending (batch_has k w.trials)
          (contains w.answered k || ltb base w.resyncs) h
          (take_batch-in_queue 500 w.endpoint.pending k v)
    step-kept (drain_ended i ended answer) w v l h =
        drain-kept i ended answer w v l h (get_elem? w.batches i) refl

  run-kept :
      (events : List Event) (w : World) (k : String) (base : ℕ)
      → IsSound w
      → base ≤ w.resyncs
      → is_kept k base w ≡ true
      → is_kept k base (run threshold events w) ≡ true
  unfolding run
  run-kept [] w k base v l h = h
  run-kept (e ∷ events) w k base v l h =
      run-kept events (step threshold e w) k base (step-IsSound threshold e w v)
        (omega (arith, l, step-resyncs e w)) (step-kept k base e w v l h)

-- Whatever happens to an endpoint before and after a registration is queued for it, the
-- transaction waits in its queue, or is out in a trial or a drain, or has been accepted or refused for
-- good, or the queue has dropped entries since the last resync, or the resync hooks have fired
-- since it was queued.
pub owed_until_answered :
    (threshold queue_size : ℕ) (url : String) (before after : List Event) (reg : Registration)
    → let w = run threshold before (start queue_size url) in
      is_kept reg.tx_id w.resyncs (run threshold after (step threshold (queued reg) w)) ≡ true
unfolding step queue
owed_until_answered threshold queue_size url before after reg =
    let w = run threshold before (start queue_size url) in
    let v =
      run-IsSound threshold before (start queue_size url)
        (start-IsSound threshold queue_size url) in
    run-kept threshold after (step threshold (queued reg) w) reg.tx_id w.resyncs
      (step-IsSound threshold (queued reg) w v) (omega arith)
      (ground (arith, put_back_self true reg w.endpoint.pending v))
