-- ===== src/Merkle/Endpoint/Owed/Sends.antt =====
-- merkleservice/pool.go: what the answers to a batch do to the queue of an endpoint.
use arcade.Prelude.{
  ℕ, ◌≡◌, inl, inr, String, Bool, true, false, not, ◌||◌, List, [], ◌∷◌, Option, arith, string_eq,
  nat_eq, if◌then◌else◌, contains, Bool-cases,
}
use arcade.Merkle.Answers.{CallError}
use arcade.Merkle.Catchup.{Registration, Catchup, add, settle}
use arcade.Merkle.Catchup.Queue.{
  IsKeyed, batch_has, add-IsKeyed, add-contains_self, add-contains, add-overflowed,
}
use arcade.Merkle.Endpoint.{
  Endpoint, record_call, record_failure, record_answer, close_breaker, requeued, end_trial,
  probe_endpoint, drain_turn, send_catchup, CatchupResult, back_off, count_answer,
}
use arcade.Merkle.Endpoint.Owed.{answers_of, in_queue}

pub record_call-pending :
    (threshold : ℕ) (ended : Bool) (now : ℕ) (err : Option CallError) (ep : Endpoint)
    → (record_call threshold ended now err ep).pending ≡ ep.pending
unfolding record_call record_failure record_answer close_breaker
record_call-pending threshold ended now err ep = ground arith

pub close_breaker-pending : (ep : Endpoint) → (close_breaker ep).pending ≡ ep.pending
unfolding close_breaker
close_breaker-pending ep = ground arith

pub drain_turn-pending : (ep : Endpoint) → (drain_turn ep).0.pending ≡ ep.pending
unfolding drain_turn
drain_turn-pending ep = ground arith

pub back_off-pending :
    (ended : Bool) (progress : ℕ) (ep : Endpoint)
    → (back_off ended progress ep).pending ≡ ep.pending
unfolding back_off
back_off-pending ended progress ep = ground arith

pub probe_endpoint-pending :
    (threshold : ℕ) (ended : Bool) (now : ℕ) (err : Option CallError) (reg : Registration)
    (ep : Endpoint)
    → (probe_endpoint threshold ended now err (reg ∷ []) ep).pending
      ≡ settle 1 (if requeued err then add reg ep.pending else ep.pending)
unfolding probe_endpoint end_trial
probe_endpoint-pending threshold ended now err reg ep = ground (
  arith,
  close_breaker-pending (end_trial threshold ended now err reg ep).0,
  record_call-pending threshold ended now err ep,
)

pub contains-answers_of :
    (answer : String → Option CallError) (batch : List Registration) (done : List String)
    (k : String)
    → contains done k ≡ true
    → contains (answers_of answer batch done) k ≡ true
contains-answers_of answer [] done k h = h
contains-answers_of answer (reg ∷ batch) done k h =
    ground (arith, contains-answers_of answer batch done k h)

-- A registration that may go back to the queue.
pub put_back-IsKeyed :
    (b : Bool) (reg : Registration) (q : Catchup)
    → IsKeyed q.order q.by_tx_id
    → let q' = if b then add reg q else q in IsKeyed q'.order q'.by_tx_id
put_back-IsKeyed true reg q v = add-IsKeyed reg q v
put_back-IsKeyed false reg q v = v

put_back-overflowed :
    (b : Bool) (reg : Registration) (q : Catchup)
    → q.overflowed ≡ true
    → (if b then add reg q else q).overflowed ≡ true
put_back-overflowed true reg q h = add-overflowed reg q h
put_back-overflowed false reg q h = h

pub put_back-in_queue :
    (b : Bool) (reg : Registration) (q : Catchup) (k : String)
    → in_queue k q ≡ true
    → in_queue k (if b then add reg q else q) ≡ true
put_back-in_queue true reg q k h = elim (Bool-cases (contains q.order k)) [
  | inl c ↦ add-contains reg q k c
  | inr c ↦ ground (arith, h, c, add-overflowed reg q)
]
put_back-in_queue false reg q k h = h

pub put_back_self :
    (b : Bool) (reg : Registration) (q : Catchup)
    → IsKeyed q.order q.by_tx_id
    → (in_queue reg.tx_id (if b then add reg q else q) || not b) ≡ true
put_back_self true reg q v = ground (arith, add-contains_self reg q v)
put_back_self false reg q v = ground arith

-- The queue after the answers to a batch.
module _ (ended : Bool) (answer : String → Option CallError) where
  pub send_catchup-IsKeyed :
      (batch : List Registration) (q : Catchup) (r : CatchupResult)
      → IsKeyed q.order q.by_tx_id
      → let q' = (send_catchup ended answer batch q r).0 in IsKeyed q'.order q'.by_tx_id
  unfolding send_catchup
  send_catchup-IsKeyed [] q r v = v
  send_catchup-IsKeyed (reg ∷ batch) q r v =
      let b = requeued (answer reg.tx_id) in
      send_catchup-IsKeyed batch (if b then add reg q else q)
        (count_answer ended (answer reg.tx_id) r) (put_back-IsKeyed b reg q v)

  pub send_catchup-overflowed :
      (batch : List Registration) (q : Catchup) (r : CatchupResult)
      → q.overflowed ≡ true
      → (send_catchup ended answer batch q r).0.overflowed ≡ true
  unfolding send_catchup
  send_catchup-overflowed [] q r h = h
  send_catchup-overflowed (reg ∷ batch) q r h =
      let b = requeued (answer reg.tx_id) in
      send_catchup-overflowed batch (if b then add reg q else q)
        (count_answer ended (answer reg.tx_id) r) (put_back-overflowed b reg q h)

  pub send_catchup-in_queue :
      (batch : List Registration) (q : Catchup) (r : CatchupResult) (k : String)
      → in_queue k q ≡ true
      → in_queue k (send_catchup ended answer batch q r).0 ≡ true
  unfolding send_catchup
  send_catchup-in_queue [] q r k h = h
  send_catchup-in_queue (reg ∷ batch) q r k h =
      let b = requeued (answer reg.tx_id) in
      send_catchup-in_queue batch (if b then add reg q else q)
        (count_answer ended (answer reg.tx_id) r) k (put_back-in_queue b reg q k h)

  pub send_catchup-batch :
      (batch : List Registration) (q : Catchup) (r : CatchupResult) (done : List String)
      (k : String)
      → IsKeyed q.order q.by_tx_id
      → batch_has k batch ≡ true
      → (in_queue k (send_catchup ended answer batch q r).0
          || contains (answers_of answer batch done) k)
        ≡ true
  unfolding send_catchup
  send_catchup-batch [] q r done k v h = absurd (ground arith)
  send_catchup-batch (reg ∷ batch) q r done k v h =
      let b = requeued (answer reg.tx_id) in
      let q' = if b then add reg q else q in
      let r' = count_answer ended (answer reg.tx_id) r in
      ground (
        arith,
        h,
        put_back_self b reg q v,
        string_eq.beq_iff reg.tx_id k,
        send_catchup-in_queue batch q' r' k,
        send_catchup-batch batch q' r' done k (put_back-IsKeyed b reg q v),
      )
