-- ===== src/Merkle/Endpoint/Owed/Drains.antt =====
-- merkleservice/pool.go: the queue of an endpoint when a drain ends.
use arcade.Prelude.{
  ℕ, ◌+◌, ◌≤◌, ◌≡◌, refl, sym, ap, subst, ◌∙◌, String, Bool, true, ◌||◌, List, [], ◌∷◌, Option,
  arith, string_eq, nat_eq, ltb, length,
}
use arcade.Prelude.Map.{Map}
use arcade.Merkle.Answers.{CallError}
use arcade.Merkle.Catchup.{Registration, Catchup, settle, drained_after_overflow}
use arcade.Merkle.Catchup.Queue.{IsKeyed}
use arcade.Merkle.Endpoint.{
  Endpoint, send_catchup, catchup_batch, drain_batch, end_drain, no_result,
}
use arcade.Merkle.Endpoint.Owed.{fire, in_queue}
use arcade.Merkle.Endpoint.Owed.Sends.{back_off-pending, send_catchup-IsKeyed}

drained-order :
    (q : Catchup)
    → ((drained_after_overflow q).0.order ≡ q.order)
      × ((drained_after_overflow q).0.by_tx_id ≡ q.by_tx_id)
unfolding drained_after_overflow
drained-order q = (ground arith, ground arith)

-- The mark is cleared only where the hooks fire.
drained-in_queue :
    (q : Catchup) (k : String) (base n : ℕ)
    → base ≤ n
    → in_queue k q ≡ true
    → (in_queue k (drained_after_overflow q).0 || ltb base (fire (drained_after_overflow q).1 n))
      ≡ true
unfolding drained_after_overflow
drained-in_queue q k base n l h = ground (arith, l, h)

IsKeyed-same :
    (xs ys : List String) (m n : Map String Registration)
    → xs ≡ ys
    → m ≡ n
    → IsKeyed xs m
    → IsKeyed ys n
IsKeyed-same xs ys m n p q v = subst (λ z. IsKeyed ys z) q (subst (λ z. IsKeyed z m) p v)

settled-same :
    (ended : Bool) (answer : String → Option CallError) (ep : Endpoint) (batch : List Registration)
    → let q = (send_catchup ended answer batch ep.pending no_result).0 in
      let p = (drain_batch ended answer batch ep).pending in
      (p.order ≡ q.order) × (p.by_tx_id ≡ q.by_tx_id) × (p.overflowed ≡ q.overflowed)
unfolding send_catchup drain_batch catchup_batch settle
settled-same ended answer ep [] = (refl, refl, refl)
settled-same ended answer ep (reg ∷ batch) =
    let (q, r) = send_catchup ended answer (reg ∷ batch) ep.pending no_result in
    let e =
      back_off-pending ended (r.landed + r.dropped)
        (record ep { pending = settle (length (reg ∷ batch)) q }) in
    (
      ap (λ (x : Catchup). x.order) e,
      ap (λ (x : Catchup). x.by_tx_id) e,
      ap (λ (x : Catchup). x.overflowed) e,
    )

module _ (ended : Bool) (answer : String → Option CallError) (batch : List Registration)
    (ep : Endpoint) where
  abbrev pub resent : Catchup
  resent = (send_catchup ended answer batch ep.pending no_result).0

  -- The queue before the test for a resync.
  abbrev settled : Catchup
  settled = (drain_batch ended answer batch ep).pending

  settled-order :
      (settled.order ≡ resent.order)
      × (settled.by_tx_id ≡ resent.by_tx_id)
      × (settled.overflowed ≡ resent.overflowed)
  settled-order = settled-same ended answer ep batch

  pub end_drain-IsKeyed :
      IsKeyed ep.pending.order ep.pending.by_tx_id
      → let q = (end_drain ended answer batch ep).0.pending in IsKeyed q.order q.by_tx_id
  unfolding end_drain
  end_drain-IsKeyed v =
      let d = drained-order settled in
      IsKeyed-same resent.order (drained_after_overflow settled).0.order resent.by_tx_id
        (drained_after_overflow settled).0.by_tx_id (sym (d.0 ∙ settled-order.0))
        (sym (d.1 ∙ settled-order.1))
        (send_catchup-IsKeyed ended answer batch ep.pending no_result v)

  pub end_drain-in_queue :
      (k : String) (base n : ℕ)
      → base ≤ n
      → in_queue k resent ≡ true
      → (in_queue k (end_drain ended answer batch ep).0.pending
          || ltb base (fire (end_drain ended answer batch ep).1 n))
        ≡ true
  unfolding end_drain
  end_drain-in_queue k base n l h =
      drained-in_queue settled k base n l (ground (arith, h, settled-order.0, settled-order.2))
