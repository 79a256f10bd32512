-- ===== src/Tests/Broadcast.antt =====
-- services/propagation/propagator.go: a chunk that is narrowed, and a transaction that is parked.
use arcade.Prelude.{
  ℕ, ◌+◌, ◌-◌, ◌*◌, ◌≤◌, ◌≡◌, refl, Bool, true, false, not, List, [], ◌∷◌, map, arith, max, some,
  length, contains, nat_eq, string_eq, ◌==◌,
}
use arcade.Models.Status.{received, rejected, pending_retry, mined, can_transition_from}
use arcade.Pebble.Guard.{HasRow}
use arcade.Pebble.Reorg.{healthy}
use arcade.Propagation.Narrowing.{copy, broadcast_chunk}
use arcade.Propagation.Narrowing.Settled.{Settles, broadcast_chunk-Settles}
use arcade.Propagation.Parking.{
  charge_one, RetryMsg, PendingRetry, Text, charge_retry_budget, charge_merkle_retry_budget,
}
use arcade.Propagation.Parking.Budget.{Parking, park, park_all, gives_up}
use arcade.Propagation.Parking.Delay.{doubling, parked_until}
use arcade.Tests.Rows.{row_at, one_row, found_row}

-- A network that counts its calls, refuses the transaction 7, and never says which one it refused.
abbrev network : ℕ → List ℕ → ℕ × (List Bool × Bool)
network n chunk = (n + 1, (map (λ m. not (m == 7)) chunk, contains chunk 7))

length-map : (chunk : List ℕ) → length (map (λ m. not (m == 7)) chunk) ≡ length chunk
length-map [] = refl
length-map (m ∷ chunk) = omega (arith, length-map chunk)

-- Of four transactions with one bad one, five calls leave only that one refused.
narrowed :
    broadcast_chunk network 4 0 (1 ∷ 2 ∷ 7 ∷ 4 ∷ []) (false ∷ false ∷ false ∷ false ∷ [])
    ≡ (5, true ∷ true ∷ false ∷ true ∷ [])
unfolding broadcast_chunk copy
narrowed = refl

-- Where every part needs narrowing, four transactions take seven calls.
narrowed_throughout :
    (broadcast_chunk
      (λ n (chunk : List ℕ). (n + 1, (chunk, true)))
      4
      0
      (1 ∷ 2 ∷ 3 ∷ 4 ∷ [])
      (0 ∷ 0 ∷ 0 ∷ 0 ∷ [])).0
    ≡ 7
unfolding broadcast_chunk
narrowed_throughout = refl

broadcast_chunk-Settles_example :
    Settles network
      (λ n. n)
      0
      (1 ∷ 2 ∷ 7 ∷ 4 ∷ [])
      (broadcast_chunk network 4 0 (1 ∷ 2 ∷ 7 ∷ 4 ∷ []) (false ∷ false ∷ false ∷ false ∷ []))
broadcast_chunk-Settles_example =
    broadcast_chunk-Settles network (λ n. n) 4 0 (1 ∷ 2 ∷ 7 ∷ 4 ∷ [])
      (false ∷ false ∷ false ∷ false ∷ []) (λ n chunk. (length-map chunk, refl)) refl (omega arith)
      (omega arith)

abbrev text : Text
text = record {
  has_text = λ line part. line == part;
  no_peer_answered = λ n. "no peer ever answered";
  parent_unknown = λ n line. line;
  last_response = λ n line. line;
}

abbrev schedule : ℕ → PendingRetry
schedule n = record { backoff = 3000000; max_backoff = 9000000; max_attempts = n }

abbrev parking : Parking
parking = record {
  turn = record {
    bump = healthy;
    write = healthy;
    now = 50;
    written = 51;
    random = some (255, 255);
  };
  first_byte = 1;
  bytes = [];
  reason = "";
}

gives_up_example :
    HasRow
      (λ r. r.status ≡ rejected)
      "t"
      (park_all text (schedule 1) "t" (parking ∷ parking ∷ []) (one_row mined))
gives_up_example =
    gives_up text (schedule 1) "t" parking (parking ∷ []) (one_row mined) (row_at mined "b")
      ((refl, refl), ((refl, refl), tt)) (found_row mined) (omega arith)

parked_until_example :
    let expected = doubling (schedule 2) 1 in
    HasRow
      (λ r.
        (r.status ≡ pending_retry)
        × (r.retry_count ≡ 1)
        × (1000050 ≤ r.next_retry_ns)
        × (4 * expected ≤ 5 * (r.next_retry_ns - 50))
        × (5 * (r.next_retry_ns - 50) ≤ max 5000000 (6 * expected)))
      "t"
      (park text (schedule 2) "t" parking (one_row received))
unfolding can_transition_from
parked_until_example =
    parked_until text (schedule 2) "t" parking (one_row received) (row_at received "b") (refl, refl)
      (found_row received) refl (omega arith)

abbrev message : ℕ → RetryMsg
message n = record { tx_id = "t"; raw_tx = []; retry_count = n; merkle_retry_count = 4 }

charged :
    (charge_retry_budget 2 (message 1 ∷ message 2 ∷ []) ≡ (message 2 ∷ [], message 3 ∷ []))
    × ((charge_merkle_retry_budget 5 (message 1 ∷ [])).1 ≡ [])
unfolding charge_retry_budget charge_merkle_retry_budget charge_one
charged = (refl, refl)
