-- ===== src/Tests/Rows.antt =====
-- store/pebble/pebble.go: a transaction that is submitted, mined, and whose block is reverted.
use arcade.Prelude.{
  ◌≡◌, refl, String, List, [], ◌∷◌, some, arith, beq-false→ne, string_eq, string_eq,
}
use arcade.Prelude.Map.{lookup}
use arcade.Models.Status.{Status, received, seen_on_network, mined, immutable}
use arcade.Models.Transaction.{TransactionStatus}
use arcade.Pebble.Row.{StoredStatus, to_model, from_model, from_model-to_model}
use arcade.Pebble.Ops.{Store, set_status_by_block_hash}
use arcade.Pebble.Walk.{Op, get_or_insert, set_mined, set_status, run_all}
use arcade.Pebble.Consistency.{IsConsistent, owned, asked, run_all-IsConsistent}
use arcade.Pebble.Guard.{HasRow, immutable_row_stays}
use arcade.Pebble.Reorg.{healthy, after_revert, map_row, revert_exact}

abbrev pub row_at : Status → String → StoredStatus
row_at status hash = record {
  tx_id = "t";
  status = status;
  status_code = 0;
  block_hash = hash;
  block_height = 5;
  merkle_path = [];
  extra_info = "";
  competing_txs = [];
  raw_tx = [];
  retry_count = 0;
  timestamp_ns = 1;
  created_ns = 1;
  next_retry_ns = 0;
  retry_reason = "later";
  merkle_registered_ns = 0;
  orphaned_anchors = [];
}

abbrev submitted : TransactionStatus
submitted = record {
  tx_id = "t";
  status = received;
  status_code = 0;
  timestamp = 1;
  tx_ids = [];
  block_hash = "";
  block_height = 0;
  merkle_path = [];
  extra_info = "";
  competing_txs = [];
  raw_tx = [];
  retry_count = 0;
  next_retry_at = 0;
  created_at = 0;
  orphaned_proofs = [];
  merkle_registered_at = 0;
}

abbrev empty_store : Store
empty_store = record { rows = []; index = [] }

empty_store-IsConsistent : IsConsistent empty_store
unfolding owned asked lookup
empty_store-IsConsistent = record {
  keyed = λ t r h. absurd (ground (arith, h));
  indexed = λ k. refl;
}

-- The submission, the block, and the revert of the block.
abbrev history : List Op
history =
    get_or_insert healthy 1 submitted
    ∷ set_mined (λ t. healthy) 2 "b" 5 ("t" ∷ [])
    ∷ set_status healthy (λ t. healthy) 3 "b" seen_on_network
    ∷ []

run_all-IsConsistent_example : IsConsistent (run_all history empty_store)
run_all-IsConsistent_example = run_all-IsConsistent history empty_store empty_store-IsConsistent

-- A store with one row.
abbrev pub one_row : Status → Store
one_row status = record { rows = ("t", row_at status "b") ∷ []; index = [] }

pub found_row : (status : Status) → lookup "t" (one_row status).rows ≡ some (row_at status "b")
unfolding lookup
found_row status = refl

immutable_row_stays_example :
    HasRow (λ r. r.status ≡ immutable) "t" (run_all history (one_row immutable))
immutable_row_stays_example =
    immutable_row_stays "t" history (one_row immutable) (tt, (tt, (tt, tt)))
      (row_at immutable "b", found_row immutable, refl)

from_model-to_model_example :
    from_model (to_model (row_at mined "b")) ≡ record (row_at mined "b") { retry_reason = "" }
from_model-to_model_example = from_model-to_model (row_at mined "b")

abbrev mined_store : Store
mined_store =
    run_all (get_or_insert healthy 1 submitted ∷ set_mined (λ t. healthy) 2 "b" 5 ("t" ∷ []) ∷ [])
      empty_store

revert_exact_example :
    lookup "t"
      (set_status_by_block_hash healthy (λ k. healthy) 3 "b" seen_on_network mined_store).0.rows
    ≡ map_row (after_revert 3 "b") (lookup "t" mined_store.rows)
revert_exact_example =
    revert_exact 3 "b" "t" mined_store
      (run_all-IsConsistent
        (get_or_insert healthy 1 submitted ∷ set_mined (λ t. healthy) 2 "b" 5 ("t" ∷ []) ∷ [])
        empty_store empty_store-IsConsistent)
      (beq-false→ne "b" "" refl)
