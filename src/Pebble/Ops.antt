-- ===== src/Pebble/Ops.antt =====
-- store/pebble/pebble.go: the operations on status rows. `Io` says what goes wrong in one call: the
-- context is cancelled, the read of the row fails, or the marshal, set or commit of its batch does.
-- The database applies a batch whole or not at all, so a failed write leaves the store as it was.
use arcade.Prelude.{
  ℕ, ◌+◌, String, Bool, true, false, ◌&&◌, not, List, [], ◌∷◌, Option, none, some, ◌==◌, string_eq,
  if◌then◌else◌, ltb,
}
use arcade.Prelude.Map.{Map, lookup, insert}
use arcade.Models.Status.{
  Status, received, seen_on_network, pending_retry, mined, immutable, other, status_eq,
  can_transition_from,
}
use arcade.Models.Transaction.{TransactionStatus}
use arcade.Pebble.Row.{
  StoredStatus, append_orphaned_anchor, to_model, from_model, or_keep_text, merge_status,
}
use arcade.Pebble.Index.{
  IndexKey, by_status, by_block, by_retry_ready, by_updated, add_status_indexes,
  remove_status_indexes,
}

pub record Store : Type 0 where
  pub rows : Map String StoredStatus
  pub index : List IndexKey

pub record Io : Type 0 where
  pub cancelled : Bool
  pub read_fails : Bool
  pub write_fails : Bool

pub data Error : Type 0 where
  context_cancelled read_error write_error not_found : Error

pub data Outcome {ℓ} (A : Type ℓ) : Type ℓ where
  ok : A → Outcome A
  err : Error → Outcome A

-- The batch of a rewrite: old entries out, the row set, new entries in.
unfoldable pub write_row : String → StoredStatus → StoredStatus → Store → Store
write_row txid existing updated s = record {
  rows = insert txid updated s.rows;
  index = add_status_indexes updated (remove_status_indexes existing s.index);
}

-- writeStatusNew
unfoldable pub write_status_new : StoredStatus → Store → Store
write_status_new st s = record {
  rows = insert st.tx_id st s.rows;
  index = add_status_indexes st s.index;
}

-- Check the context, read the row, and go on with it; `none` is a row that is not there.
unfoldable pub with_row {ℓ} :
    {A : Type ℓ}
    → Io
    → String
    → Store
    → (Option StoredStatus → Store × Outcome A)
    → Store × Outcome A
with_row io txid s next =
    if io.cancelled
    then (s, err context_cancelled)
    else (if io.read_fails then (s, err read_error) else next (lookup txid s.rows))

-- Commit a new state, or fail and keep the old one.
unfoldable pub commit {ℓ} : {A : Type ℓ} → Io → Store → Store → A → Store × Outcome A
commit io s s' a = if io.write_fails then (s, err write_error) else (s', ok a)

-- The row that GetOrInsertStatus inserts.
unfoldable pub new_status : ℕ → TransactionStatus → TransactionStatus
new_status now status = record status {
  timestamp = if ltb 0 status.timestamp then status.timestamp else now;
  status = if status.status == other "" then received else status.status;
  created_at = now;
}

unfoldable pub get_or_insert_status :
    Io → ℕ → TransactionStatus → Store → Store × Outcome (TransactionStatus × Bool)
get_or_insert_status io now status s = with_row io status.tx_id s (elim [
  | some existing ↦ (s, ok (to_model existing, false))
  | none ↦
      let inserted = new_status now status in
      commit io s (write_status_new (from_model inserted) s) (inserted, true)
])

pub record StatusUpdate : Type 0 where
  pub prev : Option TransactionStatus
  pub current : Option TransactionStatus

-- The lattice guard of UpdateStatusReturning: an update without a status always passes.
abbrev pub update_allowed : TransactionStatus → StoredStatus → Bool
update_allowed update existing =
    if update.status == other "" then true else can_transition_from update.status existing.status

unfoldable pub update_status_returning :
    Io → TransactionStatus → Store → Store × Outcome StatusUpdate
update_status_returning io update s = with_row io update.tx_id s (elim [
  | none ↦ (s, err not_found)
  | some existing ↦
      if update_allowed update existing
      then commit io s (write_row update.tx_id existing (merge_status existing update) s)
          (record { prev = some (to_model existing); current = none })
      else (s, ok (record { prev = none; current = some (to_model existing) }))
])

unfoldable pub bump_retry_count : Io → String → Store → Store × Outcome ℕ
bump_retry_count io txid s = with_row io txid s (elim [
  | none ↦ (s, err not_found)
  | some existing ↦
      let updated = record existing { retry_count = existing.retry_count + 1 } in
      commit io s (record s { rows = insert txid updated s.rows }) updated.retry_count
])

-- The row that SetPendingRetryFields writes.
unfoldable pub pending_row : ℕ → List ℕ → ℕ → String → StoredStatus → StoredStatus
pending_row now raw_tx next_retry_at last_reason existing = record existing {
  status = pending_retry;
  raw_tx = raw_tx;
  next_retry_ns = next_retry_at;
  timestamp_ns = now;
  retry_reason = last_reason;
}

unfoldable pub set_pending_retry_fields :
    Io → ℕ → String → List ℕ → ℕ → String → Store → Store × Outcome (Unit {0})
set_pending_retry_fields io now txid raw_tx next_retry_at last_reason s = with_row io txid s (elim [
  | none ↦ (s, err not_found)
  | some existing ↦
      if can_transition_from pending_retry existing.status
      then commit io s
          (write_row txid existing (pending_row now raw_tx next_retry_at last_reason existing) s) tt
      else (s, ok tt)
])

-- The row that ClearRetryState writes, whatever the status of the row before.
unfoldable pub cleared_row : ℕ → Status → String → StoredStatus → StoredStatus
cleared_row now final_status extra_info existing = record existing {
  status = final_status;
  timestamp_ns = now;
  raw_tx = [];
  next_retry_ns = 0;
  retry_reason = "";
  extra_info = or_keep_text extra_info existing.extra_info;
}

unfoldable pub clear_retry_state :
    Io → ℕ → String → Status → String → Store → Store × Outcome (Unit {0})
clear_retry_state io now txid final_status extra_info s = with_row io txid s (elim [
  | none ↦ (s, ok tt)
  | some existing ↦
      commit io s (write_row txid existing (cleared_row now final_status extra_info existing) s) tt
])

-- The row that SetMinedByTxIDs writes: the superseded anchor goes to the history.
unfoldable pub mined_row : ℕ → String → ℕ → StoredStatus → StoredStatus
mined_row now block_hash block_height existing = record anchored {
  status = mined;
  block_hash = block_hash;
  block_height = block_height;
  timestamp_ns = now;
}
  where
    anchored : StoredStatus
    anchored =
        if existing.status == mined && not (existing.block_hash == block_hash)
        then append_orphaned_anchor existing now
        else existing

-- The status that SetMinedByTxIDs reports for a row that it wrote; all other fields are zero.
unfoldable pub mined_status : ℕ → String → ℕ → String → TransactionStatus
mined_status now block_hash block_height txid = record {
  tx_id = txid;
  status = mined;
  status_code = 0;
  timestamp = now;
  tx_ids = [];
  block_hash = block_hash;
  block_height = block_height;
  merkle_path = [];
  extra_info = "";
  competing_txs = [];
  raw_tx = [];
  retry_count = 0;
  next_retry_at = 0;
  created_at = 0;
  orphaned_proofs = [];
  merkle_registered_at = 0;
}

-- A row before a write, and the status that is reported after it.
abbrev pub MinedPair : Type 0
MinedPair = TransactionStatus × TransactionStatus

-- One turn of the loop of SetMinedByTxIDs: the pair, if the row was written.
unfoldable pub set_mined_one :
    Io → ℕ → String → ℕ → String → Store → Store × Outcome (Option MinedPair)
set_mined_one io now block_hash block_height txid s = with_row io txid s (elim [
  | none ↦ (s, ok none)
  | some existing ↦
      if can_transition_from mined existing.status
      then commit io s (write_row txid existing (mined_row now block_hash block_height existing) s)
          (some (to_model existing, mined_status now block_hash block_height txid))
      else (s, ok none)
])

abbrev pub cons_some {ℓ} : {A : Type ℓ} → Option A → List A → List A
cons_some none rest = rest
cons_some (some a) rest = a ∷ rest

-- `for _, txid := range txids`: what the turns gave, up to the error that stopped the loop.
unfoldable pub for_each :
    {A : Type 0}
    → (String → Store → Store × Outcome (Option A))
    → List String
    → Store
    → Store × List A × Option Error
for_each turn [] s = (s, [], none)
for_each turn (t ∷ ts) s =
    let (s', r) = turn t s in
    elim r [
      | err e ↦ (s', [], some e)
      | ok a ↦ let (s'', rest, e) = for_each turn ts s' in (s'', cons_some a rest, e)
    ]

-- SetMinedByTxIDs: the pairs of the rows that were written, and the error that stopped it.
unfoldable pub set_mined_by_txids :
    (String → Io) → ℕ → String → ℕ → List String → Store → Store × List MinedPair × Option Error
set_mined_by_txids io now block_hash block_height txids s =
    for_each (λ t. set_mined_one (io t) now block_hash block_height t) txids s

-- The prefix scan over the entries of one block.
unfoldable pub txids_by_block_hash : String → List IndexKey → List String
txids_by_block_hash block_hash [] = []
txids_by_block_hash block_hash (by_block h t ∷ index) =
    let rest = txids_by_block_hash block_hash index in if h == block_hash then t ∷ rest else rest
txids_by_block_hash block_hash (by_status _ _ ∷ index) = txids_by_block_hash block_hash index
txids_by_block_hash block_hash (by_retry_ready _ _ ∷ index) = txids_by_block_hash block_hash index
txids_by_block_hash block_hash (by_updated _ _ ∷ index) = txids_by_block_hash block_hash index

-- The row that SetStatusByBlockHash writes; a revert to SEEN_ON_NETWORK clears the anchor.
unfoldable pub reverted_row : ℕ → Status → StoredStatus → StoredStatus
reverted_row now new_status existing =
    if new_status == seen_on_network
    then record (append_orphaned_anchor updated now) { block_hash = ""; block_height = 0 }
    else updated
  where
    updated : StoredStatus
    updated = record existing { status = new_status; timestamp_ns = now }

-- One turn of its loop: the id, if the row was rewritten. An unreadable row is skipped.
unfoldable pub set_status_one :
    Io → ℕ → String → Status → String → Store → Store × Outcome (Option String)
set_status_one io now block_hash new_status txid s =
    if io.read_fails then (s, ok none) else elim (lookup txid s.rows) [
      | none ↦ (s, ok none)
      | some existing ↦
          if existing.block_hash == block_hash && not (existing.status == immutable)
          then commit io s (write_row txid existing (reverted_row now new_status existing) s)
              (some txid)
          else (s, ok none)
    ]

-- SetStatusByBlockHash: `scan` is what happens to the index scan, `io` to each row.
unfoldable pub set_status_by_block_hash :
    Io → (String → Io) → ℕ → String → Status → Store → Store × List String × Option Error
set_status_by_block_hash scan io now block_hash new_status s =
    if scan.cancelled
    then (s, [], some context_cancelled)
    else if scan.read_fails
    then (s, [], some read_error)
    else for_each (λ t. set_status_one (io t) now block_hash new_status t)
        (txids_by_block_hash block_hash s.index) s

-- MarkMerkleRegisteredByTxIDs: the stamp has no index entry.
unfoldable pub mark_merkle_registered_one :
    Io → ℕ → String → Store → Store × Outcome (Option (Unit {0}))
mark_merkle_registered_one io ts txid s = with_row io txid s (elim [
  | none ↦ (s, ok none)
  | some existing ↦
      commit io s
        (record s { rows = insert txid (record existing { merkle_registered_ns = ts }) s.rows })
        none
])

unfoldable pub mark_merkle_registered_by_txids :
    (String → Io) → ℕ → List String → Store → Store × Option Error
mark_merkle_registered_by_txids io ts txids s =
    let (s', _, e) = for_each (λ t. mark_merkle_registered_one (io t) ts t) txids s in (s', e)
