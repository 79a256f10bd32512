-- ===== src/Pebble/Row.antt =====
-- store/pebble/pebble.go: `storedStatus`, its conversions and `mergeStatus`.
use arcade.Prelude.{
  ℕ, String, ◌≡◌, refl, ap, List, [], ◌∷◌, map, arith, ◌==◌, string_eq, nat_eq, if◌then◌else◌, ltb,
}
use arcade.Models.Status.{Status, other, status_eq}
use arcade.Models.Anchors.{OrphanedAnchor, append_anchor}
use arcade.Models.Transaction.{TransactionStatus}

pub record StoredOrphanedAnchor : Type 0 where
  pub block_hash : String
  pub block_height : ℕ
  pub orphaned_ns : ℕ

pub record StoredStatus : Type 0 where
  pub tx_id : String
  pub status : Status
  pub status_code : ℕ
  pub block_hash : String
  pub block_height : ℕ
  pub merkle_path : List ℕ
  pub extra_info : String
  pub competing_txs : List String
  pub raw_tx : List ℕ
  pub retry_count : ℕ
  pub timestamp_ns : ℕ
  pub created_ns : ℕ
  pub next_retry_ns : ℕ
  pub retry_reason : String
  pub merkle_registered_ns : ℕ
  pub orphaned_anchors : List StoredOrphanedAnchor

-- appendOrphanedAnchor: the row's own anchor goes to its history.
unfoldable pub append_orphaned_anchor : StoredStatus → ℕ → StoredStatus
append_orphaned_anchor row now = record row {
  orphaned_anchors = append_anchor (λ a. a.block_hash) row.orphaned_anchors anchor;
}
  where
    anchor : StoredOrphanedAnchor
    anchor = record {
      block_hash = row.block_hash;
      block_height = row.block_height;
      orphaned_ns = now;
    }

unfoldable pub anchor_to_model : StoredOrphanedAnchor → OrphanedAnchor
anchor_to_model a = record {
  block_hash = a.block_hash;
  block_height = a.block_height;
  orphaned_at = a.orphaned_ns;
  merkle_path = [];
}

unfoldable pub anchor_from_model : OrphanedAnchor → StoredOrphanedAnchor
anchor_from_model a = record {
  block_hash = a.block_hash;
  block_height = a.block_height;
  orphaned_ns = a.orphaned_at;
}

-- toModel. A time that is 0 stays unset.
unfoldable pub to_model : StoredStatus → TransactionStatus
unfolding anchor_to_model
to_model s = record {
  tx_id = s.tx_id;
  status = s.status;
  status_code = s.status_code;
  timestamp = s.timestamp_ns;
  tx_ids = [];
  block_hash = s.block_hash;
  block_height = s.block_height;
  merkle_path = s.merkle_path;
  extra_info = s.extra_info;
  competing_txs = s.competing_txs;
  raw_tx = s.raw_tx;
  retry_count = s.retry_count;
  next_retry_at = s.next_retry_ns;
  created_at = s.created_ns;
  orphaned_proofs = map anchor_to_model s.orphaned_anchors;
  merkle_registered_at = s.merkle_registered_ns;
}

unfoldable pub from_model : TransactionStatus → StoredStatus
unfolding anchor_from_model
from_model m = record {
  tx_id = m.tx_id;
  status = m.status;
  status_code = m.status_code;
  block_hash = m.block_hash;
  block_height = m.block_height;
  merkle_path = m.merkle_path;
  extra_info = m.extra_info;
  competing_txs = m.competing_txs;
  raw_tx = m.raw_tx;
  retry_count = m.retry_count;
  timestamp_ns = m.timestamp;
  created_ns = m.created_at;
  next_retry_ns = m.next_retry_at;
  retry_reason = "";
  merkle_registered_ns = m.merkle_registered_at;
  orphaned_anchors = map anchor_from_model m.orphaned_proofs;
}

-- "Zero means keep": the update's field where it is set, the row's otherwise.
abbrev pub or_keep_nat : ℕ → ℕ → ℕ
or_keep_nat new old = if ltb 0 new then new else old

abbrev pub or_keep_text : String → String → String
or_keep_text new old = if new == "" then old else new

abbrev pub or_keep_list {ℓ} : {A : Type ℓ} → List A → List A → List A
or_keep_list [] old = old
or_keep_list (x ∷ xs) old = x ∷ xs

abbrev pub or_keep_status : Status → Status → Status
or_keep_status new old = if new == other "" then old else new

-- mergeStatus, for the row that is there. The history of anchors and the retry reason are kept.
unfoldable pub merge_status : StoredStatus → TransactionStatus → StoredStatus
merge_status existing update = record existing {
  tx_id = update.tx_id;
  status = or_keep_status update.status existing.status;
  status_code = or_keep_nat update.status_code existing.status_code;
  block_hash = or_keep_text update.block_hash existing.block_hash;
  block_height = or_keep_nat update.block_height existing.block_height;
  merkle_path = or_keep_list update.merkle_path existing.merkle_path;
  extra_info = or_keep_text update.extra_info existing.extra_info;
  competing_txs = or_keep_list update.competing_txs existing.competing_txs;
  raw_tx = or_keep_list update.raw_tx existing.raw_tx;
  retry_count = or_keep_nat update.retry_count existing.retry_count;
  timestamp_ns = or_keep_nat update.timestamp existing.timestamp_ns;
  created_ns = or_keep_nat update.created_at existing.created_ns;
  next_retry_ns = or_keep_nat update.next_retry_at existing.next_retry_ns;
  merkle_registered_ns = or_keep_nat update.merkle_registered_at existing.merkle_registered_ns;
}

map-anchors : (xs : List StoredOrphanedAnchor) → map anchor_from_model (map anchor_to_model xs) ≡ xs
unfolding anchor_from_model anchor_to_model
map-anchors [] = refl
map-anchors (a ∷ xs) = ap (◌∷◌ a) (map-anchors xs)

-- A row that is read as a model and written back is the same row, but for the reason of the last
-- retry, which the model does not carry.
pub from_model-to_model :
    (s : StoredStatus) → from_model (to_model s) ≡ record s { retry_reason = "" }
unfolding from_model to_model
from_model-to_model s = ground (arith, map-anchors s.orphaned_anchors)
