-- ===== src/Models/Transaction.antt =====
-- models/transaction.go: `TransactionStatus`. A time is its number of nanoseconds, 0 for the zero
-- time; strings of bytes are lists of numbers; `StatusCode` is an HTTP-like code, never negative.
use arcade.Prelude.{ℕ, String, List}
use arcade.Models.Status.{Status}
use arcade.Models.Anchors.{OrphanedAnchor}

pub record TransactionStatus : Type 0 where
  pub tx_id : String
  pub status : Status
  pub status_code : ℕ
  pub timestamp : ℕ
  pub tx_ids : List String
  pub block_hash : String
  pub block_height : ℕ
  pub merkle_path : List ℕ
  pub extra_info : String
  pub competing_txs : List String
  pub raw_tx : List ℕ
  pub retry_count : ℕ
  pub next_retry_at : ℕ
  pub created_at : ℕ
  pub orphaned_proofs : List OrphanedAnchor
  pub merkle_registered_at : ℕ
