-- ===== src/Models.antt =====
-- models/transaction.go: the statuses of a transaction, the lattice of transitions between them,
-- and the history of orphaned anchors.
pub mod Status
pub mod Lattice
pub mod Anchors
pub mod Transaction
