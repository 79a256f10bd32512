-- ===== src/Tests.antt =====
-- The theorems at concrete inputs, where their hypotheses hold.
mod Lattice
mod Rows
mod Generations
mod Offsets
mod Dispatch
mod Tracking
mod Consuming
mod Merkle
mod Broadcast
mod Hooks
mod Locks
mod Caching
mod Network
mod Delivery
