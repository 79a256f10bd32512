-- ===== src/Pebble.antt =====
-- store/pebble/pebble.go: the embedded store. The key-value database is not under the repository: a
-- store is the state that its keys hold, an atomic batch is one new state, and its failures are an
-- argument of each operation. Every operation on a row runs under the lock of that row, so each is
-- one step.
pub mod Row
pub mod Index
pub mod Ops
pub mod Walk
pub mod Consistency
pub mod Guard
pub mod Leases
pub mod Endpoints
pub mod Submissions
pub mod Reports
pub mod Reorg
pub mod Blocks
pub mod Phantoms
pub mod History
