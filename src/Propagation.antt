-- ===== src/Propagation.antt =====
-- services/propagation: the dependency-aware dispatcher of one Kafka claim, the tracker of its
-- offsets, the queue of messages to mark, the plan that cuts a batch into chunks, the halving of a
-- chunk that no answer can be bound to, and the durable retries of a parked transaction.
pub mod Offsets
pub mod Chunks
pub mod Dispatcher
pub mod Narrowing
pub mod Parking
