-- ===== src/Lib.antt =====
-- A verification library for arcade, a service that takes Bitcoin transactions, broadcasts them, and
-- follows them until a block confirms them.
--
-- The parts, and the modules that model them:
--
-- - Models: models/transaction.go. `Status` has the constants of the Go type as constructors and any other
--   string as `other`; `can_transition_from` is CanTransitionFrom; `append_anchor` is the algorithm of
--   AppendOrphanedAnchor, which store/pebble/pebble.go repeats over its own record.
-- - Pebble: store/pebble/pebble.go. A store is the state that its keys hold: status rows under their ids, and
--   the entries of the four secondary indexes (Row, Index, Ops); block-processing rows and their height
--   index (Blocks). The key-value database is not part of the repository: it applies a batch whole or not at
--   all, and an argument `Io` of each operation says whether the context is cancelled, the read fails,
--   or the write fails. The locks per row make each operation on a row one step. `Walk` has the
--   operations as a type of commands, so that theorems speak of every history of them. `Leases`,
--   `Submissions` and `Endpoints` are the leases, the callback registrations and the registered endpoints,
--   whose operations go through the same `Io`; `Submissions/Race` has two of them action by action, with
--   the mutex that one takes and the other does not. A time is
--   its nanoseconds, 0 when it is not set. Integers that the code only counts up are not bounded.
-- - Propagation: services/propagation. `Offsets` is offset_tracker.go, with the heap of the standard library as an
--   ascending list, and mark_queue.go; `Chunks` is chunking.go; `Dispatcher` is the state and the
--   handlers of dispatcher.go, one function per handler, and `Step` and `Reachable` say which
--   states the goroutine reaches. A set of strings is a list. The cascade walks on fuel, the number of
--   entries in the sets of waiters and two more, which is enough because each turn takes a parent off the
--   queue and each child that it adds was such an entry.
--   `Narrowing` is the broadcast of a chunk of propagator.go with its halving, on fuel for the length of the
--   chunk, where the call to the endpoints is an argument; `Parking` is its retry budgets and the durable
--   retry of a parked transaction, over the pebble store, where the formats of messages and the random
--   bytes are arguments, and the jitter is the exact value of the floating-point product.
-- - Tracker: store/tracker.go and store/trackerscan.go. The parser of a hash comes from the SDK and is an
--   argument. The one sum of 64-bit heights keeps its wrap-around.
-- - Finality: finality/finality.go and finality/mtp.go: the median of the last eleven timestamps, the check
--   of a lock time against height and median, and the formatting of what is left. The readers of the tip and of
--   headers are arguments, and the wrap-around of the unsigned heights and times is written out; the rule itself only
--   compares 32-bit numbers, and `IsWord` is their range.
-- - Caches: ssrfguard/cache.go (Success), store/bumpcache/bumpcache.go (Budget, Bumps, Fills) and
--   services/sse/tokenindex.go (Tokens). The cache of the LRU library is the record `Lru` of operations and laws,
--   with `ListLru` as an instance of it; the parser of a compound proof is an argument. The loop that
--   evicts takes as fuel the number of entries, since each turn removes one. Fills that overlap are events, each one
--   atomic as the mutex makes it.
-- - Teranode: teranode/client.go. The endpoints' circuit breakers, the probes of the health loop, the order of the
--   endpoints and the submission to them; the HTTP exchange is an argument.
-- - Kafka: kafka/consumer.go: the loop over a claim of the consumer group, the retries of a message and its dead
--   letter. The number of attempts bounds the retries, as in the code. What the loop does to the broker is a list of
--   actions, and how marks move the committed position is an argument.
-- - Merkle: merkleservice/pool.go: the merging of answers, the queue of registrations that an endpoint has
--   missed, whose `max` is `limit` here, an endpoint with its breaker, trials and drains, and the batch over all
--   endpoints. What the endpoints answer, and which goroutine of a batch is late, are arguments; the HTTP client
--   is not modelled. A full queue drops its oldest entries one by one along its order.
-- - Paging: store/paging.go. The pages of a listing are read on fuel, more than the top height and the
--   largest page together, since a turn either lowers the cursor or doubles the page.
-- - Webhook: services/webhook: which submissions are told of an update, the claim of a transition, the POST
--   with what is recorded of it, the backoff, and the sweep of what is due. What the calls of the store, the
--   encoding and the POST meet is an argument `Turn`. `deliver` is a call that no other comes between;
--   `Interleaved` has the steps of calls that overlap. Durations are nanoseconds without a bound, 0 where they
--   are not positive.
-- - Prelude: shared names, native lists, equality as an interface, and finite maps for Go's maps.
-- - Tests: the theorems at concrete inputs.
--
-- The dispatcher uses the tracker and the mark queue; the tracker of transactions and the pebble store use
-- the statuses and the guard of Models. The webhook claims its deliveries on the submissions of Pebble, and
-- the parking of Propagation counts, books and gives up on its status rows.
--
-- Not modelled: the backends whose behaviour is in SQL or in a driver (store/postgres, store/aerospike,
-- store/mongodb), the channels and timers between goroutines, HTTP, metrics and configuration, and so far
-- the bumps and stumps of the pebble store, the rest of the propagator (the classification of answers, the
-- reaper, the merkle circuit), the construction of compound proofs, the watchdog, and the API and SSE servers.
pub mod Prelude
pub mod Models
pub mod Pebble
pub mod Propagation
pub mod Tracker
pub mod Finality
pub mod Caches
pub mod Teranode
pub mod Kafka
pub mod Merkle
pub mod Paging
pub mod Webhook
pub mod Tests
