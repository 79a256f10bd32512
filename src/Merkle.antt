-- ===== src/Merkle.antt =====
-- merkleservice/pool.go: the pool of merkle services, with a breaker and a queue of owed
-- registrations for each of them.
pub mod Answers
pub mod Catchup
pub mod Endpoint
pub mod Pool
