-- ===== src/Caches.antt =====
-- The bounded caches: ssrfguard/cache.go (Success), and two caches over the LRU library's list
-- (Lru), whose entries are charged against a budget (Budget): store/bumpcache/bumpcache.go (Bumps,
-- Fills) and services/sse/tokenindex.go (Tokens).
pub mod Success
pub mod Lru
pub mod ListLru
pub mod Budget
pub mod Bumps
pub mod Fills
pub mod Tokens
