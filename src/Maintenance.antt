-- ===== src/Maintenance.antt =====
-- The maintenance of cache.go and catalog.go: when it is due, eviction down to the size budget, and
-- expiry by age.
pub mod Due
pub mod Plan
pub mod Chosen
pub mod Cover
pub mod Stop
pub mod Evict
pub mod Rounds
pub mod Unlink
pub mod Budget
