-- ===== src/Store.antt =====
-- store.go and cache.go: the state of a running helper, and `put` and `get`. What the operating
-- system and the database report at each call is an argument of the operation.
pub mod State
pub mod Put
pub mod Get
pub mod RoundTrip
pub mod Serve
pub mod Cleared
pub mod Errors
pub mod Success
pub mod Heal
pub mod Answers
