-- ===== src/Refinement.antt =====
-- The catalog refines a map from actions to outputs.
pub mod View
pub mod Outputs
pub mod Entries
pub mod Puts
pub mod Steps
