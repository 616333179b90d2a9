-- ===== src/Search.antt =====
-- The scoped search for missing episodes: scripts/search_missing_scoped_core.py and
-- scripts/search_missing_scoped_checkpoint.py.
pub mod Plan
pub mod Checkpoint
pub mod State
pub mod Config
pub mod Engine
pub mod Client
pub mod Verifier
pub mod Reads
mod Tests
