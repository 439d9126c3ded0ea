-- ===== src/Miner.antt =====
-- The miner's shared job state: internal/miner (difficulty.go, state.go).
pub mod Target
pub mod Difficulty
pub mod Hex
pub mod State
pub mod Jobs
pub mod History
mod Tests
