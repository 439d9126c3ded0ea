-- ===== src/Mine.antt =====
-- The mining of cmd/go-gpu-miner/main.go: the batches, the CPU re-hash gate and the submits.
pub mod Gate
pub mod Shares
pub mod Loop
pub mod Batches
pub mod Buffers
pub mod Streaming
pub mod Running
pub mod Progress
mod Tests
