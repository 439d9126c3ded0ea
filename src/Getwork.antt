-- ===== src/Getwork.antt =====
-- The reconnecting of internal/getwork/client.go.
pub mod Backoff
mod Tests
