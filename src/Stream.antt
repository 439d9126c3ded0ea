-- ===== src/Stream.antt =====
-- The data stream of AstroBWTv3: the wolf loop of internal/astrobwt/pow.go and its table-driven
-- copy in internal/astrobwt/wolftable.go, their bounds, and the proof that they write the same.
pub mod Mix
pub mod Round
pub mod Table
pub mod Keeps
pub mod Positions
pub mod Total
pub mod Agree
mod Tests
