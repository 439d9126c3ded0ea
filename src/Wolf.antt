-- ===== src/Wolf.antt =====
-- The wolf loop's byte programs: the 256-case switch of internal/astrobwt/pow.go and the micro-op
-- table of internal/astrobwt/wolftable.go, with the proof that they agree.
pub mod Switch
pub mod Table
pub mod Agree
pub mod Bytes
mod Tests
