-- ===== src/Go.antt =====
-- The parts of Go's standard library that the code's behaviour rests on.
pub mod Duration
pub mod Bytes
pub mod Decimal
pub mod Dict
pub mod Expand
pub mod Fs
pub mod Http
pub mod Int64
pub mod Members
pub mod Path
pub mod Search
pub mod Sort
pub mod Trim
