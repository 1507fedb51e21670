-- ===== src/Engine.antt =====
-- The script engine (crates/godcoin/src/script/engine.rs).
pub mod Machine
pub mod Exec
pub mod Run
pub mod Keeps
pub mod Invariant
pub mod Kept
pub mod Preserve
pub mod Outcome
pub mod Settle
pub mod Remainder
pub mod PastEnd
