-- ===== src/Script.antt =====
-- The script machine (crates/godcoin/src/script).
pub mod Op
pub mod Stack
pub mod Builder
pub mod Header
pub mod Consume
pub mod Decode
pub mod Progress
pub mod Assembled
pub mod RoundTrip
