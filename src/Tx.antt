-- ===== src/Tx.antt =====
-- Transactions (crates/godcoin/src/tx/mod.rs).
pub mod Types
pub mod Take
pub mod Utf8
pub mod Format
pub mod Laws
pub mod RoundTrip
